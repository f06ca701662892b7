-- ===== src/Proof/Weight/Honest.antt =====
-- The count is complete: signers from outside the set change nothing, and when no signer is
-- repeated the outcome is that of adding up every vote that verifies.
use mathlib.Core.Path.{subst}
use ton_net.Base.{
  ℕ, zero, suc, ◌+◌, ◌^◌, ◌≤◌, ◌<◌, ◌≡◌, ◌≢◌, refl, ap, ◌⊎◌, inl, inr, Bool, true, false, Option,
  none, some, List, [], ◌∷◌, ◌++◌, leb, if◌then◌else◌, All, arith, Bool-cases, length,
}
use Prim.Native.Nat.{Ordering}
use ton_net.Base.Result.{Result, ok, err}
use ton_net.Base.Compare.{cmp_bytes, cmp_bytes→eq}
use ton_net.Cell.Identity.{Hash}
use ton_net.Proof.Wire.{Signature, BlockError}
use ton_net.Proof.Validators.{Validator, ValidatorSet, find, carries}
use ton_net.Proof.Weight.{
  search, later, insert_at, Count, Turn, go, finish, add_weight, attempt, turn_on, turn, after,
  carried_loop, carried_weight, budget,
}

abbrev Fresh : Hash → List Hash → Type 0
Fresh id cs = All (λ c. c ≢ id) cs

place_of :
    (id c : Hash) (o : Ordering) (found : Result ℕ ℕ)
    → cmp_bytes c id ≡ o
    → c ≢ id
    → (at : ℕ) × (found ≡ err at)
    → (at : ℕ) × (elim o [ Ordering.lt ↦ later found | Ordering.eq ↦ ok 0 | Ordering.gt ↦ err 0 ]
        ≡ err at)
unfolding later
place_of id c Ordering.lt found e ne (at, h) = (suc at, rw (h) refl)
place_of id c Ordering.eq found e ne p = absurd (ne (cmp_bytes→eq c id e))
place_of id c Ordering.gt found e ne p = (0, refl)

search-Fresh : (id : Hash) (cs : List Hash) → Fresh id cs → (at : ℕ) × (search id cs ≡ err at)
unfolding search
search-Fresh id [] f = (0, refl)
search-Fresh id (c ∷ cs) f =
    place_of id c (cmp_bytes c id) (search id cs) refl f.0 (search-Fresh id cs f.1)

insert_at-Fresh :
    (id new : Hash) (at : ℕ) (cs : List Hash)
    → new ≢ id
    → Fresh id cs
    → Fresh id (insert_at at new cs)
unfolding insert_at
insert_at-Fresh id new zero cs n f = (n, f)
insert_at-Fresh id new (suc at) [] n f = (n, tt)
insert_at-Fresh id new (suc at) (c ∷ cs) n f = (f.0, insert_at-Fresh id new at cs n f.1)

leb-false : (a b : ℕ) → b < a → leb a b ≡ false
leb-false a b h = ground arith

-- No signer is named twice.
abbrev pub Distinct : List Signature → Type 0
Distinct [] = Unit
Distinct (e ∷ es) = All (λ x. e.node_id_short ≢ x.node_id_short) es × Distinct es

module _ (verify : List ℕ → List ℕ → List ℕ → Bool) where
  unfoldable pub vote_on : List ℕ → Signature → Option Validator → ℕ
  vote_on message entry none = 0
  vote_on message entry (some v) =
      if verify v.public_key message entry.signature then v.weight else 0

  -- What one entry is worth: its member's weight, if it names one and verifies.
  unfoldable pub vote : ValidatorSet → List ℕ → Signature → ℕ
  unfolding vote_on
  vote set message entry = vote_on message entry (find set entry.node_id_short)

  unfoldable pub votes : ValidatorSet → List ℕ → List Signature → ℕ
  votes set message [] = 0
  votes set message (e ∷ es) = vote set message e + votes set message es

  -- Where a count that may stop early ends: at the whole sum, or past the threshold below it.
  Outcome : ValidatorSet → ℕ → Result BlockError ℕ → Type 0
  Outcome set sum r = (w : ℕ) × ((r ≡ ok w) × ((w ≡ sum) ⊎ ((carries set w ≡ true) × (w ≤ sum))))

  -- What a turn does in a state with a vote of that worth.
  TurnOutcome : ValidatorSet → Count → Signature → ℕ → Result BlockError Turn → Type 0
  TurnOutcome set c e worth (err x) = ⊥
  TurnOutcome set c e worth (ok (finish w)) = (carries set w ≡ true) × (w ≡ c.weight + worth)
  TurnOutcome set c e worth (ok (go d)) =
      (d.weight ≡ c.weight + worth)
      × ((d.attempts ≤ suc c.attempts)
          × ((id : Hash) → e.node_id_short ≢ id → Fresh id c.counted → Fresh id d.counted))

  add_weight-Outcome :
      (set : ValidatorSet) (c : Count) (e : Signature) (v : Validator) (at : ℕ)
      → c.weight + v.weight < 2 ^ 64
      → TurnOutcome set c e v.weight (add_weight set v at e.node_id_short c)
  unfolding add_weight TurnOutcome
  add_weight-Outcome set c e v at h = elim (Bool-cases (carries set (c.weight + v.weight))) [
    | inl k ↦ rw (leb-false (2 ^ 64) (c.weight + v.weight) h, k) (k, refl)
    | inr k ↦
        rw (leb-false (2 ^ 64) (c.weight + v.weight) h, k)
          (refl, (omega arith, λ id n f. insert_at-Fresh id e.node_id_short at c.counted n f))
  ]

  attempt-Outcome :
      (set : ValidatorSet) (c : Count) (e : Signature) (v : Validator) (at : ℕ) (b : Bool)
      → c.attempts < budget set
      → c.weight + (if b then v.weight else 0) < 2 ^ 64
      → TurnOutcome set c e (if b then v.weight else 0) (attempt set v at e.node_id_short c b)
  unfolding attempt TurnOutcome
  attempt-Outcome set c e v at true room h =
      rw (leb-false (budget set) c.attempts room) (add_weight-Outcome set c e v at h)
  attempt-Outcome set c e v at false room h =
      rw (leb-false (budget set) c.attempts room) (omega arith, (omega arith, λ id n f. f))

  turn_on-Outcome :
      (set : ValidatorSet) (message : List ℕ) (e : Signature) (c : Count) (v : Option Validator)
      (at : Result ℕ ℕ) (k : ℕ)
      → at ≡ err k
      → c.attempts < budget set
      → c.weight + vote_on message e v < 2 ^ 64
      → TurnOutcome set c e (vote_on message e v) (turn_on verify set message e c v at)
  unfolding turn_on TurnOutcome vote_on attempt
  turn_on-Outcome set message e c none at k p room h = (omega arith, (omega arith, λ id n f. f))
  turn_on-Outcome set message e c (some v) (ok at) k p room h = absurd (cc p)
  turn_on-Outcome set message e c (some v) (err at) k p room h =
      attempt-Outcome set c e v at (verify v.public_key message e.signature) room h

  after-Outcome :
      (set : ValidatorSet) (c : Count) (e : Signature) (worth rest : ℕ)
      (next : Count → Result BlockError ℕ) (r : Result BlockError Turn)
      → TurnOutcome set c e worth r
      → ((d : Count)
          → d.weight ≡ c.weight + worth
          → d.attempts ≤ suc c.attempts
          → ((id : Hash) → e.node_id_short ≢ id → Fresh id c.counted → Fresh id d.counted)
          → Outcome set (d.weight + rest) (next d))
      → Outcome set (c.weight + (worth + rest)) (after next r)
  unfolding after TurnOutcome Outcome
  after-Outcome set c e worth rest next (err x) t rec = absurd t
  after-Outcome set c e worth rest next (ok (finish w)) t rec =
      (w, (refl, inr (t.0, omega (arith, t.1))))
  after-Outcome set c e worth rest next (ok (go d)) t rec =
      subst (λ n. Outcome set n (next d)) (omega (arith, t.0)) (rec d (t.0) (t.1.0) (t.1.1))

  Fresh-All :
      (e : Signature) (counted counted' : List Hash) (es : List Signature)
      → ((id : Hash) → e.node_id_short ≢ id → Fresh id counted → Fresh id counted')
      → All (λ x. e.node_id_short ≢ x.node_id_short) es
      → All (λ x. Fresh x.node_id_short counted) es
      → All (λ x. Fresh x.node_id_short counted') es
  Fresh-All e counted counted' [] keep ne f = tt
  Fresh-All e counted counted' (x ∷ es) keep ne f =
      (keep x.node_id_short ne.0 f.0, Fresh-All e counted counted' es keep ne.1 f.1)

  carried_loop-Outcome :
      (set : ValidatorSet) (message : List ℕ) (es : List Signature) (c : Count)
      → Distinct es
      → All (λ x. Fresh x.node_id_short c.counted) es
      → c.attempts + length es ≤ budget set
      → c.weight + votes set message es < 2 ^ 64
      → Outcome set (c.weight + votes set message es) (carried_loop verify set message es c)
  unfolding carried_loop turn votes vote Outcome
  carried_loop-Outcome set message [] c dist fresh room h = (c.weight, (refl, inl (omega arith)))
  carried_loop-Outcome set message (e ∷ es) c dist fresh room h =
      after-Outcome set c e (vote set message e) (votes set message es)
        (carried_loop verify set message es) (turn verify set message e c)
        (turn_on-Outcome set message e c (find set e.node_id_short)
          (search e.node_id_short c.counted) (search-Fresh e.node_id_short c.counted fresh.0).0
          (search-Fresh e.node_id_short c.counted fresh.0).1 (omega arith) (omega arith))
        (λ d wt at keep.
          carried_loop-Outcome set message es d dist.1
            (Fresh-All e c.counted d.counted es keep dist.0 fresh.1) (omega (arith, at))
            (omega (arith, wt)))

  Fresh-none : (es : List Signature) → All (λ x. Fresh x.node_id_short []) es
  Fresh-none [] = tt
  Fresh-none (x ∷ es) = (tt, Fresh-none es)

  carries_mono :
      (set : ValidatorSet) (a b : ℕ) → a ≤ b → carries set a ≡ true → carries set b ≡ true
  unfolding carries
  carries_mono set a b h k = ground arith

  decided_by :
      (set : ValidatorSet) (sum w : ℕ)
      → (w ≡ sum) ⊎ ((carries set w ≡ true) × (w ≤ sum))
      → (w ≤ sum) × (carries set w ≡ carries set sum)
  decided_by set sum w (inl h) = (omega (arith, h), ap (carries set) h)
  decided_by set sum w (inr (k, h)) = (h, cc (k, carries_mono set w sum h k))

  decided :
      (set : ValidatorSet) (sum : ℕ) (r : Result BlockError ℕ)
      → Outcome set sum r
      → (w : ℕ) × ((r ≡ ok w) × ((w ≤ sum) × (carries set w ≡ carries set sum)))
  unfolding Outcome
  decided set sum r (w, (h, d)) = (w, (h, decided_by set sum w d))

  -- When no signer is named twice, there are at most twice as many entries as members and the
  -- votes that verify add up to less than 2^64, `carried_weight` returns a weight, at most that
  -- sum, and the set is carried by the returned weight exactly when it is by the sum.
  pub carried_weight-votes :
      (set : ValidatorSet) (sigs : List Signature) (message : List ℕ)
      → Distinct sigs
      → length sigs ≤ budget set
      → votes set message sigs < 2 ^ 64
      → (w : ℕ) × ((carried_weight verify set sigs message ≡ ok w)
          × ((w ≤ votes set message sigs) × (carries set w ≡ carries set (votes set message sigs))))
  unfolding carried_weight Outcome
  carried_weight-votes set sigs message dist room h =
      decided set (votes set message sigs) (carried_weight verify set sigs message) (
        subst (λ n. Outcome set n (carried_weight verify set sigs message)) (omega arith)
          (carried_loop-Outcome set message sigs (record { attempts = 0; counted = []; weight = 0 })
            dist (Fresh-none sigs) (omega (arith, room)) (omega (arith, h))))

  skip_one :
      (set : ValidatorSet) (message : List ℕ) (e : Signature) (rest : List Signature) (c : Count)
      → find set e.node_id_short ≡ none
      → carried_loop verify set message (e ∷ rest) c ≡ carried_loop verify set message rest c
  unfolding carried_loop turn turn_on after
  skip_one set message e rest c h = rw (h) refl

  after-cong :
      (f g : Count → Result BlockError ℕ) (r : Result BlockError Turn)
      → ((c : Count) → f c ≡ g c)
      → after f r ≡ after g r
  unfolding after
  after-cong f g (err e) h = refl
  after-cong f g (ok (go c)) h = h c
  after-cong f g (ok (finish w)) h = refl

  skip_outsider :
      (set : ValidatorSet) (message : List ℕ) (e : Signature) (before rest : List Signature)
      (c : Count)
      → find set e.node_id_short ≡ none
      → carried_loop verify set message (before ++ (e ∷ rest)) c
        ≡ carried_loop verify set message (before ++ rest) c
  unfolding carried_loop
  skip_outsider set message e [] rest c h = skip_one set message e rest c h
  skip_outsider set message e (x ∷ before) rest c h =
      after-cong (carried_loop verify set message (before ++ (e ∷ rest)))
        (carried_loop verify set message (before ++ rest)) (turn verify set message x c)
        (λ d. skip_outsider set message e before rest d h)

  -- An entry whose signer is not a member of the set changes nothing in the result of
  -- `carried_weight`, wherever it stands in the list.
  pub carried_weight-outsider :
      (set : ValidatorSet) (before rest : List Signature) (e : Signature) (message : List ℕ)
      → find set e.node_id_short ≡ none
      → carried_weight verify set (before ++ (e ∷ rest)) message
        ≡ carried_weight verify set (before ++ rest) message
  unfolding carried_weight
  carried_weight-outsider set before rest e message h =
      skip_outsider set message e before rest (record { attempts = 0; counted = []; weight = 0 }) h
