-- ===== src/Proof/Weight/Tally.antt =====
-- What the counted weight is the weight of: distinct members of the set, each with a signature
-- that verifies.
use mathlib.Core.Path.{subst}
use ton_net.Base.{
  ℕ, zero, suc, ◌+◌, ◌^◌, ◌≡◌, refl, ◌⊎◌, inl, inr, Bool, true, Option, none, some, List, [], ◌∷◌,
  leb, All, arith, Bool-cases,
}
use Prim.Native.Nat.{Ordering}
use ton_net.Base.Result.{Result, ok, err}
use ton_net.Base.Compare.{cmp_bytes, cmp_bytes-gt, Less, Less-trans}
use ton_net.Cell.Identity.{Hash}
use ton_net.Proof.Wire.{Signature, BlockError}
use ton_net.Proof.Validators.{Validator, ValidatorSet, find, carries}
use ton_net.Proof.Weight.{
  search, later, insert_at, Count, Turn, go, finish, add_weight, attempt, turn_on, turn, after,
  carried_loop, carried_weight, budget,
}

abbrev pub Ascending : List Hash → Type 0
Ascending [] = Unit
Ascending (c ∷ cs) = All (Less c) cs × Ascending cs

All-insert_at :
    (P : Hash → Type 0) (at : ℕ) (id : Hash) (cs : List Hash)
    → P id
    → All P cs
    → All P (insert_at at id cs)
unfolding insert_at
All-insert_at P zero id cs p ps = (p, ps)
All-insert_at P (suc at) id [] p ps = (p, ps)
All-insert_at P (suc at) id (c ∷ cs) p ps = (ps.0, All-insert_at P at id cs p ps.1)

All-Less : (a b : Hash) (cs : List Hash) → Less a b → All (Less b) cs → All (Less a) cs
All-Less a b [] h k = k
All-Less a b (c ∷ cs) h k = (Less-trans a b c h k.0, All-Less a b cs h k.1)

-- What an insertion at the searched place keeps, by how the head compares.
insert-by :
    (id c : Hash) (cs : List Hash) (at : ℕ) (o : Ordering) (found : Result ℕ ℕ)
    → cmp_bytes c id ≡ o
    → ((at' : ℕ) → found ≡ err at' → Ascending (insert_at at' id cs))
    → elim o [ Ordering.lt ↦ later found | Ordering.eq ↦ ok 0 | Ordering.gt ↦ err 0 ] ≡ err at
    → Ascending (c ∷ cs)
    → Ascending (insert_at at id (c ∷ cs))
unfolding insert_at later
insert-by id c cs zero Ordering.lt (err n) e rec h a = absurd (cc h)
insert-by id c cs (suc at) Ordering.lt (err n) e rec h a =
    (All-insert_at (Less c) at id cs e a.0, rec at (ground arith))
insert-by id c cs at Ordering.lt (ok n) e rec h a = absurd (cc h)
insert-by id c cs at Ordering.eq found e rec h a = absurd (cc h)
insert-by id c cs zero Ordering.gt found e rec h a =
    ((cmp_bytes-gt c id e, All-Less id c cs (cmp_bytes-gt c id e) a.0), a)
insert-by id c cs (suc at) Ordering.gt found e rec h a = absurd (cc h)

insert_at-Ascending :
    (id : Hash) (cs : List Hash) (at : ℕ)
    → search id cs ≡ err at
    → Ascending cs
    → Ascending (insert_at at id cs)
unfolding search insert_at
insert_at-Ascending id [] zero h a = (tt, tt)
insert_at-Ascending id [] (suc at) h a = (tt, tt)
insert_at-Ascending id (c ∷ cs) at h a =
    insert-by id c cs at (cmp_bytes c id) (search id cs) refl
      (λ at' k. insert_at-Ascending id cs at' k a.1) h a

unfoldable pub weight_of : Option Validator → ℕ
weight_of none = 0
weight_of (some v) = v.weight

-- What one member of the set weighs.
unfoldable pub weight_in : ValidatorSet → Hash → ℕ
unfolding weight_of
weight_in set id = weight_of (find set id)

unfoldable pub total_in : ValidatorSet → List Hash → ℕ
total_in set [] = 0
total_in set (id ∷ ids) = weight_in set id + total_in set ids

total_in-insert_at :
    (set : ValidatorSet) (at : ℕ) (id : Hash) (cs : List Hash)
    → total_in set (insert_at at id cs) ≡ weight_in set id + total_in set cs
unfolding total_in insert_at
total_in-insert_at set zero id cs = refl
total_in-insert_at set (suc at) id [] = refl
total_in-insert_at set (suc at) id (c ∷ cs) = omega (arith, total_in-insert_at set at id cs)

-- `entry` is one of the entries.
abbrev pub Among : Signature → List Signature → Type 0
Among entry [] = ⊥
Among entry (x ∷ xs) = (entry ≡ x) ⊎ Among entry xs

weight_in-found :
    (set : ValidatorSet) (id : Hash) (v : Validator)
    → find set id ≡ some v
    → weight_in set id ≡ v.weight
unfolding weight_in weight_of
weight_in-found set id v h = rw (h)

module _ (verify : List ℕ → List ℕ → List ℕ → Bool) where
  -- A member of the set whose signature of the message is in the list and verifies.
  abbrev pub Signed : ValidatorSet → List ℕ → List Signature → Hash → Type 0
  Signed set message sigs id =
      (v : Validator) × (entry : Signature) × ((find set id ≡ some v)
        × (Among entry sigs
            × ((entry.node_id_short ≡ id) × (verify v.public_key message entry.signature ≡ true))))

  -- Distinct members of the set signed the message, and the weight is the sum of theirs.
  pub record Tally (set : ValidatorSet) (message : List ℕ) (sigs : List Signature) (ids : List Hash)
      (weight : ℕ) : Type 0 where
    pub ascending : Ascending ids
    pub signed : All (Signed set message sigs) ids
    pub sum : weight ≡ total_in set ids

  -- What a turn leaves: a tally in the state, or of the weight that is returned.
  TurnTally : ValidatorSet → List ℕ → List Signature → Result BlockError Turn → Type 0
  TurnTally set message sigs (err e) = Unit
  TurnTally set message sigs (ok (go c)) = Tally set message sigs c.counted c.weight
  TurnTally set message sigs (ok (finish w)) = (ids : List Hash) × Tally set message sigs ids w

  counted_more :
      (set : ValidatorSet) (message : List ℕ) (sigs : List Signature) (entry : Signature)
      (v : Validator) (at : ℕ) (c : Count)
      → Among entry sigs
      → find set entry.node_id_short ≡ some v
      → search entry.node_id_short c.counted ≡ err at
      → verify v.public_key message entry.signature ≡ true
      → Tally set message sigs c.counted c.weight
      → Tally set message sigs (insert_at at entry.node_id_short c.counted) (c.weight + v.weight)
  counted_more set message sigs entry v at c among found place verified t = record {
    ascending = insert_at-Ascending entry.node_id_short c.counted at place t.ascending;
    signed =
        All-insert_at (Signed set message sigs) at entry.node_id_short c.counted
          (v, entry, (found, (among, (refl, verified)))) t.signed;
    sum = omega (
      arith,
      t.sum,
      total_in-insert_at set at entry.node_id_short c.counted,
      weight_in-found set entry.node_id_short v found,
    );
  }

  add_weight-Tally :
      (set : ValidatorSet) (message : List ℕ) (sigs : List Signature) (v : Validator) (at : ℕ)
      (id : Hash) (c : Count)
      → Tally set message sigs (insert_at at id c.counted) (c.weight + v.weight)
      → TurnTally set message sigs (add_weight set v at id c)
  unfolding add_weight TurnTally
  add_weight-Tally set message sigs v at id c t =
      elim (Bool-cases (leb (2 ^ 64) (c.weight + v.weight))) [
        | inl h ↦ rw (h) tt
        | inr h ↦ elim (Bool-cases (carries set (c.weight + v.weight))) [
          | inl k ↦ rw (h, k) (insert_at at id c.counted, t)
          | inr k ↦ rw (h, k) t
        ]
      ]

  attempt-Tally :
      (set : ValidatorSet) (message : List ℕ) (sigs : List Signature) (v : Validator) (at : ℕ)
      (id : Hash) (c : Count) (verified : Bool)
      → Tally set message sigs c.counted c.weight
      → (verified ≡ true → Tally set message sigs (insert_at at id c.counted) (c.weight + v.weight))
      → TurnTally set message sigs (attempt set v at id c verified)
  unfolding attempt TurnTally
  attempt-Tally set message sigs v at id c verified t more =
      elim (Bool-cases (leb (budget set) c.attempts)) [
        | inl h ↦ rw (h) (c.counted, t)
        | inr h ↦ elim (Bool-cases verified) [
          | inl k ↦ rw (h, k) (add_weight-Tally set message sigs v at id c (more k))
          | inr k ↦ rw (h, k) t
        ]
      ]

  turn_on-Tally :
      (set : ValidatorSet) (message : List ℕ) (sigs : List Signature) (entry : Signature)
      (c : Count) (v : Option Validator) (at : Result ℕ ℕ)
      → Among entry sigs
      → find set entry.node_id_short ≡ v
      → search entry.node_id_short c.counted ≡ at
      → Tally set message sigs c.counted c.weight
      → TurnTally set message sigs (turn_on verify set message entry c v at)
  unfolding turn_on TurnTally
  turn_on-Tally set message sigs entry c none at among found place t = t
  turn_on-Tally set message sigs entry c (some v) (ok at) among found place t = t
  turn_on-Tally set message sigs entry c (some v) (err at) among found place t =
      attempt-Tally set message sigs v at entry.node_id_short c
        (verify v.public_key message entry.signature) t
        (λ k. counted_more set message sigs entry v at c among found place k t)

  after-Tally :
      (set : ValidatorSet) (message : List ℕ) (sigs : List Signature)
      (next : Count → Result BlockError ℕ) (r : Result BlockError Turn) (w : ℕ)
      → ((c : Count)
          → next c ≡ ok w
          → Tally set message sigs c.counted c.weight
          → (ids : List Hash) × Tally set message sigs ids w)
      → TurnTally set message sigs r
      → after next r ≡ ok w
      → (ids : List Hash) × Tally set message sigs ids w
  unfolding after TurnTally
  after-Tally set message sigs next (err e) w rec t h = absurd (cc h)
  after-Tally set message sigs next (ok (go c)) w rec t h = rec c h t
  after-Tally set message sigs next (ok (finish n)) w rec t h =
      (t.0, subst (λ m. Tally set message sigs (t.0) m) (ground arith) (t.1))

  carried_loop-Tally :
      (set : ValidatorSet) (message : List ℕ) (sigs rest : List Signature) (c : Count) (w : ℕ)
      → All (λ e. Among e sigs) rest
      → carried_loop verify set message rest c ≡ ok w
      → Tally set message sigs c.counted c.weight
      → (ids : List Hash) × Tally set message sigs ids w
  unfolding carried_loop turn
  carried_loop-Tally set message sigs [] c w among h t =
      (c.counted, subst (λ m. Tally set message sigs c.counted m) (ground arith) t)
  carried_loop-Tally set message sigs (entry ∷ rest) c w among h t =
      after-Tally set message sigs (carried_loop verify set message rest)
        (turn verify set message entry c) w
        (λ d k u. carried_loop-Tally set message sigs rest d w among.1 k u)
        (turn_on-Tally set message sigs entry c (find set entry.node_id_short)
          (search entry.node_id_short c.counted) among.0 refl refl t)
        h

  All-Among :
      (more sigs : List Signature)
      → ((e : Signature) → Among e more → Among e sigs)
      → All (λ e. Among e sigs) more
  All-Among [] sigs h = tt
  All-Among (x ∷ more) sigs h = (h x (inl refl), All-Among more sigs (λ e k. h e (inr k)))

  -- The weight that `carried_weight` returns is the sum of the weights of distinct members of
  -- the set, each with an entry in the list under its own id whose signature of the message
  -- verifies under the key of that member.
  pub carried_weight-Tally :
      (set : ValidatorSet) (sigs : List Signature) (message : List ℕ) (w : ℕ)
      → carried_weight verify set sigs message ≡ ok w
      → (ids : List Hash) × Tally set message sigs ids w
  unfolding carried_weight total_in
  carried_weight-Tally set sigs message w h =
      carried_loop-Tally set message sigs sigs (record { attempts = 0; counted = []; weight = 0 }) w
        (All-Among sigs sigs (λ e k. k)) h (record { ascending = tt; signed = tt; sum = refl })
