-- ===== src/Client/Sync/Ends.antt =====
-- A walk ends: every round that goes on is counted, and the count is bounded.
use ton_net.Base.{
  ℕ, zero, suc, ◌+◌, ◌≤◌, ◌<◌, ◌≡◌, refl, Option, none, some, arith, ap, ◌∙◌, leb, Bool-cases, inl,
  inr,
}
use ton_net.Base.Result.{Result, ok, err}
use ton_net.Proof.Chain.{Proofs}
use ton_net.Lite.{BlockIdExt, MasterchainInfo}
use ton_net.Client.Error.{Error, not_ahead}
use ton_net.Client.Sync.{
  Client, sync, sync_from, sync_towards, masterchain_info, start_of, settle, enough_rounds, set_out,
  World, Walk, Progress, Round, onward, arrived, SyncReport, sync_round, sync_loop, proceed,
}
use ton_net.Client.Sync.Rounds.{sync_round-Passed, Concludes}

-- The result of a loop, with the session after it.
abbrev Outcome : Type 0 → Type 0
Outcome S = Result Error (BlockIdExt × SyncReport) × S

module _ {S : Type 0} (proofs : Proofs) (world : World S) (limit : ℕ) (target : BlockIdExt) where
  -- A round that goes on has been counted, within the bound.
  onward-counted :
      (p q : Progress) (s after : S)
      → sync_round proofs world limit target p s ≡ (ok (onward q), after)
      → (q.walk.rounds ≡ suc p.walk.rounds) × (q.walk.rounds ≤ 512)
  unfolding Concludes
  onward-counted p q s after h =
      let (reply, passed) = sync_round-Passed proofs world limit target p s (onward q) after h in
      let counted = passed.counted in
      let walk : q.walk ≡ passed.walk = ap (λ (x : Progress). x.walk) passed.concluded.next in
      (
        ap (λ (w : Walk). w.rounds) walk ∙ counted.rounds,
        omega (arith, counted.rounds_left, ap (λ (w : Walk). w.rounds) walk),
      )

  ended_after :
      (p : Progress) (fuel : ℕ) (s : S) (r : Result Error Round × S)
      → sync_round proofs world limit target p s ≡ r
      → ((q : Progress)
          → (after : S) → (q.walk.rounds ≡ suc p.walk.rounds) × (q.walk.rounds ≤ 512)
          → (o : Outcome S) × (sync_loop proofs world limit target fuel q after ≡ some o))
      → (o : Outcome S) × (proceed (sync_loop proofs world limit target fuel) r ≡ some o)
  unfolding proceed
  ended_after p fuel s (err e, after) h rec = ((err e, after), refl)
  ended_after p fuel s (ok (onward q), after) h rec = rec q after (onward-counted p q s after h)
  ended_after p fuel s (ok (arrived kept report), after) h rec = ((ok (kept, report), after), refl)

  -- From a count of rounds within the bound, the loop ends in as many more rounds as the bound
  -- leaves and one.
  sync_loop-ends :
      (fuel : ℕ) (p : Progress) (s : S)
      → 512 < fuel + p.walk.rounds
      → p.walk.rounds ≤ 512
      → (o : Outcome S) × (sync_loop proofs world limit target fuel p s ≡ some o)
  unfolding sync_loop
  sync_loop-ends zero p s enough h = absurd (omega (arith, enough, h))
  sync_loop-ends (suc fuel) p s enough h =
      ended_after p fuel s (sync_round proofs world limit target p s) refl
        (λ q after c. sync_loop-ends fuel q after (omega (arith, c.0, enough)) (c.1))

module _ {S : Type 0} where
  settled :
      (c : Client S) (o : Option (Outcome S)) (r : Outcome S)
      → o ≡ some r
      → (out : Result Error SyncReport × Client S) × (settle c o ≡ some out)
  unfolding settle
  settled c none r h = absurd (cc h)
  settled c (some (err e, s)) r h = (_, refl)
  settled c (some (ok (kept, report), s)) r h = (_, refl)

module _ {S : Type 0} (proofs : Proofs) (world : World S) where
  sync_towards-ends :
      (start : BlockIdExt) (c : Client S) (named : Result Error MasterchainInfo × S)
      → (out : Result Error SyncReport × Client S) × (sync_towards proofs world start c named
          ≡ some out)
  unfolding sync_towards
  sync_towards-ends start c (err e, s) = (_, refl)
  sync_towards-ends start c (ok info, s) =
      elim (Bool-cases (leb (BlockIdExt.seqno info.last) start.seqno)) [
        | inl behind ↦ (
          (
            err (Error.sync (not_ahead (BlockIdExt.seqno info.last) start.seqno)),
            record c { lite = s },
          ),
          rw (behind) refl,
        )
        | inr ahead ↦
            let walked =
              sync_loop-ends proofs world c.max_head_age info.last enough_rounds (set_out start) s
                (omega arith) (omega arith) in
            rw (ahead) (
              settled c
                (sync_loop proofs world c.max_head_age info.last enough_rounds (set_out start) s)
                (walked.0) (walked.1))
      ]

  sync_from-ends :
      (start : Result Error BlockIdExt) (c : Client S)
      → (out : Result Error SyncReport × Client S) × (sync_from proofs world start c ≡ some out)
  unfolding sync_from
  sync_from-ends (err e) c = (_, refl)
  sync_from-ends (ok start) c = sync_towards-ends start c (masterchain_info world c.lite)

-- Whatever the server answers and whatever the clocks say, `sync` ends with a result within the
-- 513 rounds that it is given.
pub sync_ends :
    {S : Type 0} (proofs : Proofs) (world : World S) (c : Client S)
    → (out : Result Error SyncReport × Client S) × (sync proofs world c ≡ some out)
unfolding sync
sync_ends proofs world c = sync_from-ends proofs world (start_of c.anchor c.init_block) c
