-- ===== src/Client/Sync/Rounds.antt =====
-- What a round of a walk that did not fail has gone through.
use mathlib.Core.Path.{subst}
use ton_net.Base.{
  ℕ, suc, ◌+◌, ◌≤◌, ◌<◌, ◌≡◌, refl, Bool, true, false, not, Option, none, some, length, arith, ltb,
  Bool-cases, inl, inr,
}
use ton_net.Base.Result.{Result, ok, err, >>=-eq-ok}
use ton_net.Proof.Wire.{PartialBlockProof}
use ton_net.Proof.Chain.{Proofs, ProvenBlock, verify_chain}
use ton_net.Lite.{BlockIdExt, eq_block, eq_block→eq, from_wire, to_wire}
use ton_net.Client.Error.{Error, LiteError, within}
use ton_net.Client.Sync.{
  World, Walk, Progress, Round, onward, arrived, SyncReport, judge, answered, ask, sync_round,
  conclude, round, count_links, within_bounds, worth_continuing, chain_of, advanced, or_kept,
  last_key_block, fresh_enough, unless,
}

unless-passed : (failed : Bool) (e : Error) → unless failed e ≡ ok tt → failed ≡ false
unfolding unless
unless-passed true e h = absurd (cc h)
unless-passed false e h = refl

not-not : (b : Bool) → not b ≡ false → b ≡ true
not-not b h = ground arith

-- What a walk that was allowed to go on has counted.
pub record Counted (more : ℕ) (w next : Walk) : Type 0 where
  pub rounds : next.rounds ≡ suc w.rounds
  pub links : next.links ≡ w.links + more
  pub rounds_left : next.rounds ≤ 512
  pub links_left : next.links ≤ 4096

round-Counted :
    (links : ℕ) (w : Walk) → (round links w).0 ≡ ok tt → Counted links w (round links w).1
unfolding round count_links unless
round-Counted links w h = elim (Bool-cases (ltb 512 (suc w.rounds))) [
  | inl over ↦ absurd (cc (rw (over) at h))
  | inr under ↦ elim (Bool-cases (ltb 4096 (w.links + links))) [
    | inl many ↦ absurd (cc (rw (under, many) at h))
    | inr few ↦ rw (under) (record {
      rounds = refl;
      links = refl;
      rounds_left = ground arith;
      links_left = ground arith;
    })
  ]
]

-- At most the tolerated 300 seconds ahead of the clock, and no older than the bound.
pub record IsFresh (now gen_utime limit : ℕ) : Type 0 where
  pub not_ahead : gen_utime ≤ now + 300
  pub not_old : now ≤ gen_utime + limit

fresh_enough-IsFresh :
    (now gen_utime limit : ℕ)
    → fresh_enough now gen_utime limit ≡ ok tt
    → IsFresh now gen_utime limit
unfolding fresh_enough unless
fresh_enough-IsFresh now gen_utime limit h = ground arith

advanced-lt :
    (before after : BlockIdExt) → advanced before after ≡ ok tt → before.seqno < after.seqno
unfolding advanced unless
advanced-lt before after h = ground arith

-- A round that goes on ends at the block that its chain proved.
pub record GoesOn (proven : ProvenBlock) (anchor trusted : BlockIdExt) (walk : Walk) (q : Progress)
    : Type 0 where
  pub next : q ≡ record { anchor = anchor; trusted_key_block = trusted; walk = walk }
  pub key_block : proven.key_block ≡ true

-- A walk that arrives does so at the target, at a block that is fresh enough.
pub record Arrives (now limit : ℕ) (target : BlockIdExt) (proven : ProvenBlock)
    (anchor trusted : BlockIdExt) (walk : Walk) (kept : BlockIdExt) (report : SyncReport)
    : Type 0 where
  pub at_target : anchor ≡ target
  pub fresh : IsFresh now proven.gen_utime limit
  pub keeps : kept ≡ trusted
  pub reports : report ≡ record { head = anchor; links = walk.links; rounds = walk.rounds }

-- What the end of a round says of either outcome.
unfoldable pub Concludes :
    ℕ → ℕ → BlockIdExt → ProvenBlock → BlockIdExt → BlockIdExt → Walk → Round → Type 0
Concludes now limit target proven anchor trusted walk (onward q) =
    GoesOn proven anchor trusted walk q
Concludes now limit target proven anchor trusted walk (arrived kept report) =
    Arrives now limit target proven anchor trusted walk kept report

ok-round : (r s : Round) → ◌≡◌ {A = Result Error Round} (ok r) (ok s) → r ≡ s
ok-round r s h = cc

conclude-Concludes :
    (now limit : ℕ) (target : BlockIdExt) (complete : Bool) (proven : ProvenBlock)
    (anchor trusted : BlockIdExt) (walk : Walk) (r : Round)
    → conclude now limit target complete proven anchor trusted walk ≡ ok r
    → Concludes now limit target proven anchor trusted walk r
unfolding conclude Concludes
conclude-Concludes now limit target true proven anchor trusted walk r h =
    let a = >>=-eq-ok (unless (not (eq_block anchor target)) _) _ h in
    let b = >>=-eq-ok (fresh_enough now proven.gen_utime limit) _ (a.2) in
    subst (Concludes now limit target proven anchor trusted walk) (ok-round _ r (b.2)) (record {
      at_target =
          eq_block→eq anchor target (
            not-not (eq_block anchor target)
              (unless-passed (not (eq_block anchor target)) _ (a.1)));
      fresh = fresh_enough-IsFresh now proven.gen_utime limit (b.1);
      keeps = refl;
      reports = refl;
    })
conclude-Concludes now limit target false proven anchor trusted walk r h =
    let a = >>=-eq-ok (unless (not proven.key_block) _) _ h in
    subst (Concludes now limit target proven anchor trusted walk) (ok-round _ r (a.2)) (record {
      next = refl;
      key_block = not-not proven.key_block (unless-passed (not proven.key_block) _ (a.1));
    })

chain_of-ok :
    (r : Result _ ProvenBlock) (proven : ProvenBlock) → chain_of r ≡ ok proven → r ≡ ok proven
unfolding chain_of
chain_of-ok (ok q) proven h = cc
chain_of-ok (err e) proven h = absurd (cc h)

-- The checks of a reply that was judged well.
pub record Passed (proofs : Proofs) (now limit : ℕ) (target : BlockIdExt) (p : Progress)
    (reply : PartialBlockProof) (r : Round) : Type 0 where
  pub proven : ProvenBlock
  pub walk : Walk
  pub bounded : within_bounds reply ≡ ok tt
  pub counted : Counted (length reply.steps) p.walk walk
  pub checked : verify_chain proofs (to_wire p.anchor) reply ≡ ok proven
  pub higher : p.anchor.seqno < (from_wire proven.id).seqno
  pub concluded :
      Concludes now limit target proven
        (from_wire proven.id)
        (or_kept (last_key_block reply.steps) p.trusted_key_block)
        walk
        r

judge-Passed :
    (proofs : Proofs) (now limit : ℕ) (target : BlockIdExt) (p : Progress)
    (reply : PartialBlockProof) (r : Round)
    → judge proofs now limit target p reply ≡ ok r
    → Passed proofs now limit target p reply r
unfolding judge
judge-Passed proofs now limit target p reply r h =
    let c = >>=-eq-ok (within_bounds reply) _ h in
    let d = >>=-eq-ok ((round (length reply.steps) p.walk).0) _ (c.2) in
    let e = >>=-eq-ok (chain_of (verify_chain proofs (to_wire p.anchor) reply)) _ (d.2) in
    let f = >>=-eq-ok (advanced p.anchor (from_wire (ProvenBlock.id (e.0)))) _ (e.2) in
    record {
      proven = e.0;
      walk = (round (length reply.steps) p.walk).1;
      bounded = c.1;
      counted = round-Counted (length reply.steps) p.walk (d.1);
      checked = chain_of-ok _ (e.0) (e.1);
      higher = advanced-lt p.anchor (from_wire (ProvenBlock.id (e.0))) (f.1);
      concluded =
          conclude-Concludes now limit target reply.complete (e.0)
            (from_wire (ProvenBlock.id (e.0)))
            (or_kept (last_key_block reply.steps) p.trusted_key_block)
            (round (length reply.steps) p.walk).1 r (f.2);
    }

module _ {S : Type 0} where
  answered-ok :
      (next : PartialBlockProof → Result Error Round)
      (o : Option (Result LiteError PartialBlockProof) × S) (r : Round) (after : S)
      → answered next o ≡ (ok r, after)
      → (reply : PartialBlockProof) × (next reply ≡ ok r)
  unfolding answered within
  answered-ok next (none, s) r after h = absurd (cc h)
  answered-ok next (some (err e), s) r after h = absurd (cc h)
  answered-ok next (some (ok reply), s) r after h = (reply, cc h)

module _ {S : Type 0} (proofs : Proofs) (world : World S) (limit : ℕ) (target : BlockIdExt) where
  ask-Passed :
      (p : Progress) (worth : Result Error (Unit {0})) (s : S) (r : Round) (after : S)
      → ask proofs world limit target p worth s ≡ (ok r, after)
      → (reply : PartialBlockProof) × Passed proofs world.now limit target p reply r
  unfolding ask
  ask-Passed p (err e) s r after h = absurd (cc h)
  ask-Passed p (ok u) s r after h =
      let a =
        answered-ok (judge proofs world.now limit target p) (world.block_proof p.anchor target s) r
          after h in
      (a.0, judge-Passed proofs world.now limit target p (a.0) r (a.1))

  pub sync_round-Passed :
      (p : Progress) (s : S) (r : Round) (after : S)
      → sync_round proofs world limit target p s ≡ (ok r, after)
      → (reply : PartialBlockProof) × Passed proofs world.now limit target p reply r
  unfolding sync_round
  sync_round-Passed p s r after h =
      ask-Passed p (worth_continuing (world.elapsed p.walk.rounds) limit) s r after h
