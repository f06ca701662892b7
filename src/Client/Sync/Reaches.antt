-- ===== src/Client/Sync/Reaches.antt =====
-- Where a walk that succeeds has come to.
use mathlib.Core.Path.{subst}
use ton_net.Base.{
  ℕ, zero, suc, ◌≤◌, ◌<◌, ◌≡◌, refl, sym, ap, false, Option, none, some, leb, Bool-cases, ◌⊎◌, inl,
  inr, arith,
}
use ton_net.Base.Result.{Result, ok, err}
use ton_net.Proof.Chain.{Proofs, ProvenBlock}
use ton_net.Lite.{BlockIdExt, from_wire, MasterchainInfo}
use ton_net.Client.Error.{Error}
use ton_net.Client.Sync.{
  Client, sync, sync_from, sync_towards, masterchain_info, start_of, settle, enough_rounds, set_out,
  World, Progress, Round, onward, arrived, SyncReport, sync_round, sync_loop, proceed,
}
use ton_net.Client.Sync.Rounds.{sync_round-Passed, IsFresh}
use ton_net.Client.Sync.Kept.{IsKeyBlock}
use ton_net.Client.Sync.Legs.{Walked, Comes, last_leg, one_leg}

-- A `sync` of `c` that reported `report` and left the client `d`.
pub record Reached {S : Type 0} (proofs : Proofs) (world : World S) (c d : Client S)
    (report : SyncReport) : Type 0 where
  pub start : BlockIdExt
  pub info : MasterchainInfo
  pub starts : start_of c.anchor c.init_block ≡ ok start
  pub named : (masterchain_info world c.lite).0 ≡ ok info
  pub ahead : start.seqno < BlockIdExt.seqno info.last
  pub proven : ProvenBlock
  pub walked : Walked proofs start report.links report.rounds proven
  pub at_target : from_wire proven.id ≡ info.last
  pub head : report.head ≡ info.last
  pub fresh : IsFresh world.now proven.gen_utime c.max_head_age
  pub links : report.links ≤ 4096
  pub rounds : report.rounds ≤ 512
  pub kept : BlockIdExt
  pub anchor : d.anchor ≡ some kept
  pub keeps : (kept ≡ start) ⊎ IsKeyBlock proofs kept

same_end :
    {S : Type 0} (a b : BlockIdExt) (r s : SyncReport) (x y : S)
    → ◌≡◌ {A = Option (Result Error (BlockIdExt × SyncReport) × S)}
        (some (ok (a, r), x))
        (some (ok (b, s), y))
    → (a ≡ b) × (r ≡ s)
same_end a b r s x y h = (cc, cc)

module _ {S : Type 0} (proofs : Proofs) (world : World S) (limit : ℕ) (target : BlockIdExt) where
  followed :
      (p : Progress) (fuel : ℕ) (s : S) (o : Result Error Round × S) (kept : BlockIdExt)
      (report : SyncReport) (after : S)
      → sync_round proofs world limit target p s ≡ o
      → ((q : Progress)
          → (t : S) → sync_loop proofs world limit target fuel q t ≡ some (ok (kept, report), after)
          → Comes proofs world.now limit target q kept report)
      → proceed (sync_loop proofs world limit target fuel) o ≡ some (ok (kept, report), after)
      → Comes proofs world.now limit target p kept report
  unfolding proceed
  followed p fuel s (err e, t) kept report after h rec k = absurd (cc k)
  followed p fuel s (ok (onward q), t) kept report after h rec k =
      let (reply, passed) = sync_round-Passed proofs world limit target p s (onward q) t h in
      one_leg proofs world.now limit target p q reply kept report passed (rec q t k)
  followed p fuel s (ok (arrived at named), t) kept report after h rec k =
      let (reply, passed) =
        sync_round-Passed proofs world limit target p s (arrived at named) t h in
      let (same_block, same_report) = same_end at kept named report t after k in
      subst (λ r. Comes proofs world.now limit target p kept r) same_report
        (subst (λ b. Comes proofs world.now limit target p b named) same_block
          (last_leg proofs world.now limit target p reply at named passed))

  sync_loop-Comes :
      (fuel : ℕ) (p : Progress) (s : S) (kept : BlockIdExt) (report : SyncReport) (after : S)
      → sync_loop proofs world limit target fuel p s ≡ some (ok (kept, report), after)
      → Comes proofs world.now limit target p kept report
  unfolding sync_loop
  sync_loop-Comes zero p s kept report after h = absurd (cc h)
  sync_loop-Comes (suc fuel) p s kept report after h =
      followed p fuel s (sync_round proofs world limit target p s) kept report after refl
        (λ q t k. sync_loop-Comes fuel q t kept report after k) h

module _ {S : Type 0} where
  settle-ok :
      (c d : Client S) (o : Option (Result Error (BlockIdExt × SyncReport) × S))
      (report : SyncReport)
      → settle c o ≡ some (ok report, d)
      → (kept : BlockIdExt) × (after : S) × (o ≡ some (ok (kept, report), after))
        × (d.anchor ≡ some kept)
  unfolding settle
  settle-ok c d none report h = absurd (cc h)
  settle-ok c d (some (err e, s)) report h = absurd (cc h)
  settle-ok c d (some (ok (kept, r), s)) report h =
      let same : record c { lite = s; anchor = some kept } ≡ d = cc h in
      (kept, s, cc h, ap (λ (x : Client S). x.anchor) (sym same))

not_behind : (m n : ℕ) → leb n m ≡ false → m < n
not_behind m n h = ground arith

module _ {S : Type 0} (proofs : Proofs) (world : World S) where
  sync_towards-Reached :
      (start : BlockIdExt) (c d : Client S) (first : Result Error MasterchainInfo × S)
      (report : SyncReport)
      → start_of c.anchor c.init_block ≡ ok start
      → masterchain_info world c.lite ≡ first
      → sync_towards proofs world start c first ≡ some (ok report, d)
      → Reached proofs world c d report
  unfolding sync_towards
  sync_towards-Reached start c d (err e, s) report from named h = absurd (cc h)
  sync_towards-Reached start c d (ok info, s) report from named h =
      elim (Bool-cases (leb (BlockIdExt.seqno info.last) start.seqno)) [
        | inl behind ↦ absurd (cc (rw (behind) at h))
        | inr ahead ↦
            let (kept, after, walked, anchor) =
              settle-ok c d
                (sync_loop proofs world c.max_head_age info.last enough_rounds (set_out start) s)
                report (rw (ahead) at h) in
            let comes =
              sync_loop-Comes proofs world c.max_head_age info.last enough_rounds (set_out start) s
                kept report after walked in
            let links : comes.links ≡ report.links = omega (arith, comes.all_links) in
            let rounds : comes.rounds ≡ report.rounds = omega (arith, comes.all_rounds) in
            record {
              start = start;
              info = info;
              starts = from;
              named = ap (λ (x : Result Error MasterchainInfo × S). x.0) named;
              ahead = not_behind start.seqno (BlockIdExt.seqno info.last) ahead;
              proven = comes.proven;
              walked =
                  subst (λ n. Walked proofs start n report.rounds comes.proven) links
                    (subst (λ n. Walked proofs start comes.links n comes.proven) rounds
                      comes.walked);
              at_target = comes.at_target;
              head = comes.head;
              fresh = comes.fresh;
              links = comes.links_bound;
              rounds = comes.rounds_bound;
              kept = kept;
              anchor = anchor;
              keeps = comes.keeps;
            }
      ]

  sync_from-Reached :
      (from : Result Error BlockIdExt) (c d : Client S) (report : SyncReport)
      → start_of c.anchor c.init_block ≡ from
      → sync_from proofs world from c ≡ some (ok report, d)
      → Reached proofs world c d report
  unfolding sync_from
  sync_from-Reached (err e) c d report from h = absurd (cc h)
  sync_from-Reached (ok start) c d report from h =
      sync_towards-Reached start c d (masterchain_info world c.lite) report from refl h

  -- A `sync` that succeeds has come from the block that the client trusts to the head that the
  -- server named, a higher block, in rounds that each were a route of at most 64 accepted links to
  -- a higher block, a key block in all rounds but the last. It reports that head, the number of
  -- the links, which is at most 4096, and of the rounds, at most 512. The head is stamped at most
  -- 300 seconds ahead of the clock and is no older than the client's bound. The client's anchor is
  -- then the block that it started from, or one that an accepted link proved to be a key block.
  pub sync-Reached :
      (c d : Client S) (report : SyncReport)
      → sync proofs world c ≡ some (ok report, d)
      → Reached proofs world c d report
  unfolding sync
  sync-Reached c d report h = sync_from-Reached (start_of c.anchor c.init_block) c d report refl h
