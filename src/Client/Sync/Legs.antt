-- ===== src/Client/Sync/Legs.antt =====
-- The rounds of a walk that succeeds, one after another.
use mathlib.Core.Path.{subst}
use ton_net.Base.{
  ℕ, suc, ◌+◌, ◌≤◌, ◌<◌, ◌≡◌, sym, ap, ◌∙◌, true, List, length, ltb, Bool-cases, ◌⊎◌, inl, inr,
  arith,
}
use ton_net.Base.Result.{ok}
use ton_net.Proof.Wire.{BlockLink, PartialBlockProof}
use ton_net.Proof.Chain.{Proofs, ProvenBlock}
use ton_net.Proof.Chain.Route.{Route, verify_chain-Route}
use ton_net.Lite.{BlockIdExt, from_wire, to_wire}
use ton_net.Client.Sync.{
  Walk, Progress, onward, arrived, Round, SyncReport, within_bounds, unless, or_kept,
  last_key_block,
}
use ton_net.Client.Sync.Rounds.{Passed, Concludes, IsFresh}
use ton_net.Client.Sync.Kept.{IsKeyBlock, or_kept-IsKeyBlock}

-- One round: a route of accepted links, at most 64 of them, to a block higher than the anchor.
pub record Leg (proofs : Proofs) (start : BlockIdExt) (links : List BlockLink) (p : ProvenBlock)
    : Type 0 where
  pub route : Route proofs (to_wire start) links p
  pub few : length links ≤ 64
  pub higher : start.seqno < (from_wire p.id).seqno

-- Legs one after another, each but the last ending at a key block, with the number of links that
-- they have between them and the number of legs.
pub data Walked (proofs : Proofs) : BlockIdExt → ℕ → ℕ → ProvenBlock → Type 0 where
  there :
      (start : BlockIdExt) (links : List BlockLink) (p : ProvenBlock)
      → Leg proofs start links p
      → Walked proofs start (length links) 1 p
  leg :
      (start : BlockIdExt) (links : List BlockLink) (q p : ProvenBlock) (more rounds : ℕ)
      → Leg proofs start links q
      → q.key_block ≡ true
      → Walked proofs (from_wire q.id) more rounds p
      → Walked proofs start (length links + more) (suc rounds) p

-- What a loop that succeeds has done since `p`.
pub record Comes (proofs : Proofs) (now limit : ℕ) (target : BlockIdExt) (p : Progress)
    (kept : BlockIdExt) (report : SyncReport) : Type 0 where
  pub proven : ProvenBlock
  pub links : ℕ
  pub rounds : ℕ
  pub walked : Walked proofs p.anchor links rounds proven
  pub at_target : from_wire proven.id ≡ target
  pub head : report.head ≡ target
  pub fresh : IsFresh now proven.gen_utime limit
  pub all_links : report.links ≡ p.walk.links + links
  pub all_rounds : report.rounds ≡ p.walk.rounds + rounds
  pub links_bound : report.links ≤ 4096
  pub rounds_bound : report.rounds ≤ 512
  pub keeps : (kept ≡ p.trusted_key_block) ⊎ IsKeyBlock proofs kept

within_bounds-few :
    (reply : PartialBlockProof) → within_bounds reply ≡ ok tt → length reply.steps ≤ 64
unfolding within_bounds unless
within_bounds-few reply h = elim (Bool-cases (ltb 64 (length reply.steps))) [
  | inl many ↦ absurd (cc (rw (many) at h))
  | inr few ↦ ground arith
]

module _ (proofs : Proofs) (now limit : ℕ) (target : BlockIdExt) where
  Passed-Leg :
      (p : Progress) (reply : PartialBlockProof) (r : Round)
      (s : Passed proofs now limit target p reply r)
      → Leg proofs p.anchor reply.steps s.proven
  Passed-Leg p reply r s = record {
    route = (verify_chain-Route proofs (to_wire p.anchor) reply s.proven s.checked).1.0;
    few = within_bounds-few reply s.bounded;
    higher = s.higher;
  }

  keeps_trans :
      (a b c : BlockIdExt)
      → (a ≡ b) ⊎ IsKeyBlock proofs a
      → (b ≡ c) ⊎ IsKeyBlock proofs b
      → (a ≡ c) ⊎ IsKeyBlock proofs a
  keeps_trans a b c (inr key) k = inr key
  keeps_trans a b c (inl e) (inl f) = inl (e ∙ f)
  keeps_trans a b c (inl e) (inr key) = inr (subst (IsKeyBlock proofs) (sym e) key)

  Passed-keeps :
      (p : Progress) (reply : PartialBlockProof) (r : Round)
      (s : Passed proofs now limit target p reply r)
      → (or_kept (last_key_block reply.steps) p.trusted_key_block ≡ p.trusted_key_block)
        ⊎ IsKeyBlock proofs (or_kept (last_key_block reply.steps) p.trusted_key_block)
  Passed-keeps p reply r s =
      or_kept-IsKeyBlock proofs reply.steps (to_wire p.anchor) s.proven p.trusted_key_block
        (Leg.route (Passed-Leg p reply r s))

  pub last_leg :
      (p : Progress) (reply : PartialBlockProof) (kept : BlockIdExt) (report : SyncReport)
      → Passed proofs now limit target p reply (arrived kept report)
      → Comes proofs now limit target p kept report
  unfolding Concludes
  last_leg p reply kept report s =
      let a = s.concluded in
      let n : report.links ≡ Walk.links s.walk = ap (λ (r : SyncReport). r.links) a.reports in
      let m : report.rounds ≡ Walk.rounds s.walk = ap (λ (r : SyncReport). r.rounds) a.reports in
      let counted = s.counted in
      record {
        proven = s.proven;
        links = length reply.steps;
        rounds = 1;
        walked = there p.anchor reply.steps s.proven (Passed-Leg p reply _ s);
        at_target = a.at_target;
        head = ap (λ (r : SyncReport). r.head) a.reports ∙ a.at_target;
        fresh = a.fresh;
        all_links = n ∙ counted.links;
        all_rounds = omega (arith, m, counted.rounds);
        links_bound = omega (arith, n, counted.links_left);
        rounds_bound = omega (arith, m, counted.rounds_left);
        keeps = keeps_trans kept _ p.trusted_key_block (inl a.keeps) (Passed-keeps p reply _ s);
      }

  pub one_leg :
      (p q : Progress) (reply : PartialBlockProof) (kept : BlockIdExt) (report : SyncReport)
      → Passed proofs now limit target p reply (onward q)
      → Comes proofs now limit target q kept report
      → Comes proofs now limit target p kept report
  unfolding Concludes
  one_leg p q reply kept report s r =
      let g = s.concluded in
      let counted = s.counted in
      let walk : q.walk ≡ s.walk = ap (λ (x : Progress). x.walk) g.next in
      let n : q.walk.links ≡ Walk.links s.walk = ap (λ (w : Walk). w.links) walk in
      let m : q.walk.rounds ≡ Walk.rounds s.walk = ap (λ (w : Walk). w.rounds) walk in
      let at : q.anchor ≡ from_wire (ProvenBlock.id s.proven) =
        ap (λ (x : Progress). x.anchor) g.next in
      let kept_by = ap (λ (x : Progress). x.trusted_key_block) g.next in
      record {
        proven = r.proven;
        links = length reply.steps + r.links;
        rounds = suc r.rounds;
        walked =
            leg p.anchor reply.steps s.proven r.proven r.links r.rounds (Passed-Leg p reply _ s)
              g.key_block (subst (λ b. Walked proofs b r.links r.rounds r.proven) at r.walked);
        at_target = r.at_target;
        head = r.head;
        fresh = r.fresh;
        all_links = omega (arith, r.all_links, n, counted.links);
        all_rounds = omega (arith, r.all_rounds, m, counted.rounds);
        links_bound = r.links_bound;
        rounds_bound = r.rounds_bound;
        keeps = keeps_trans kept q.trusted_key_block p.trusted_key_block r.keeps (
            keeps_trans q.trusted_key_block _ p.trusted_key_block (inl kept_by)
              (Passed-keeps p reply _ s));
      }
