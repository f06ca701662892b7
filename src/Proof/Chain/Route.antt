-- ===== src/Proof/Chain/Route.antt =====
-- What a chain that is accepted has established: an unbroken route of accepted links.
use mathlib.Core.Path.{subst}
use ton_net.Base.{◌≡◌, sym, true, false, not, Option, none, some, List, [], ◌∷◌, arith}
use ton_net.Base.Result.{Result, ok, >>=-eq-ok}
use ton_net.Base.Int.{ℤ, ltb_ℤ, leb_ℤ}
use ton_net.Proof.Wire.{BlockIdExt, eq_block, eq_block→eq, BlockLink, PartialBlockProof, BlockError}
use ton_net.Proof.Chain.{
  ProvenBlock, Proofs, verify_link, steps_loop, ends_at, no_steps, verify_chain,
}
use ton_net.Proof.Chain.Link.{Leads, refuse-ok, not-false, verify_link-Leads}

-- Accepted links, each from the block that the one before it proved.
pub data Route (proofs : Proofs) : BlockIdExt → List BlockLink → ProvenBlock → Type 0 where
  last :
      (link : BlockLink) (start : BlockIdExt) (p : ProvenBlock)
      → Leads proofs link start p
      → Route proofs start (link ∷ []) p
  step :
      (link : BlockLink) (links : List BlockLink) (start : BlockIdExt) (q p : ProvenBlock)
      → Leads proofs link start q
      → Route proofs q.id links p
      → Route proofs start (link ∷ links) p

ltb_ℤ-trans : (a b c : ℤ) → ltb_ℤ a b ≡ true → ltb_ℤ b c ≡ true → ltb_ℤ a c ≡ true
ltb_ℤ-trans a b c h k = ground arith

not-leb_ℤ : (a b : ℤ) → leb_ℤ b a ≡ false → ltb_ℤ a b ≡ true
not-leb_ℤ a b h = ground arith

Leads-higher :
    (proofs : Proofs) (link : BlockLink) (start : BlockIdExt) (p : ProvenBlock)
    → Leads proofs link start p
    → ltb_ℤ start.seqno p.id.seqno ≡ true
Leads-higher proofs link start p l =
    subst (λ q. ltb_ℤ start.seqno q.id.seqno ≡ true) (sym l.result)
      (not-leb_ℤ start.seqno l.to.seqno l.higher)

-- A route only rises.
Route-higher :
    {proofs : Proofs} {start : BlockIdExt} {links : List BlockLink} {p : ProvenBlock}
    → Route proofs start links p
    → ltb_ℤ start.seqno p.id.seqno ≡ true
Route-higher {proofs} (last link start p l) = Leads-higher proofs link start p l
Route-higher {proofs} (step link more start q p l r) =
    ltb_ℤ-trans start.seqno q.id.seqno p.id.seqno (Leads-higher proofs link start q l)
      (Route-higher r)

returned_last : (q p : ProvenBlock) → ◌≡◌ {A = Result BlockError ProvenBlock} (ok q) (ok p) → q ≡ p
returned_last q p h = cc

ended : (p q : ProvenBlock) (to : BlockIdExt) → ends_at to (some q) ≡ ok p → (q ≡ p) × (p.id ≡ to)
unfolding ends_at
ended p q to h =
    let a = refuse-ok (not (eq_block q.id to)) _ _ p h in
    let same = returned_last q p (a.1) in
    (same, subst (λ r. r.id ≡ to) same (eq_block→eq q.id to (not-false (eq_block q.id to) (a.0))))

module _ (proofs : Proofs) where
  -- The last block of a run that starts after `q`.
  Continues : ProvenBlock → List BlockLink → ProvenBlock → Type 0
  Continues q [] p = q ≡ p
  Continues q (link ∷ links) p = Route proofs q.id (link ∷ links) p

  join :
      (link : BlockLink) (links : List BlockLink) (start : BlockIdExt) (q p : ProvenBlock)
      → Leads proofs link start q
      → Continues q links p
      → Route proofs start (link ∷ links) p
  unfolding Continues
  join link [] start q p l c = last link start p (subst (Leads proofs link start) c l)
  join link (next ∷ links) start q p l c = step link (next ∷ links) start q p l c

  continued :
      (anchor : BlockIdExt) (q p : ProvenBlock) (links : List BlockLink)
      → steps_loop proofs anchor (some q) links ≡ ok (some p)
      → Continues q links p
  unfolding steps_loop Continues
  continued anchor q p [] h = cc h
  continued anchor q p (link ∷ links) h =
      let e = >>=-eq-ok (verify_link proofs link q.id) _ h in
      join link links q.id (e.0) p (verify_link-Leads proofs link q.id (e.0) (e.1))
        (continued anchor (e.0) p links (e.2))

  started :
      (anchor : BlockIdExt) (p : ProvenBlock) (links : List BlockLink)
      → steps_loop proofs anchor none links ≡ ok (some p)
      → Route proofs anchor links p
  unfolding steps_loop
  started anchor p [] h = absurd (cc h)
  started anchor p (link ∷ links) h =
      let e = >>=-eq-ok (verify_link proofs link anchor) _ h in
      join link links anchor (e.0) p (verify_link-Leads proofs link anchor (e.0) (e.1))
        (continued anchor (e.0) p links (e.2))

  finished :
      (anchor to : BlockIdExt) (p : ProvenBlock) (links : List BlockLink)
      (proven : Option ProvenBlock)
      → steps_loop proofs anchor none links ≡ ok proven
      → ends_at to proven ≡ ok p
      → Route proofs anchor links p × (p.id ≡ to)
  unfolding ends_at
  finished anchor to p links none h k = absurd (cc k)
  finished anchor to p links (some q) h k =
      let e = ended p q to k in
      (subst (Route proofs anchor links) (e.0) (started anchor q links h), e.1)

  -- A chain that `verify_chain` accepts starts at the anchor, is an unbroken route of links,
  -- each of which leads from the block that the last one proved, ends at the block that it
  -- says, and has proved a block that is higher than the anchor.
  pub verify_chain-Route :
      (anchor : BlockIdExt) (proof : PartialBlockProof) (p : ProvenBlock)
      → verify_chain proofs anchor proof ≡ ok p
      → (proof.start ≡ anchor)
        × (Route proofs anchor proof.steps p
            × ((p.id ≡ proof.end) × (ltb_ℤ anchor.seqno p.id.seqno ≡ true)))
  unfolding verify_chain
  verify_chain-Route anchor proof p h =
      let a = refuse-ok (not (eq_block proof.start anchor)) _ _ p h in
      let b = refuse-ok (no_steps proof.steps) _ _ p (a.1) in
      let c = >>=-eq-ok (steps_loop proofs anchor none proof.steps) _ (b.1) in
      let r = finished anchor proof.end p proof.steps (c.0) (c.1) (c.2) in
      (
        eq_block→eq proof.start anchor (not-false (eq_block proof.start anchor) (a.0)),
        (r.0, (r.1, Route-higher (r.0))),
      )
