-- ===== src/Client/Sync/Kept.antt =====
-- The block that a walk keeps as its anchor.
use ton_net.Base.{
  ◌≡◌, refl, ◌∙◌, sym, ap, Bool, true, false, some, List, ◌∷◌, ◌⊎◌, inl, inr, Option-cases,
}
use ton_net.Proof.Wire
use ton_net.Proof.Wire.{BlockLink, forward, back, SignatureSet}
use ton_net.Proof.Chain.{Proofs, ProvenBlock}
use ton_net.Proof.Chain.Link.{Leads}
use ton_net.Proof.Chain.Route.{Route, last, step}
use ton_net.Lite.{BlockIdExt, from_wire}
use ton_net.Client.Sync.{key_block_of, last_key_block, or_kept}

-- A block that an accepted link proved to be a key block.
pub record IsKeyBlock (proofs : Proofs) (block : BlockIdExt) : Type 0 where
  pub link : BlockLink
  pub source : Wire.BlockIdExt
  pub proven : ProvenBlock
  pub leads : Leads proofs link source proven
  pub key_block : proven.key_block ≡ true
  pub names : from_wire proven.id ≡ block

named_key_block :
    (key : Bool) (source to : Wire.BlockIdExt) (dest_proof config_proof : List _)
    (sigs : SignatureSet) (block : BlockIdExt)
    → key_block_of (forward key source to dest_proof config_proof sigs) ≡ some block
    → (key ≡ true) × (from_wire to ≡ block)
unfolding key_block_of
named_key_block true source to dest_proof config_proof sigs block h = (refl, cc h)
named_key_block false source to dest_proof config_proof sigs block h = absurd (cc h)

module _ (proofs : Proofs) where
  link-IsKeyBlock :
      (link : BlockLink) (source : Wire.BlockIdExt) (p : ProvenBlock) (block : BlockIdExt)
      → Leads proofs link source p
      → key_block_of link ≡ some block
      → IsKeyBlock proofs block
  link-IsKeyBlock link source p block l h =
      let (is_key, names) =
        named_key_block l.key source l.to l.dest_proof l.config_proof l.sigs block
          (ap key_block_of (sym l.is_forward) ∙ h) in
      record {
        link = link;
        source = source;
        proven = p;
        leads = l;
        key_block = ap (λ (q : ProvenBlock). q.key_block) l.result ∙ is_key;
        names = ap (λ (q : ProvenBlock). from_wire q.id) l.result ∙ names;
      }

  last_of :
      (link : BlockLink) (links : List BlockLink) (block : BlockIdExt)
      → last_key_block (link ∷ links) ≡ some block
      → (last_key_block links ≡ some block) ⊎ (key_block_of link ≡ some block)
  unfolding last_key_block
  last_of link links block h = elim (Option-cases (last_key_block links)) [
    | inl e ↦ inr (rw (e, last_key_block) at h)
    | inr (b, e) ↦ inl (e ∙ (rw (e, last_key_block) at h))
  ]

  Route-IsKeyBlock :
      {links : List BlockLink} {source : Wire.BlockIdExt} {p : ProvenBlock} (block : BlockIdExt)
      → Route proofs source links p
      → last_key_block links ≡ some block
      → IsKeyBlock proofs block
  unfolding last_key_block
  Route-IsKeyBlock block (last link source p l) h = link-IsKeyBlock link source p block l h
  Route-IsKeyBlock block (step link links source q p l r) h = elim (last_of link links block h) [
    | inl later ↦ Route-IsKeyBlock block r later
    | inr here ↦ link-IsKeyBlock link source q block l here
  ]

  -- What a round keeps is what was kept before it, or a key block that its route proved.
  pub or_kept-IsKeyBlock :
      (links : List BlockLink) (source : Wire.BlockIdExt) (p : ProvenBlock) (before : BlockIdExt)
      → Route proofs source links p
      → (or_kept (last_key_block links) before ≡ before)
        ⊎ IsKeyBlock proofs (or_kept (last_key_block links) before)
  unfolding or_kept
  or_kept-IsKeyBlock links source p before r = elim (Option-cases (last_key_block links)) [
    | inl e ↦ inl (rw e)
    | inr (block, e) ↦ inr (rw e (Route-IsKeyBlock block r e))
  ]
