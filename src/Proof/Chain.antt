-- ===== src/Proof/Chain.antt =====
-- Checking a block proof chain: core/src/proof/chain.rs. What a Merkle proof of a block holds
-- (core/src/proof, core/src/tlb), what the validators sign and how a signature is checked
-- (core/src/proof/signature.rs, core/src/tl/signed.rs) come through the interface `Proofs`.
use ton_net.Base.{
  ℕ, ◌≡◌, refl, Bool, true, false, not, ◌||◌, ◌&&◌, Option, none, some, List, [], ◌∷◌, String,
  if◌then◌else◌, ◌==◌,
}
use ton_net.Base.Result.{Result, ok, err, ◌>>=◌, ◌>>◌}
use ton_net.Base.Int.{ℤ, pos, negsuc, eq_ℤ, leb_ℤ, pattern_of}
use ton_net.Base.Compare.{eq_bytes}
use ton_net.Cell.Identity.{Hash}
use ton_net.Proof.Wire.{
  BlockIdExt, eq_block, SignatureSet, ordinary, simplex, signatures, BlockLink, back, forward,
  PartialBlockProof, CandidateBlock, block, BlockError, chain_broken, backward_link,
  not_enough_weight,
}
use ton_net.Proof.Validators.{ValidatorSet, carries}
use ton_net.Proof.Weight.{carried_weight}
pub mod Link
pub mod Route

-- The fields of a block's header that the chain reads.
pub record Header : Type 0 where
  pub seqno : ℕ
  pub workchain : ℤ
  pub shard : ℕ
  pub key_block : Bool
  pub gen_utime : ℕ

pub record ProvenBlock : Type 0 where
  pub id : BlockIdExt
  pub key_block : Bool
  pub gen_utime : ℕ

-- What the checks of a link are made of.
pub record Proofs : Type 0 where
  -- `ValidatorSet::from_config(&covered_block(proof, root_hash)?.config()?)`
  pub config_set : List ℕ → Hash → Result BlockError ValidatorSet
  -- `covered_block(proof, root_hash)?.header()`
  pub header : List ℕ → Hash → Result BlockError Header
  pub block_id_message : Hash → Hash → List ℕ
  pub simplex_message : Hash → ℤ → List ℕ → List ℕ
  -- `CandidateBlock::read_prefix`, none for its error
  pub read_prefix : List ℕ → Option CandidateBlock
  -- key, message, signature
  pub verify : List ℕ → List ℕ → List ℕ → Bool

abbrev pub masterchain : ℤ
masterchain = negsuc 0

abbrev pub masterchain_shard : ℕ
masterchain_shard = 0x8000000000000000

unfoldable pub is_masterchain : BlockIdExt → Bool
is_masterchain id = eq_ℤ id.workchain masterchain && id.shard == masterchain_shard

-- `if refused { return Err(ChainBroken(why)) }`
unfoldable pub refuse : Bool → String → Result BlockError (Unit {0})
refuse refused why = if refused then err (chain_broken why) else ok tt

-- The header that the destination's proof holds, against what the link says of it.
unfoldable pub check_header : Header → BlockIdExt → Bool → Result BlockError (Unit {0})
check_header header to to_key_block =
    refuse
      (not (header.seqno == pattern_of 32 to.seqno)
        || (not (eq_ℤ header.workchain to.workchain) || not (header.shard == to.shard)))
      "has a destination header for a different block"
    >> refuse (if header.key_block then not to_key_block else to_key_block)
        "has a destination that is not the kind of block the link says"

unfoldable pub check_weight : ValidatorSet → ℕ → Result BlockError (Unit {0})
check_weight set carried =
    if carries set carried then ok tt else err (not_enough_weight carried set.total_weight)

-- What is asked of the last block that was proved.
unfoldable pub ends_at : BlockIdExt → Option ProvenBlock → Result BlockError ProvenBlock
ends_at to none = err (chain_broken "has no steps")
ends_at to (some last) =
    refuse (not (eq_block last.id to)) "ends somewhere other than it says" >> ok last

unfoldable pub no_steps : List BlockLink → Bool
no_steps [] = true
no_steps (step ∷ steps) = false

module _ (proofs : Proofs) where
  unfoldable pub signed_candidate :
      Hash → ℤ → List ℕ → BlockIdExt → Option CandidateBlock → Result BlockError (List ℕ)
  signed_candidate session slot candidate to none =
      err (chain_broken "has a signed candidate that cannot be read")
  signed_candidate session slot candidate to (some named) =
      refuse (not (eq_block (block named) to))
        "has signatures for a block other than the one the link claims"
      >> ok (proofs.simplex_message session slot candidate)

  unfoldable pub signed_message : SignatureSet → BlockIdExt → Result BlockError (List ℕ)
  unfolding signed_candidate
  signed_message (ordinary hash seqno sigs) to =
      ok (proofs.block_id_message to.root_hash to.file_hash)
  signed_message (simplex seqno hash sigs session slot candidate) to =
      signed_candidate session slot candidate to (proofs.read_prefix candidate)

  unfoldable pub verify_link : BlockLink → BlockIdExt → Result BlockError ProvenBlock
  verify_link (back to_key_block source to dest_proof proof state_proof) start = err backward_link
  verify_link (forward to_key_block source to dest_proof config_proof sigs) start =
      refuse (not (eq_block source start)) "has a link that does not start where the last one ended"
      >> (refuse (not (is_masterchain source) || not (is_masterchain to))
            "has a link outside the masterchain"
          >> (refuse (leb_ℤ to.seqno source.seqno) "has a forward link that does not move forward"
              >> (proofs.config_set config_proof source.root_hash >>= λ set.
                  (proofs.header dest_proof to.root_hash >>= λ header.
                  (check_header header to to_key_block
                    >> (signed_message sigs to >>= λ message.
                        (carried_weight proofs.verify set (signatures sigs) message >>= λ carried.
                        (check_weight set carried
                          >> ok (record {
                            id = to;
                            key_block = header.key_block;
                            gen_utime = header.gen_utime;
                          })))))))))

  -- The loop over the steps, from the block that the last step proved or else from the anchor.
  unfoldable pub steps_loop :
      BlockIdExt → Option ProvenBlock → List BlockLink → Result BlockError (Option ProvenBlock)
  steps_loop anchor proven [] = ok proven
  steps_loop anchor none (step ∷ steps) =
      verify_link step anchor >>= λ p. steps_loop anchor (some p) steps
  steps_loop anchor (some q) (step ∷ steps) =
      verify_link step q.id >>= λ p. steps_loop anchor (some p) steps

  unfoldable pub verify_chain : BlockIdExt → PartialBlockProof → Result BlockError ProvenBlock
  verify_chain anchor proof =
      refuse (not (eq_block proof.start anchor))
        "starts at a block other than the one it was asked about"
      >> (refuse (no_steps proof.steps) "has no steps"
          >> (steps_loop anchor none proof.steps >>= λ proven. ends_at proof.end proven))
