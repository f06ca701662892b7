-- ===== src/Proof/Wire.antt =====
-- The wire types that a proof chain is made of (core/src/tl/lite.rs, core/src/tl/signed.rs), and
-- the errors of the verifiers (core/src/tlb/error.rs). Byte strings are lists of bytes.
use ton_net.Base.{ℕ, List, Bool, ◌&&◌, String, ◌≡◌, true, ◌==◌, arith}
use ton_net.Base.Int.{ℤ, eq_ℤ}
use ton_net.Base.Compare.{eq_bytes, eq_bytes→eq, eq_bytes_refl}
use ton_net.Cell.Error.{CellError}
use ton_net.Cell.Identity.{Hash}

pub record BlockIdExt : Type 0 where
  pub workchain : ℤ
  pub shard : ℕ
  pub seqno : ℤ
  pub root_hash : Hash
  pub file_hash : Hash

-- The derived `PartialEq`.
unfoldable pub eq_block : BlockIdExt → BlockIdExt → Bool
eq_block a b =
    eq_ℤ a.workchain b.workchain
    && (a.shard == b.shard
        && (eq_ℤ a.seqno b.seqno
            && (eq_bytes a.root_hash b.root_hash && eq_bytes a.file_hash b.file_hash)))

pub record Signature : Type 0 where
  pub node_id_short : Hash
  pub signature : List ℕ

pub data SignatureSet : Type 0 where
  -- validator_set_hash, catchain_seqno, signatures
  ordinary : ℤ → ℤ → List Signature → SignatureSet
  -- cc_seqno, validator_set_hash, signatures, session_id, slot, candidate
  simplex : ℤ → ℤ → List Signature → Hash → ℤ → List ℕ → SignatureSet

unfoldable pub signatures : SignatureSet → List Signature
signatures (ordinary hash seqno sigs) = sigs
signatures (simplex seqno hash sigs session slot candidate) = sigs

pub data BlockLink : Type 0 where
  -- to_key_block, from, to, dest_proof, proof, state_proof
  back : Bool → BlockIdExt → BlockIdExt → List ℕ → List ℕ → List ℕ → BlockLink
  -- to_key_block, from, to, dest_proof, config_proof, signatures
  forward : Bool → BlockIdExt → BlockIdExt → List ℕ → List ℕ → SignatureSet → BlockLink

pub record PartialBlockProof : Type 0 where
  pub complete : Bool
  pub start : BlockIdExt
  pub end : BlockIdExt
  pub steps : List BlockLink

pub data CandidateBlock : Type 0 where
  ordinary_candidate empty_candidate : BlockIdExt → CandidateBlock

unfoldable pub block : CandidateBlock → BlockIdExt
block (ordinary_candidate id) = id
block (empty_candidate id) = id

pub data BlockError : Type 0 where
  cell : CellError → BlockError
  wrong_constructor malformed chain_broken : String → BlockError
  not_a_merkle_proof proof_not_anchored proof_inconsistent not_covered not_a_key_block not_bound :
      BlockError
  backward_link : BlockError
  -- carried and total
  not_enough_weight : ℕ → ℕ → BlockError

pub eq_ℤ→eq : (a b : ℤ) → eq_ℤ a b ≡ true → a ≡ b
eq_ℤ→eq a b h = ground arith

pub eq_block→eq : (a b : BlockIdExt) → eq_block a b ≡ true → a ≡ b
unfolding eq_block
eq_block→eq a b h = ground (
  arith,
  eq_ℤ→eq a.workchain b.workchain,
  eq_ℤ→eq a.seqno b.seqno,
  eq_bytes→eq a.root_hash b.root_hash,
  eq_bytes→eq a.file_hash b.file_hash,
)

pub eq_ℤ_refl : (a : ℤ) → eq_ℤ a a ≡ true
eq_ℤ_refl a = ground arith

pub eq_block_refl : (a : BlockIdExt) → eq_block a a ≡ true
unfolding eq_block
eq_block_refl a = ground (
  arith,
  eq_ℤ_refl a.workchain,
  eq_ℤ_refl a.seqno,
  eq_bytes_refl a.root_hash,
  eq_bytes_refl a.file_hash,
)
