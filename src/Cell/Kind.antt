-- ===== src/Cell/Kind.antt =====
-- The kinds of cells and the bytes that name them (core/src/cell/cell/exotic.rs).
use ton_net.Base.{ℕ, ◌≡◌, Bool, true, false, Option, none, some, ◌==◌, if◌then◌else◌, arith}

pub data CellType : Type 0 where
  ordinary pruned_branch library_reference merkle_proof merkle_update : CellType

unfoldable pub tag : CellType → Option ℕ
tag ordinary = none
tag pruned_branch = some 0x01
tag library_reference = some 0x02
tag merkle_proof = some 0x03
tag merkle_update = some 0x04

unfoldable pub from_tag : ℕ → Option CellType
from_tag t =
    if t == 0x01
    then some pruned_branch
    else if t == 0x02
    then some library_reference
    else if t == 0x03
    then some merkle_proof
    else if t == 0x04
    then some merkle_update
    else none

-- `matches!(self, Self::MerkleProof | Self::MerkleUpdate)`
unfoldable pub is_merkle : CellType → Bool
is_merkle merkle_proof = true
is_merkle merkle_update = true
is_merkle _ = false

-- `self.cell_type != CellType::Ordinary`
unfoldable pub is_exotic : CellType → Bool
is_exotic ordinary = false
is_exotic _ = true

-- `cell_type == CellType::PrunedBranch`
unfoldable pub is_pruned : CellType → Bool
is_pruned pruned_branch = true
is_pruned _ = false

-- A byte names a kind exactly when it is that kind's tag.
pub from_tag-tag : (t : ℕ) (k : CellType) → from_tag t ≡ some k → tag k ≡ some t
unfolding from_tag tag
from_tag-tag t k h = ground arith

pub tag-from_tag : (t : ℕ) (k : CellType) → tag k ≡ some t → from_tag t ≡ some k
unfolding from_tag tag
tag-from_tag t ordinary h = cc
tag-from_tag t _ h = ground arith
