-- ===== src/Lite.antt =====
-- The domain types of core/src/lite/types.rs that a walk handles, and their casts from and to the
-- wire types of core/src/tl/lite.rs. A block's height is a `u32` here and an `i32` on the wire.
use ton_net.Base.{ℕ, Bool, ◌&&◌, ◌==◌, ◌≡◌, true, arith}
use ton_net.Base.Int.{ℤ, eq_ℤ, pattern_of, signed_of}
use ton_net.Base.Compare.{eq_bytes, eq_bytes→eq}
use ton_net.Cell.Identity.{Hash}
use ton_net.Proof.Wire
use ton_net.Proof.Wire.{eq_ℤ→eq}
pub mod Casts
pub mod Session

pub record BlockIdExt : Type 0 where
  pub workchain : ℤ
  pub shard : ℕ
  pub seqno : ℕ
  pub root_hash : Hash
  pub file_hash : Hash

-- The derived `PartialEq`.
unfoldable pub eq_block : BlockIdExt → BlockIdExt → Bool
eq_block a b =
    eq_ℤ a.workchain b.workchain
    && (a.shard == b.shard
        && (a.seqno == b.seqno
            && (eq_bytes a.root_hash b.root_hash && eq_bytes a.file_hash b.file_hash)))

-- `wire.seqno as u32`
unfoldable pub from_wire : Wire.BlockIdExt → BlockIdExt
from_wire wire = record {
  workchain = wire.workchain;
  shard = wire.shard;
  seqno = pattern_of 32 wire.seqno;
  root_hash = wire.root_hash;
  file_hash = wire.file_hash;
}

-- `block.seqno as i32`
unfoldable pub to_wire : BlockIdExt → Wire.BlockIdExt
to_wire block = record {
  workchain = block.workchain;
  shard = block.shard;
  seqno = signed_of 32 block.seqno;
  root_hash = block.root_hash;
  file_hash = block.file_hash;
}

pub record MasterchainInfo : Type 0 where
  pub last : BlockIdExt
  pub state_root_hash : Hash

pub eq_block→eq : (a b : BlockIdExt) → eq_block a b ≡ true → a ≡ b
unfolding eq_block
eq_block→eq a b h = ground (
  arith,
  eq_ℤ→eq a.workchain b.workchain,
  eq_bytes→eq a.root_hash b.root_hash,
  eq_bytes→eq a.file_hash b.file_hash,
)
