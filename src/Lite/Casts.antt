-- ===== src/Lite/Casts.antt =====
-- The casts of a height between its two widths of sign.
use ton_net.Base.{ℕ, ◌<◌, ◌^◌, ◌≡◌, ap, arith}
use ton_net.Base.Int.{ℤ, pos, negsuc, pattern_of, signed_of, FitsSigned}
use ton_net.Proof.Wire
use ton_net.Lite.{BlockIdExt, from_wire, to_wire}

signed_of-pattern_of : (i : ℤ) → FitsSigned 32 i → signed_of 32 (pattern_of 32 i) ≡ i
signed_of-pattern_of (pos n) h = ground arith
signed_of-pattern_of (negsuc n) h = ground arith

pattern_of-signed_of : (n : ℕ) → n < 2 ^ 32 → pattern_of 32 (signed_of 32 n) ≡ n
pattern_of-signed_of n h = ground arith

-- A block of the wire whose height is an `i32` comes back from the domain as itself, and a block
-- of the domain whose height is a `u32` comes back from the wire as itself.
pub to_wire-from_wire :
    (wire : Wire.BlockIdExt) (block : BlockIdExt)
    → FitsSigned 32 wire.seqno
    → block.seqno < 2 ^ 32
    → (to_wire (from_wire wire) ≡ wire) × (from_wire (to_wire block) ≡ block)
unfolding from_wire to_wire
to_wire-from_wire wire block h k = (
  ap (λ i. record wire { seqno = i }) (signed_of-pattern_of wire.seqno h),
  ap (λ n. record block { seqno = n }) (pattern_of-signed_of block.seqno k),
)
