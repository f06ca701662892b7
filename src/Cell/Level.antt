-- ===== src/Cell/Level.antt =====
-- The level-mask arithmetic of core/src/cell/cell/level.rs.
pub mod Bounds
use ton_net.Base.{
  ℕ, zero, suc, ◌+◌, ◌-◌, ◌*◌, ◌/◌, ◌%◌, ◌^◌, Bool, bit_and, ltb, leb, if◌then◌else◌,
}

-- `leading_zeros` of a word of that many bits.
unfoldable pub leading_zeros : ℕ → ℕ → ℕ
leading_zeros zero x = 0
leading_zeros (suc width) x = if ltb x (2 ^ width) then suc (leading_zeros width x) else 0

-- `count_ones` of a word of that many bits.
unfoldable pub count_ones : ℕ → ℕ → ℕ
count_ones zero x = 0
count_ones (suc width) x = x % 2 + count_ones width (x / 2)

unfoldable pub level_of : ℕ → ℕ
unfolding leading_zeros
level_of mask = (8 - leading_zeros 8 mask) % 256

unfoldable pub applied_mask : ℕ → ℕ → ℕ
applied_mask mask level = if leb 3 level then mask else bit_and mask (2 ^ level - 1)

unfoldable pub hash_index : ℕ → ℕ → ℕ
unfolding applied_mask count_ones
hash_index mask level = count_ones 8 (applied_mask mask level)

-- `as u8` is `% 256`
unfoldable pub bits_descriptor : ℕ → ℕ
bits_descriptor bits = (bits / 8 + (bits + 7) / 8) % 256

-- The sum is one of `u8`s. It stays below 256 for four references and a three-bit mask.
unfoldable pub refs_descriptor : ℕ → Bool → ℕ → ℕ → ℕ
unfolding applied_mask
refs_descriptor refs exotic mask level =
    (refs % 256 + (if exotic then 8 else 0) + 32 * applied_mask mask level) % 256
