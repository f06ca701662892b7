-- ===== src/Base/Int.antt =====
-- Signed integers over the native numbers, with the orders and the casts that the source uses.
use Prim.Native.Nat.{ℕ, suc, ◌+◌, ◌-◌, ◌^◌, ◌<◌}
use mathlib.Core.Bool.{Bool}
use ton_net.Base.Tests.{ltb, leb, ◌==◌, if◌then◌else◌}

-- `negsuc n` is -(n + 1).
pub data ℤ : Type 0 where
  pos : ℕ → ℤ
  negsuc : ℕ → ℤ

abbrev pub pos_part : ℤ → ℕ
pos_part (pos n) = n
pos_part (negsuc n) = 0

abbrev pub neg_part : ℤ → ℕ
neg_part (pos n) = 0
neg_part (negsuc n) = suc n

abbrev pub ltb_ℤ : ℤ → ℤ → Bool
ltb_ℤ a b = ltb (pos_part a + neg_part b) (pos_part b + neg_part a)

abbrev pub leb_ℤ : ℤ → ℤ → Bool
leb_ℤ a b = leb (pos_part a + neg_part b) (pos_part b + neg_part a)

abbrev pub eq_ℤ : ℤ → ℤ → Bool
eq_ℤ a b = pos_part a + neg_part b == pos_part b + neg_part a

-- -n
abbrev pub neg_of : ℕ → ℤ
neg_of n = if n == 0 then pos 0 else negsuc (n - 1)

-- The two's-complement pattern of an integer in a word of that many bits.
abbrev pub pattern_of : ℕ → ℤ → ℕ
pattern_of width (pos n) = n
pattern_of width (negsuc n) = 2 ^ width - 1 - n

-- The integer that a pattern of that many bits stands for.
abbrev pub signed_of : ℕ → ℕ → ℤ
signed_of width w = if ltb w (2 ^ (width - 1)) then pos w else negsuc (2 ^ width - 1 - w)

-- `-2^(n-1) ≤ i < 2^(n-1)`
abbrev pub FitsSigned : ℕ → ℤ → Type 0
FitsSigned width (pos n) = n < 2 ^ (width - 1)
FitsSigned width (negsuc n) = n < 2 ^ (width - 1)
