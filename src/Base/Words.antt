-- ===== src/Base/Words.antt =====
-- Numbers and their bits, most significant first, at every width.
use Prim.Native.Nat.{ℕ, zero, suc, ◌+◌, ◌*◌, ◌/◌, ◌%◌, ◌^◌, ◌≤◌, ◌<◌, bit_or}
use mathlib.Core.Path.{◌≡◌, refl, ap, ◌∙◌}
use mathlib.Core.Bool.{Bool, true, false}
use mathlib.Core.List.{List, [], ◌∷◌}
use native.Mathlib.Omega.{arith}
use native.Mathlib.Nat.{
  pow-suc, one-le-pow, div-add-mod, div-div-eq-div-mul, mod-eq_of_lt, pow-le-pow_right,
}
use ton_net.Base.Lists.{length}
use ton_net.Base.Bits.{bit_test, bit_value, bit_and-one, bit_or_shifted}

-- The number that bits spell, read behind `acc`.
unfoldable pub word_from : ℕ → List Bool → ℕ
word_from acc [] = acc
word_from acc (b ∷ bs) = word_from (acc * 2 + bit_value b) bs

-- The low `n` bits of a number.
unfoldable pub bits_of_word : ℕ → ℕ → List Bool
bits_of_word zero value = []
bits_of_word (suc n) value = bit_test value n ∷ bits_of_word n value

pub length-bits_of_word : (n value : ℕ) → length (bits_of_word n value) ≡ n
unfolding bits_of_word
length-bits_of_word zero value = refl
length-bits_of_word (suc n) value = ap suc (length-bits_of_word n value)

pub bit_value-bit_test : (value n : ℕ) → bit_value (bit_test value n) ≡ value / 2 ^ n % 2
bit_value-bit_test value n = ground (arith, bit_and-one (value / 2 ^ n))

split_top : (value p : ℕ) → 0 < p → value % (p * 2) ≡ value / p % 2 * p + value % p
split_top value p h = omega (
  arith,
  div-add-mod value (p * 2),
  div-add-mod value p,
  div-div-eq-div-mul value p 2,
  ap (λ (t : ℕ). p * t) (div-add-mod (value / p) 2),
  ap (λ (t : ℕ). p * 2 * t) (div-div-eq-div-mul value p 2),
)

pub mod_top_bit : (n value : ℕ) → value % 2 ^ suc n ≡ value / 2 ^ n % 2 * 2 ^ n + value % 2 ^ n
mod_top_bit n value =
    ap (λ (t : ℕ). value % t) (pow-suc 2 n) ∙ split_top value (2 ^ n) (one-le-pow n 2 (omega arith))

pub word_from-bits_of_word :
    (n acc value : ℕ) → word_from acc (bits_of_word n value) ≡ acc * 2 ^ n + value % 2 ^ n
unfolding word_from bits_of_word
word_from-bits_of_word zero acc value = omega arith
word_from-bits_of_word (suc n) acc value = omega (
  arith,
  word_from-bits_of_word n (acc * 2 + bit_value (bit_test value n)) value,
  ap (λ (t : ℕ). acc * t) (pow-suc 2 n),
  ap (λ (t : ℕ). t * 2 ^ n) (bit_value-bit_test value n),
  mod_top_bit n value,
)

-- Reading back the low bits of a number that fits them.
pub word_of_bits : (n value : ℕ) → value < 2 ^ n → word_from 0 (bits_of_word n value) ≡ value
word_of_bits n value h = omega (arith, word_from-bits_of_word n 0 value, mod-eq_of_lt h)

bit_value-lt : (b : Bool) → bit_value b < 2
bit_value-lt true = omega arith
bit_value-lt false = omega arith

-- A run of bits stays below the power of two of its length.
pub word_from-lt :
    (acc m : ℕ) (bs : List Bool) → acc < 2 ^ m → word_from acc bs < 2 ^ (m + length bs)
unfolding word_from
word_from-lt acc m [] h = let e : m + 0 ≡ m = omega arith in rw e h
word_from-lt acc m (b ∷ bs) h =
    let e : m + suc (length bs) ≡ suc m + length bs = omega arith in
    rw e
      (word_from-lt (acc * 2 + bit_value b) (suc m) bs (omega (arith, pow-suc 2 m, bit_value-lt b)))

-- One round of `value = (value << 1) | bit` in a word of that width loses nothing.
pub shift_in :
    (width m acc : ℕ) (b : Bool)
    → acc < 2 ^ m
    → suc m ≤ width
    → bit_or (acc * 2 % 2 ^ width) (bit_value b) ≡ acc * 2 + bit_value b
shift_in width m acc b h fits =
    rw (mod-eq_of_lt {n = acc * 2} {m = 2 ^ width} room)
      (bit_or_shifted acc (bit_value b) (bit_value-lt b))
  where
    room : acc * 2 < 2 ^ width
    room = omega (arith, pow-suc 2 m, pow-le-pow_right {n = 2} (omega arith) fits)
