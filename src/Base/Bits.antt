-- ===== src/Base/Bits.antt =====
-- Bits of a byte and of a number as arithmetic, and lists of bits read as numbers.
use Prim.Native.Nat.{
  ℕ, zero, suc, ◌+◌, ◌-◌, ◌*◌, ◌/◌, ◌%◌, ◌^◌, ◌≤◌, ◌<◌, min, max, bit_and, bit_or, digits,
}
use Prim.Native.Nat.{bit_and-bitwise, bit_or-bitwise}
use mathlib.Core.Path.{◌≡◌, refl, ap}
use mathlib.Core.Bool.{Bool, true, false, ◌&&◌}
use native.Mathlib.Omega.{arith}
use ton_net.Base.Tests.{ltb, ◌==◌, if◌then◌else◌}

abbrev digitwise : (ℕ → ℕ) → (ℕ → ℕ → ℕ) → ℕ → ℕ → ℕ → ℕ
digitwise rest f n a b = digits rest f n a b

digitwise_fuel :
    (rest : ℕ → ℕ) (f : ℕ → ℕ → ℕ) (n m a b : ℕ)
    → a ≤ n
    → a ≤ m
    → digitwise rest f n a b ≡ digitwise rest f m a b
digitwise_fuel rest f zero zero a b p q = refl
digitwise_fuel rest f zero (suc m) zero b p q = refl
digitwise_fuel rest f zero (suc m) (suc a) b p q = absurd (omega arith)
digitwise_fuel rest f (suc n) zero zero b p q = refl
digitwise_fuel rest f (suc n) zero (suc a) b p q = absurd (omega arith)
digitwise_fuel rest f (suc n) (suc m) zero b p q = refl
digitwise_fuel rest f (suc n) (suc m) (suc a) b p q =
    ap (λ t. t * 2 + f (suc a % 2) (b % 2))
      (digitwise_fuel rest f n m (suc a / 2) (b / 2) (omega arith) (omega arith))

pub bit_or_lowest : (a b : ℕ) → bit_or a b ≡ bit_or (a / 2) (b / 2) * 2 + max (a % 2) (b % 2)
bit_or_lowest zero b = omega (arith, bit_or-bitwise 0 b, bit_or-bitwise 0 (b / 2))
bit_or_lowest (suc a) b = omega (
  arith,
  bit_or-bitwise (suc a) b,
  bit_or-bitwise (suc a / 2) (b / 2),
  digitwise_fuel (λ y. y) max a (suc a / 2) (suc a / 2) (b / 2) (omega arith) (omega arith),
)

pub bit_and_lowest : (a b : ℕ) → bit_and a b ≡ bit_and (a / 2) (b / 2) * 2 + min (a % 2) (b % 2)
bit_and_lowest zero b = omega (arith, bit_and-bitwise 0 b, bit_and-bitwise 0 (b / 2))
bit_and_lowest (suc a) b = omega (
  arith,
  bit_and-bitwise (suc a) b,
  bit_and-bitwise (suc a / 2) (b / 2),
  digitwise_fuel (λ y. 0) min a (suc a / 2) (suc a / 2) (b / 2) (omega arith) (omega arith),
)

bit_and-zero : (n a : ℕ) → a ≤ n → bit_and a 0 ≡ 0
bit_and-zero n zero h = refl
bit_and-zero zero (suc a) h = absurd (omega arith)
bit_and-zero (suc n) (suc a) h =
    omega (arith, bit_and_lowest (suc a) 0, bit_and-zero n (suc a / 2) (omega arith))

bit_or-zero_fuel : (n a : ℕ) → a ≤ n → bit_or a 0 ≡ a
bit_or-zero_fuel n zero h = refl
bit_or-zero_fuel zero (suc a) h = absurd (omega arith)
bit_or-zero_fuel (suc n) (suc a) h =
    omega (arith, bit_or_lowest (suc a) 0, bit_or-zero_fuel n (suc a / 2) (omega arith))

pub bit_or-zero : (a : ℕ) → bit_or a 0 ≡ a
bit_or-zero a = bit_or-zero_fuel a a (omega arith)

pub bit_and-one : (a : ℕ) → bit_and a 1 ≡ a % 2
bit_and-one a = omega (arith, bit_and_lowest a 1, bit_and-zero (a / 2) (a / 2) (omega arith))

-- A bit put under a number that was shifted left by one.
pub bit_or_shifted : (a b : ℕ) → b < 2 → bit_or (a * 2) b ≡ a * 2 + b
bit_or_shifted a zero h = omega (arith, bit_or-zero (a * 2))
bit_or_shifted a (suc zero) h = omega (arith, bit_or_lowest (a * 2) 1, bit_or-zero (a * 2 / 2))
bit_or_shifted a (suc (suc b)) h = absurd (omega arith)

-- `(value >> offset) & 1 == 1`
abbrev pub bit_test : ℕ → ℕ → Bool
bit_test value offset = bit_and (value / 2 ^ offset) 1 == 1

pub bit_test-zero : (k : ℕ) → bit_test 0 k ≡ false
bit_test-zero k = ground (arith, bit_and-one (0 / 2 ^ k))

-- `u64::from(bit)`
abbrev pub bit_value : Bool → ℕ
bit_value true = 1
bit_value false = 0

-- Every value below a bound passes a test, checked by evaluation.
unfoldable pub all_below : ℕ → (ℕ → Bool) → Bool
all_below zero p = true
all_below (suc n) p = p n && all_below n p

pub all_below_sound :
    (bound : ℕ) (test : ℕ → Bool) (i : ℕ) → all_below bound test ≡ true → i < bound → test i ≡ true
unfolding all_below
all_below_sound zero test i holds below = absurd (omega arith)
all_below_sound (suc bound) test i holds below = ground (arith, all_below_sound bound test i)

abbrev same : Bool → Bool → Bool
same true b = b
same false true = false
same false false = true

same→eq : (a b : Bool) → same a b ≡ true → a ≡ b
same→eq a b h = ground arith

-- Setting bit `k` of a byte, counted from the most significant, leaves the others.
abbrev set_bit_ok : ℕ → ℕ → ℕ → Bool
set_bit_ok byte k i =
    same (bit_test (bit_or byte (2 ^ (7 - k))) (7 - i))
      (if k == i then true else bit_test byte (7 - i))

set_bit_table :
    all_below 256 (λ byte. all_below 8 (λ k. all_below 8 (λ i. set_bit_ok byte k i))) ≡ true
unfolding all_below
set_bit_table = refl

pub bit_test-bit_or :
    (byte k i : ℕ)
    → byte < 256
    → k < 8
    → i < 8
    → bit_test (bit_or byte (2 ^ (7 - k))) (7 - i)
      ≡ (if k == i then true else bit_test byte (7 - i))
bit_test-bit_or byte k i hb hk hi = same→eq _ _ (
    all_below_sound 8 (λ i. set_bit_ok byte k i) i
      (all_below_sound 8 (λ k. all_below 8 (λ i. set_bit_ok byte k i)) k
        (all_below_sound 256 _ byte set_bit_table hb) hk)
      hi)

set_bit_range :
    all_below 256 (λ byte. all_below 8 (λ k. ltb (bit_or byte (2 ^ (7 - k))) 256)) ≡ true
unfolding all_below
set_bit_range = refl

pub bit_or-lt : (byte k : ℕ) → byte < 256 → k < 8 → bit_or byte (2 ^ (7 - k)) < 256
bit_or-lt byte k hb hk = ground (
  arith,
  all_below_sound 8 (λ k. ltb (bit_or byte (2 ^ (7 - k))) 256) k
      (all_below_sound 256 _ byte set_bit_range hb) hk,
)
