-- ===== src/Cell/Data/Runs.antt =====
-- Runs of data bits as lists, and the loop that reads a run as a number.
use ton_net.Base.{
  ℕ, zero, suc, ◌+◌, ◌*◌, ◌%◌, ◌^◌, ◌≤◌, ◌<◌, ◌≡◌, refl, ap, Bool, true, false, List, [], ◌∷◌, ◌++◌,
  bit_or, arith, length,
}
use ton_net.Base.Bits.{bit_value}
use ton_net.Base.Words.{word_from, shift_in}
use native.Mathlib.Nat.{pow-suc}
use ton_net.Cell.Data.{bit_at}

-- `n` bits of the data from a place on.
unfoldable pub bits_from : List ℕ → ℕ → ℕ → List Bool
bits_from content start zero = []
bits_from content start (suc n) = bit_at content start ∷ bits_from content (start + 1) n

pub length-bits_from : (content : List ℕ) (start n : ℕ) → length (bits_from content start n) ≡ n
unfolding bits_from
length-bits_from content start zero = refl
length-bits_from content start (suc n) = ap suc (length-bits_from content (start + 1) n)

pub bits_from-append :
    (content : List ℕ) (start n m : ℕ)
    → bits_from content start (n + m) ≡ bits_from content start n ++ bits_from content (start + n) m
unfolding bits_from
bits_from-append content start zero m =
    let e : 0 + m ≡ m = omega arith in let e' : start + 0 ≡ start = omega arith in rw (e, e')
bits_from-append content start (suc n) m =
    let e : suc n + m ≡ suc (n + m) = omega arith in
    let e' : start + suc n ≡ start + 1 + n = omega arith in
    rw (e, e') (ap (λ t. bit_at content start ∷ t) (bits_from-append content (start + 1) n m))

-- Two data that agree on a run's places spell the same run.
pub bits_from-cong :
    (xs ys : List ℕ) (start n : ℕ)
    → ((i : ℕ) → i < start + n → bit_at xs i ≡ bit_at ys i)
    → bits_from xs start n ≡ bits_from ys start n
unfolding bits_from
bits_from-cong xs ys start zero h = refl
bits_from-cong xs ys start (suc n) h =
    cc (h start (omega arith), bits_from-cong xs ys (start + 1) n (λ i lt. h i (omega arith)))

-- `for i in 0..n { value = (value << 1) | u64::from(bit_at(data, start + i)); }`
unfoldable pub read_loop : ℕ → List ℕ → ℕ → ℕ → ℕ → ℕ
read_loop width content at zero value = value
read_loop width content at (suc n) value =
    read_loop width content (at + 1) n
      (bit_or (value * 2 % 2 ^ width) (bit_value (bit_at content at)))

pub read_loop-word_from :
    (width : ℕ) (content : List ℕ) (n m at acc : ℕ)
    → acc < 2 ^ m
    → m + n ≤ width
    → read_loop width content at n acc ≡ word_from acc (bits_from content at n)
unfolding read_loop word_from bits_from
read_loop-word_from width content zero m at acc h fits = refl
read_loop-word_from width content (suc n) m at acc h fits =
    rw (shift_in width m acc (bit_at content at) h (omega arith)) (
      read_loop-word_from width content n (suc m) (at + 1) (acc * 2 + bit_value (bit_at content at))
        (room (bit_at content at)) (omega arith))
  where
    room : (b : Bool) → acc * 2 + bit_value b < 2 ^ suc m
    room true = omega (arith, pow-suc 2 m)
    room false = omega (arith, pow-suc 2 m)
