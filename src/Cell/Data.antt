-- ===== src/Cell/Data.antt =====
-- A cell's data bits in their bytes, most significant first: `bit_at` of core/src/cell/slice.rs
-- (and of the builder), and the write to the last byte that `Builder::store_bit` makes.
pub mod Runs
use ton_net.Base.{
  ℕ, zero, suc, ◌+◌, ◌-◌, ◌*◌, ◌/◌, ◌%◌, ◌^◌, ◌≤◌, ◌<◌, ◌≡◌, refl, sym, ◌∙◌, ap, Bool, true, false,
  Option, none, some, List, [], ◌∷◌, ◌++◌, bit_or, arith, ltb, ◌==◌, if◌then◌else◌, length,
  get_elem?, All, length-append, get_elem?-append_left, get_elem?-none, get_elem?-snoc, Bool-cases,
  inl, inr,
}
use ton_net.Base.Bits.{bit_test, bit_test-bit_or, bit_or-lt, bit_test-zero}

abbrev pub IsByte : ℕ → Type 0
IsByte b = b < 256

-- `is_some_and(|byte| (byte >> (7 - within)) & 1 == 1)`
abbrev bit_of_byte : Option ℕ → ℕ → Bool
bit_of_byte none within = false
bit_of_byte (some byte) within = bit_test byte (7 - within)

unfoldable pub bit_at : List ℕ → ℕ → Bool
bit_at content index = bit_of_byte (get_elem? content (index / 8)) (index % 8)

-- A write through `last_mut`.
unfoldable pub update_last : (ℕ → ℕ) → List ℕ → List ℕ
update_last f [] = []
update_last f (x ∷ []) = f x ∷ []
update_last f (x ∷ y ∷ ys) = x ∷ update_last f (y ∷ ys)

pub bit_at-head : (x : ℕ) (xs : List ℕ) (i : ℕ) → i < 8 → bit_at (x ∷ xs) i ≡ bit_test x (7 - i)
unfolding bit_at
bit_at-head x xs i h =
    let e : i / 8 ≡ 0 = omega arith in let m : i % 8 ≡ i = omega arith in rw (e, m)

pub bit_at-tail : (x : ℕ) (xs : List ℕ) (i : ℕ) → bit_at (x ∷ xs) (8 + i) ≡ bit_at xs i
unfolding bit_at
bit_at-tail x xs i =
    let e : (8 + i) / 8 ≡ suc (i / 8) = omega arith in
    let m : (8 + i) % 8 ≡ i % 8 = omega arith in rw (e, m)

-- What holds of the eight bits of the first byte, and of those behind it, holds of all.
pub bit_cases : (P : ℕ → Type 0) → ((i : ℕ) → i < 8 → P i) → ((i : ℕ) → P (8 + i)) → (i : ℕ) → P i
bit_cases P low high i = elim (Bool-cases (ltb i 8)) [
  | inl h ↦ low i (ground arith)
  | inr h ↦ let e : i ≡ 8 + (i - 8) = ground arith in rw e (high (i - 8))
]

pub bit_at-nil : (i : ℕ) → bit_at [] i ≡ false
unfolding bit_at
bit_at-nil i = refl

pub length-update_last : (f : ℕ → ℕ) (xs : List ℕ) → length (update_last f xs) ≡ length xs
unfolding update_last
length-update_last f [] = refl
length-update_last f (x ∷ []) = refl
length-update_last f (x ∷ y ∷ ys) = ap suc (length-update_last f (y ∷ ys))

pub update_last-bytes :
    (k : ℕ) (xs : List ℕ)
    → k < 8
    → All IsByte xs
    → All IsByte (update_last (λ byte. bit_or byte (2 ^ (7 - k))) xs)
unfolding update_last
update_last-bytes k [] hk h = tt
update_last-bytes k (x ∷ []) hk h = (bit_or-lt x k h.0 hk, tt)
update_last-bytes k (x ∷ y ∷ ys) hk h = (h.0, update_last-bytes k (y ∷ ys) hk h.1)

-- Setting bit `k` of the last byte sets that one bit.
pub bit_at-update_last :
    (k : ℕ) (x : ℕ) (xs : List ℕ)
    → k < 8
    → All IsByte (x ∷ xs)
    → (i : ℕ)
    → bit_at (update_last (λ byte. bit_or byte (2 ^ (7 - k))) (x ∷ xs)) i
      ≡ (if 8 * length xs + k == i then true else bit_at (x ∷ xs) i)
unfolding update_last
bit_at-update_last k x [] hk h =
    bit_cases _
      (λ i hi.
        rw (bit_at-head x [] i hi, bit_at-head _ [] i hi)
          (ground (arith, bit_test-bit_or x k i h.0 hk hi)))
      (λ i. rw (bit_at-tail x [] i, bit_at-tail _ [] i) (ground arith))
bit_at-update_last k x (y ∷ ys) hk h =
    bit_cases _ (λ i hi. rw (bit_at-head x (y ∷ ys) i hi, bit_at-head x _ i hi) (ground arith))
      (λ i.
        rw (bit_at-tail x (y ∷ ys) i, bit_at-tail x _ i)
          (ground (arith, bit_at-update_last k y ys hk h.1 i)))

-- A byte of zeros behind the data reads as nothing.
pub bit_at-append_zero : (xs : List ℕ) (i : ℕ) → bit_at (xs ++ (0 ∷ [])) i ≡ bit_at xs i
bit_at-append_zero [] =
    bit_cases _ (λ i hi. rw (bit_at-head 0 [] i hi, bit_at-nil i) (bit_test-zero (7 - i)))
      (λ i. rw (bit_at-tail 0 [] i, bit_at-nil i, bit_at-nil (8 + i)))
bit_at-append_zero (x ∷ xs) =
    bit_cases _ (λ i hi. rw (bit_at-head x xs i hi, bit_at-head x _ i hi))
      (λ i. rw (bit_at-tail x xs i, bit_at-tail x _ i) (bit_at-append_zero xs i))
