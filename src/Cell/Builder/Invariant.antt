-- ===== src/Cell/Builder/Invariant.antt =====
-- The invariant of a builder, and what one stored bit does to its data.
use ton_net.Base.{
  ℕ, suc, ◌+◌, ◌-◌, ◌*◌, ◌/◌, ◌%◌, ◌^◌, ◌≤◌, ◌<◌, ◌≡◌, refl, Bool, true, false, List, [], ◌∷◌, ◌++◌,
  bit_or, arith, ◌==◌, if◌then◌else◌, length, All, All-append, length-append, Bool-cases, inl, inr,
}
use ton_net.Cell.Data.{
  IsByte, bit_at, bit_at-nil, bit_at-update_last, bit_at-append_zero, length-update_last,
  update_last, update_last-bytes,
}
use ton_net.Cell.Data.Runs.{bits_from, bits_from-append, bits_from-cong, length-bits_from}
use ton_net.Cell.Builder.{Builder, empty, pushed, put_bit}

-- The bytes are as many as the bits call for, and nothing is set past the bits.
pub record IsWf (b : Builder) : Type 0 where
  pub len : length b.content ≡ (b.bits + 7) / 8
  pub bytes : All IsByte b.content
  pub clear : (i : ℕ) → b.bits ≤ i → bit_at b.content i ≡ false
  pub cap : b.bits ≤ 1023

pub empty-IsWf : IsWf empty
empty-IsWf = record {
  len = omega arith;
  bytes = tt;
  clear = λ i h. bit_at-nil i;
  cap = omega arith;
}

-- The bits that a builder holds.
unfoldable pub contents : Builder → List Bool
contents b = bits_from b.content 0 b.bits

pub length-contents : (b : Builder) → length (contents b) ≡ b.bits
unfolding contents
length-contents b = length-bits_from b.content 0 b.bits

module _ (b : Builder) where
  bit_at-pushed : (i : ℕ) → bit_at (pushed b) i ≡ bit_at b.content i
  unfolding pushed
  bit_at-pushed i = elim (Bool-cases (b.bits % 8 == 0)) [
    | inl h ↦ rw h (bit_at-append_zero b.content i)
    | inr h ↦ rw h
  ]

  length-pushed : IsWf b → length (pushed b) ≡ suc (b.bits / 8)
  unfolding pushed
  length-pushed w = ground (arith, w.len, length-append b.content (0 ∷ []))

  pushed-bytes : IsWf b → All IsByte (pushed b)
  unfolding pushed
  pushed-bytes w = elim (Bool-cases (b.bits % 8 == 0)) [
    | inl h ↦ rw h (All-append IsByte b.content (0 ∷ []) w.bytes (omega arith, tt))
    | inr h ↦ rw h (w.bytes)
  ]

pub set_last :
    (k q : ℕ) (xs : List ℕ)
    → k < 8
    → length xs ≡ suc q
    → All IsByte xs
    → (i : ℕ)
    → bit_at (update_last (λ byte. bit_or byte (2 ^ (7 - k))) xs) i
      ≡ (if 8 * q + k == i then true else bit_at xs i)
set_last k q [] hk hl h i = absurd (omega arith)
set_last k q (x ∷ xs) hk hl h i =
    let e : q ≡ length xs = omega arith in rw e (bit_at-update_last k x xs hk h i)

module _ (b : Builder) (w : IsWf b) where
  pub bit_at-put_bit :
      (bit : Bool) (i : ℕ)
      → bit_at (put_bit bit b).content i ≡ (if b.bits == i then bit else bit_at b.content i)
  unfolding put_bit
  bit_at-put_bit true i = ground (
    arith,
    set_last (b.bits % 8) (b.bits / 8) (pushed b) (omega arith) (length-pushed b w)
        (pushed-bytes b w) i,
    bit_at-pushed b i,
  )
  bit_at-put_bit false i = ground (arith, bit_at-pushed b i, w.clear i)

  length-put_bit : (bit : Bool) → length (put_bit bit b).content ≡ (b.bits + 1 + 7) / 8
  unfolding put_bit
  length-put_bit true = omega (
    arith,
    length-update_last (λ byte. bit_or byte (2 ^ (7 - b.bits % 8))) (pushed b),
    length-pushed b w,
  )
  length-put_bit false = omega (arith, length-pushed b w)

  put_bit-bytes : (bit : Bool) → All IsByte (put_bit bit b).content
  unfolding put_bit
  put_bit-bytes true = update_last-bytes (b.bits % 8) (pushed b) (omega arith) (pushed-bytes b w)
  put_bit-bytes false = pushed-bytes b w

  bits-put_bit : (bit : Bool) → (put_bit bit b).bits ≡ b.bits + 1
  unfolding put_bit
  bits-put_bit bit = refl

  -- A bit stored where there is room keeps the invariant.
  pub put_bit-IsWf : (bit : Bool) → b.bits < 1023 → IsWf (put_bit bit b)
  put_bit-IsWf bit room = record {
    len = rw (bits-put_bit bit) (length-put_bit bit);
    bytes = put_bit-bytes bit;
    clear = λ i h. ground (arith, bits-put_bit bit, bit_at-put_bit bit i, w.clear i);
    cap = omega (arith, bits-put_bit bit);
  }

  kept-put_bit :
      (bit : Bool) → bits_from (put_bit bit b).content 0 b.bits ≡ bits_from b.content 0 b.bits
  kept-put_bit bit = bits_from-cong _ _ 0 b.bits (λ i h. ground (arith, bit_at-put_bit bit i))

  -- It is appended to what the builder held.
  pub contents-put_bit : (bit : Bool) → contents (put_bit bit b) ≡ contents b ++ (bit ∷ [])
  unfolding contents bits_from
  contents-put_bit bit =
      let content' = (put_bit bit b).content in
      let here : bit_at content' (0 + b.bits) ≡ bit =
        ground (arith, bit_at-put_bit bit (0 + b.bits)) in
      rw (bits-put_bit bit, bits_from-append content' 0 b.bits 1, kept-put_bit bit, here)
