-- ===== src/Cell/Dict/Packed.antt =====
-- The packing of a key's bits into bytes, and the reading of them back.
use ton_net.Base.{
  ℕ, zero, suc, ◌+◌, ◌-◌, ◌*◌, ◌/◌, ◌%◌, ◌^◌, ◌≤◌, ◌<◌, ◌≡◌, refl, sym, ◌∙◌, ap, Bool, true, false,
  Option, none, some, List, [], ◌∷◌, ltb, ◌==◌, if◌then◌else◌, bit_or, length, get_elem?, set,
  replicate, length-replicate, All, arith, Bool-cases, inl, inr,
}
use ton_net.Base.Bits.{bit_test-bit_or, bit_test-zero, bit_or-lt}
use ton_net.Base.Result.{ok}
use ton_net.Cell.Data.{IsByte, bit_at, bit_at-head, bit_at-tail, bit_at-nil, bit_cases}
use ton_net.Cell.Dict.Key.{key_bit, set_bit, set_bits, pack, key_bits_from, key_of}

abbrev set_at : ℕ → ℕ → List ℕ → List ℕ
set_at q m out = elim (get_elem? out q) [
  | none ↦ out
  | some byte ↦ set out q (bit_or byte (2 ^ (7 - m)))
]

set_bit-set_at : (i q m : ℕ) (out : List ℕ) → i / 8 ≡ q → i % 8 ≡ m → set_bit i out ≡ set_at q m out
unfolding set_bit
set_bit-set_at i q m out e f = ap (λ k. set_at k (i % 8) out) e ∙ ap (λ k. set_at q k out) f

set_bit-head :
    (x : ℕ) (out : List ℕ) (i : ℕ) → i < 8 → set_bit i (x ∷ out) ≡ bit_or x (2 ^ (7 - i)) ∷ out
set_bit-head x out i h = set_bit-set_at i 0 i (x ∷ out) (omega arith) (omega arith)

set_at-tail : (x q m : ℕ) (out : List ℕ) → set_at (suc q) m (x ∷ out) ≡ x ∷ set_at q m out
set_at-tail x q m out = inside (get_elem? out q)
  where
    inside :
        (o : Option ℕ)
        → (elim o [ none ↦ x ∷ out | some byte ↦ x ∷ set out q (bit_or byte (2 ^ (7 - m))) ])
          ≡ x ∷ (elim o [ none ↦ out | some byte ↦ set out q (bit_or byte (2 ^ (7 - m))) ])
    inside none = refl
    inside (some byte) = refl

set_bit-tail : (x : ℕ) (out : List ℕ) (i : ℕ) → set_bit (8 + i) (x ∷ out) ≡ x ∷ set_bit i out
set_bit-tail x out i =
    set_bit-set_at (8 + i) (suc (i / 8)) (i % 8) (x ∷ out) (omega arith) (omega arith)
    ∙ set_at-tail x (i / 8) (i % 8) out
    ∙ ap (λ t. x ∷ t) (sym (set_bit-set_at i (i / 8) (i % 8) out refl refl))

length-set : (xs : List ℕ) (i v : ℕ) → length (set xs i v) ≡ length xs
length-set [] i v = refl
length-set (x ∷ xs) zero v = refl
length-set (x ∷ xs) (suc i) v = ap suc (length-set xs i v)

length-set_bit : (i : ℕ) (out : List ℕ) → length (set_bit i out) ≡ length out
unfolding set_bit
length-set_bit i out = inside (get_elem? out (i / 8))
  where
    inside :
        (o : Option ℕ)
        → length
            (elim o [ none ↦ out | some byte ↦ set out (i / 8) (bit_or byte (2 ^ (7 - i % 8))) ])
          ≡ length out
    inside none = refl
    inside (some byte) = length-set out (i / 8) (bit_or byte (2 ^ (7 - i % 8)))

set_bit-bytes :
    (i : ℕ) (out : List ℕ) → i < 8 * length out → All IsByte out → All IsByte (set_bit i out)
set_bit-bytes i [] h b = absurd (omega arith)
set_bit-bytes i (x ∷ out) h b = elim (Bool-cases (ltb i 8)) [
  | inl first ↦ rw (set_bit-head x out i (ground arith)) (bit_or-lt x i b.0 (ground arith), b.1)
  | inr later ↦
      let e : i ≡ 8 + (i - 8) = ground arith in
      let tail : set_bit i (x ∷ out) ≡ x ∷ set_bit (i - 8) out =
        ap (λ k. set_bit k (x ∷ out)) e ∙ set_bit-tail x out (i - 8) in
      rw (tail) (b.0, set_bit-bytes (i - 8) out (omega (arith, e)) b.1)
]

-- The bit that is set, and no other.
bit_at-set_bit :
    (i : ℕ) (out : List ℕ)
    → i < 8 * length out
    → All IsByte out
    → (j : ℕ) → bit_at (set_bit i out) j ≡ (if i == j then true else bit_at out j)
bit_at-set_bit i [] h b = absurd (omega arith)
bit_at-set_bit i (x ∷ out) h b = elim (Bool-cases (ltb i 8)) [
  | inl first ↦
      let low : i < 8 = ground arith in
      rw (set_bit-head x out i low) (
        bit_cases _
          (λ j hj.
            rw (bit_at-head x out j hj, bit_at-head _ out j hj) (bit_test-bit_or x i j b.0 low hj))
          (λ j. rw (bit_at-tail x out j, bit_at-tail _ out j) (ground arith)))
  | inr later ↦
      let e : i ≡ 8 + (i - 8) = ground arith in
      let tail : set_bit i (x ∷ out) ≡ x ∷ set_bit (i - 8) out =
        ap (λ k. set_bit k (x ∷ out)) e ∙ set_bit-tail x out (i - 8) in
      rw (tail) (
        bit_cases _ (λ j hj. rw (bit_at-head x out j hj, bit_at-head x _ j hj) (ground arith))
          (λ j.
            rw (bit_at-tail x out j, bit_at-tail x _ j)
              (ground (arith, bit_at-set_bit (i - 8) out (omega (arith, e)) b.1 j))))
]

zeros-bytes : (n : ℕ) → All IsByte (replicate n 0)
zeros-bytes zero = tt
zeros-bytes (suc n) = (omega arith, zeros-bytes n)

zeros_clear : (n i : ℕ) → bit_at (replicate n 0) i ≡ false
zeros_clear zero = λ i. bit_at-nil i
zeros_clear (suc n) =
    bit_cases _ (λ i h. bit_at-head 0 (replicate n 0) i h ∙ bit_test-zero (7 - i))
      (λ i. bit_at-tail 0 (replicate n 0) i ∙ zeros_clear n i)

-- The bytes that a bit is written into, clear from there on.
record Room (index n : ℕ) (out : List ℕ) : Type 0 where
  fits : index + n ≤ 8 * length out
  bytes : All IsByte out
  clear : (j : ℕ) → index ≤ j → bit_at out j ≡ false

abbrev written : Bool → ℕ → List ℕ → List ℕ
written bit index out = if bit then set_bit index out else out

written-Room :
    (bit : Bool) (index n : ℕ) (out : List ℕ)
    → Room index (suc n) out
    → Room (index + 1) n (written bit index out)
written-Room true index n out r = record {
  fits = omega (arith, r.fits, length-set_bit index out);
  bytes = set_bit-bytes index out (omega (arith, r.fits)) r.bytes;
  clear = λ j h.
      let other : (index == j) ≡ false = ground arith in
      bit_at-set_bit index out (omega (arith, r.fits)) r.bytes j
      ∙ rw (other) (r.clear j (omega arith));
}
written-Room false index n out r = record {
  fits = omega (arith, r.fits);
  bytes = r.bytes;
  clear = λ j h. r.clear j (omega arith);
}

bit_at-written :
    (bit : Bool) (index n : ℕ) (out : List ℕ)
    → Room index (suc n) out
    → bit_at (written bit index out) index ≡ bit
bit_at-written true index n out r =
    let here : (index == index) ≡ true = ground arith in
    bit_at-set_bit index out (omega (arith, r.fits)) r.bytes index ∙ rw (here)
bit_at-written false index n out r = r.clear index (omega arith)

before_written :
    (bit : Bool) (index n j : ℕ) (out : List ℕ)
    → Room index (suc n) out
    → j < index
    → bit_at (written bit index out) j ≡ bit_at out j
before_written true index n j out r h =
    let other : (index == j) ≡ false = ground arith in
    bit_at-set_bit index out (omega (arith, r.fits)) r.bytes j ∙ rw (other)
before_written false index n j out r h = refl

-- Later bits leave the earlier ones.
before_run :
    (bits : List Bool) (index j : ℕ) (out : List ℕ)
    → Room index (length bits) out
    → j < index
    → bit_at (set_bits bits index out) j ≡ bit_at out j
unfolding set_bits
before_run [] index j out r h = refl
before_run (bit ∷ bits) index j out r h =
    before_run bits (index + 1) j (written bit index out)
      (written-Room bit index (length bits) out r) (omega arith)
    ∙ before_written bit index (length bits) j out r h

set_bits-key_bits_from :
    (bits : List Bool) (index : ℕ) (out : List ℕ)
    → Room index (length bits) out
    → key_bits_from (set_bits bits index out) index (length bits) ≡ bits
unfolding set_bits key_bits_from key_bit
set_bits-key_bits_from [] index out r = refl
set_bits-key_bits_from (bit ∷ bits) index out r =
    let out' = written bit index out in
    let r' = written-Room bit index (length bits) out r in
    let here : bit_at (set_bits bits (index + 1) out') index ≡ bit =
      before_run bits (index + 1) index out' r' (omega arith)
      ∙ bit_at-written bit index (length bits) out r in
    cc (here, set_bits-key_bits_from bits (index + 1) out' r')

length-set_bits :
    (bits : List Bool) (index : ℕ) (out : List ℕ) → length (set_bits bits index out) ≡ length out
unfolding set_bits
length-set_bits [] index out = refl
length-set_bits (true ∷ bits) index out =
    length-set_bits bits (index + 1) (set_bit index out) ∙ length-set_bit index out
length-set_bits (false ∷ bits) index out = length-set_bits bits (index + 1) out

-- The bytes that `pack` makes of a run of bits are as long a key as `key_of` asks for, and read
-- back as the run.
pub key_of-pack : (bits : List Bool) → key_of (pack bits) (length bits) ≡ ok bits
unfolding key_of pack
key_of-pack bits =
    let n = (length bits + 7) / 8 in
    let zeros = replicate n 0 in
    let long : length zeros ≡ n = length-replicate n 0 in
    let room : Room 0 (length bits) zeros = record {
      fits = omega (arith, long);
      bytes = zeros-bytes n;
      clear = λ j h. zeros_clear n j;
    } in
    let enough : ltb (length (set_bits bits 0 zeros)) n ≡ false =
      ground (arith, length-set_bits bits 0 zeros, long) in
    rw (enough) (ap ok (set_bits-key_bits_from bits 0 zeros room))
