-- ===== src/Cell/Assemble/VarInt.antt =====
-- `VarUInteger`: a count of bytes and that many bytes, written in the fewest and read back.
use ton_net.Base.{
  ℕ, zero, suc, ◌+◌, ◌-◌, ◌*◌, ◌/◌, ◌%◌, ◌^◌, ◌≤◌, ◌<◌, ◌≡◌, Bool, false, List, ◌++◌, arith, ltb,
  leb,
}
use ton_net.Base.Words.{bits_of_word, length-bits_of_word}
use ton_net.Base.Result.{ok}
use ton_net.Cell.Level.Bounds.{leading_zeros-le, leading_zeros-fits, leading_zeros-tight}
use ton_net.Cell.Level.{leading_zeros}
use ton_net.Cell.Builder.{
  Builder, len_bits, unsigned_byte_len, store_var_uint, store_word, store_uint, store_uint128,
}
use ton_net.Cell.Builder.Invariant.{IsWf}
use ton_net.Cell.Builder.Stores.{
  Stored, Stored-then, Stored-bits, store_word-Stored, room_for-passes,
}
use ton_net.Cell.Slice.{Slice, load_var_uint, read_var, load_uint, load_uint128}
use ton_net.Cell.Slice.Reads.{Spells, past, load_word-Spells}
use native.Mathlib.Decide.{dec_lt}
use mathlib.Core.List.{append_assoc}
use native.Mathlib.Nat.{pow-le-pow_right, pow-suc, le_trans}

abbrev left_bits : ℕ → ℕ
left_bits value = 128 - leading_zeros 128 value

unsigned_byte_len-pos : (v : ℕ) → unsigned_byte_len (suc v) ≡ (left_bits (suc v) + 7) / 8
unfolding unsigned_byte_len
unsigned_byte_len-pos v = ground arith

-- The count is enough: the value fits that many bytes, and a `u128` takes 16 at most.
pub unsigned_byte_len-fits :
    (value : ℕ)
    → value < 2 ^ 128
    → (value < 2 ^ (unsigned_byte_len value * 8)) × (unsigned_byte_len value ≤ 16)
unsigned_byte_len-fits zero h = unfold unsigned_byte_len in omega arith
unsigned_byte_len-fits (suc v) h = rw (unsigned_byte_len-pos v) (
  le_trans (leading_zeros-fits 128 (suc v) h)
      (pow-le-pow_right {n = 2} (omega arith) (room (left_bits (suc v)))),
  omega (arith, leading_zeros-le 128 (suc v)),
)
  where
    room : (n : ℕ) → n ≤ (n + 7) / 8 * 8
    room n = omega arith

some_bit : (v : ℕ) → suc v < 2 ^ 128 → 0 < left_bits (suc v)
some_bit v h = elim (dec_lt 0 (left_bits (suc v))) [
  | yes p ↦ p
  | no p ↦
      let e : left_bits (suc v) ≡ 0 = omega arith in
      absurd (omega (arith, rw e at (leading_zeros-fits 128 (suc v) h)))
]

one_byte_less : (n : ℕ) → 0 < n → suc (((n + 7) / 8 - 1) * 8) ≤ n
one_byte_less n h = omega arith

-- And no fewer would do: a value that takes a byte does not fit one byte less.
pub unsigned_byte_len-tight :
    (value : ℕ) → value < 2 ^ 128 → 0 < value → 2 ^ ((unsigned_byte_len value - 1) * 8) ≤ value
unsigned_byte_len-tight zero h pos = absurd (omega arith)
unsigned_byte_len-tight (suc v) h pos =
    let less = one_byte_less (left_bits (suc v)) (some_bit v h) in
    rw (unsigned_byte_len-pos v) (
      omega (
        arith,
        leading_zeros-tight 128 (suc v) pos h,
        pow-suc 2 (((left_bits (suc v) + 7) / 8 - 1) * 8),
        pow-le-pow_right {n = 2} (omega arith) less,
      ))

-- The width of the length field holds every length below `max`.
len_bits-fits :
    (max : ℕ) → 2 ≤ max → max < 2 ^ 32 → (max - 1 < 2 ^ len_bits max) × (len_bits max ≤ 32)
unfolding len_bits
len_bits-fits max lo hi =
    (leading_zeros-fits 32 (max - 1) (omega arith), omega (arith, leading_zeros-le 32 (max - 1)))

-- What `store_var_uint` appends.
abbrev pub var_uint_bits : ℕ → ℕ → List Bool
var_uint_bits value max =
    bits_of_word (len_bits max) (unsigned_byte_len value)
    ++ bits_of_word (unsigned_byte_len value * 8) value

-- One run of `read_var` over reads that succeed.
module _ (max : ℕ) (s : Slice) (bytes value : ℕ) (two : ltb max 2 ≡ false)
    (sixteen : bytes ≤ 16) where
  read_var_run :
      load_uint (len_bits max) s ≡ (ok bytes, past (len_bits max) s)
      → load_uint128 (bytes * 8) (past (len_bits max) s)
        ≡ (ok value, past (bytes * 8) (past (len_bits max) s))
      → load_var_uint max s ≡ (ok value, past (bytes * 8) (past (len_bits max) s))
  unfolding load_var_uint read_var
  read_var_run e1 e2 =
      let small : bytes % 2 ^ 32 ≡ bytes = omega arith in
      let fits : leb (2 ^ 32) (bytes * 8) ≡ false = ground arith in rw (two, e1, small, fits, e2)

module _ (value max : ℕ) (lo : 2 ≤ max) (hi : max < 2 ^ 32) (typed : value < 2 ^ 128)
    (few : unsigned_byte_len value < max) where
  length_fits : unsigned_byte_len value < 2 ^ len_bits max
  length_fits = omega (arith, (len_bits-fits max lo hi).0)

  -- Where there is room the fewest bytes are appended behind their number.
  pub store_var_uint-Stored :
      (b : Builder)
      → IsWf b
      → b.bits + (len_bits max + unsigned_byte_len value * 8) ≤ 1023
      → Stored b (var_uint_bits value max) (store_var_uint value max b)
  unfolding store_var_uint store_uint store_uint128
  store_var_uint-Stored b w room =
      let bytes = unsigned_byte_len value in
      let width = len_bits max in
      let two : ltb max 2 ≡ false = ground arith in
      let enough : leb max bytes ≡ false = ground arith in
      let same : (width + bytes * 8) % 2 ^ 16 ≡ width + bytes * 8 = omega arith in
      let s =
        store_word-Stored 64 bytes width b (omega (arith, (len_bits-fits max lo hi).1))
          (omega arith) length_fits w (omega arith) in
      rw (two, enough, same, room_for-passes (width + bytes * 8) b room)
        (Stored-then (store_word 64 bytes width b) (store_word 128 value (bytes * 8)) s (
          store_word-Stored 128 value (bytes * 8) (store_word 64 bytes width b).1
            (omega (arith, (unsigned_byte_len-fits value typed).1)) (omega arith)
            (unsigned_byte_len-fits value typed).0 s.wf
            (omega (arith, Stored-bits s, length-bits_of_word width bytes))))

  -- What it appended is read back.
  pub load_var_uint-Spells :
      (s : Slice) (rest : List Bool)
      → Spells s (var_uint_bits value max ++ rest)
      → (load_var_uint max s
          ≡ (ok value, past (unsigned_byte_len value * 8) (past (len_bits max) s)))
        × Spells (past (unsigned_byte_len value * 8) (past (len_bits max) s)) rest
  load_var_uint-Spells s rest h =
      let bytes = unsigned_byte_len value in
      let width = len_bits max in
      let (small, narrow) = len_bits-fits max lo hi in
      let (fits, sixteen) = unsigned_byte_len-fits value typed in
      let front = bits_of_word width bytes in
      let h' : Spells s (front ++ (bits_of_word (bytes * 8) value ++ rest)) =
        rw (append_assoc front (bits_of_word (bytes * 8) value) rest) at h in
      let (read_len, s') =
        load_word-Spells 64 width bytes s _ (omega (arith, narrow)) (length_fits) h' in
      let (read_value, s'') =
        load_word-Spells 128 (bytes * 8) value (past width s) rest (omega (arith, sixteen)) fits
          s' in
      (
        read_var_run max s bytes value (ground arith) sixteen (unfold load_uint in read_len)
            (unfold load_uint128 in read_value),
        s'',
      )
