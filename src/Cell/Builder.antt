-- ===== src/Cell/Builder.antt =====
-- The builder of core/src/cell/builder.rs: a method is an action on the builder, and an error
-- leaves behind what was stored before it. `store_slice` is in Cell/Copy.antt.
pub mod Invariant
pub mod Stores
use ton_net.Base.{
  ℕ, zero, suc, ◌+◌, ◌-◌, ◌*◌, ◌/◌, ◌%◌, ◌^◌, ◌≤◌, ◌<◌, Bool, true, false, not, ◌&&◌, ◌||◌, Option,
  none, some, List, [], ◌∷◌, ◌++◌, min, bit_and, bit_or, ltb, leb, ◌==◌, if◌then◌else◌, length,
  take,
}
use ton_net.Base.Bits.{bit_test}
use ton_net.Base.Int.{ℤ, pos, negsuc, ltb_ℤ, leb_ℤ, eq_ℤ, neg_of, pattern_of}
use ton_net.Base.Result.{Result, ok, err}
use ton_net.Base.Exec.{Exec, raise, refuse_if, then_do, ◌>>=◌, ◌>>◌}
use ton_net.Cell.Error.{
  CellError, malformed, not_enough_bits, not_enough_refs, too_wide, no_room_for_bits,
  no_room_for_refs,
}
use ton_net.Cell.Level.{leading_zeros}
use ton_net.Cell.Types.{Cell, Refs, no_refs, as_slice, push, truncate, max_bits, max_refs}
use ton_net.Cell.Data.{bit_at as data_bit, update_last}

pub record Builder : Type 0 where
  pub content : List ℕ
  pub bits : ℕ
  pub refs : Refs

abbrev pub Store : Type 0 → Type 0
Store = Exec CellError Builder

-- `Builder::new()`
abbrev pub empty : Builder
empty = record { content = []; bits = 0; refs = no_refs }

unfoldable pub bits_left : Builder → ℕ
bits_left b = max_bits - b.bits

unfoldable pub refs_used : Builder → ℕ
unfolding as_slice
refs_used b = length (as_slice b.refs)

unfoldable pub refs_left : Builder → ℕ
unfolding refs_used
refs_left b = max_refs - refs_used b

unfoldable pub can_extend_by : Builder → ℕ → ℕ → Bool
unfolding bits_left refs_left
can_extend_by b bits refs = leb bits (bits_left b) && leb refs (refs_left b)

unfoldable pub room_for : ℕ → Store (Unit {0})
unfolding bits_left
room_for bits b =
    if ltb (bits_left b) bits then (err (no_room_for_bits bits (bits_left b)), b) else (ok tt, b)

-- `if self.bits % 8 == 0 { self.data.push(0); }`
unfoldable pub pushed : Builder → List ℕ
pushed b = if b.bits % 8 == 0 then b.content ++ (0 ∷ []) else b.content

-- What `store_bit` does where there is room.
unfoldable pub put_bit : Bool → Builder → Builder
put_bit bit b =
    let written =
      if bit
      then update_last (λ byte. bit_or byte (2 ^ (7 - b.bits % 8))) (pushed b)
      else pushed b in
    record b { content = written; bits = b.bits + 1 }

unfoldable pub store_bit : Bool → Store (Unit {0})
store_bit bit = room_for 1 >> λ b. (ok tt, put_bit bit b)

-- `for offset in (0..bits).rev() { self.store_bit((value >> offset) & 1 == 1)?; }`
unfoldable pub store_low : ℕ → ℕ → Store (Unit {0})
store_low zero value = λ b. (ok tt, b)
store_low (suc offset) value = store_bit (bit_test value offset) >> store_low offset value

abbrev pub does_not_fit : CellError
does_not_fit = malformed "value does not fit the requested bits"

-- `store_uint` and `store_uint128` differ in the width of the word alone.
unfoldable pub store_word : ℕ → ℕ → ℕ → Store (Unit {0})
store_word width value bits = do
  refuse_if (ltb width bits) (too_wide bits width)
  refuse_if (ltb bits width && leb (2 ^ bits) value) does_not_fit
  room_for (bits % 2 ^ 16)
  store_low bits value

unfoldable pub store_uint : ℕ → ℕ → Store (Unit {0})
unfolding store_word
store_uint = store_word 64

unfoldable pub store_uint128 : ℕ → ℕ → Store (Unit {0})
unfolding store_word
store_uint128 = store_word 128

-- The range check of the signed stores: a field of no bits holds only zero.
unfoldable pub out_of_range : ℕ → ℤ → ℕ → Bool
out_of_range width value bits =
    if bits == 0
    then not (eq_ℤ value (pos 0))
    else ltb bits width
      && (leb_ℤ (pos (2 ^ (bits - 1))) value || ltb_ℤ value (neg_of (2 ^ (bits - 1))))

-- `store_int` and `store_int128` differ in the width of the word alone.
unfoldable pub store_signed : ℕ → ℤ → ℕ → Store (Unit {0})
unfolding out_of_range
store_signed width value bits = do
  refuse_if (ltb width bits) (too_wide bits width)
  refuse_if (out_of_range width value bits) does_not_fit
  room_for (bits % 2 ^ 16)
  store_low bits (pattern_of width value)

unfoldable pub store_int : ℤ → ℕ → Store (Unit {0})
unfolding store_signed
store_int = store_signed 64

unfoldable pub store_int128 : ℤ → ℕ → Store (Unit {0})
unfolding store_signed
store_int128 = store_signed 128

unfoldable pub store_u8 : ℕ → Store (Unit {0})
store_u8 value = store_uint value 8

unfoldable pub store_u16 : ℕ → Store (Unit {0})
store_u16 value = store_uint value 16

unfoldable pub store_u32 : ℕ → Store (Unit {0})
store_u32 value = store_uint value 32

unfoldable pub store_i32 : ℤ → Store (Unit {0})
store_i32 value = store_int value 32

-- `u32::BITS - (max - 1).leading_zeros()`
unfoldable pub len_bits : ℕ → ℕ
len_bits max = 32 - leading_zeros 32 (max - 1)

abbrev pub needs_max : CellError
needs_max = malformed "variable integer needs a max above one"

-- The fewest whole bytes that hold a `u128`; zero needs none.
unfoldable pub unsigned_byte_len : ℕ → ℕ
unsigned_byte_len value = if value == 0 then 0 else (128 - leading_zeros 128 value + 7) / 8

unfoldable pub store_var_uint : ℕ → ℕ → Store (Unit {0})
store_var_uint value max = do
  refuse_if (ltb max 2) needs_max
  let bytes = unsigned_byte_len value
  refuse_if (leb max bytes) (malformed "value is too wide for this VarUInteger")
  room_for ((len_bits max + bytes * 8) % 2 ^ 16)
  store_uint bytes (len_bits max)
  store_uint128 value (bytes * 8)

-- A negative's magnitude is measured on its complement: `!value` is `n` for `-(n + 1)`.
unfoldable pub signed_byte_len : ℤ → ℕ
signed_byte_len (pos n) = if n == 0 then 0 else (128 - leading_zeros 128 n + 1 + 7) / 8
signed_byte_len (negsuc n) = (128 - leading_zeros 128 n + 1 + 7) / 8

unfoldable pub store_var_int : ℤ → ℕ → Store (Unit {0})
store_var_int value max = do
  refuse_if (ltb max 2) needs_max
  let bytes = signed_byte_len value
  refuse_if (leb max bytes) (malformed "value is too wide for this VarInteger")
  room_for ((len_bits max + bytes * 8) % 2 ^ 16)
  store_uint bytes (len_bits max)
  store_int128 value (bytes * 8)

unfoldable pub store_coins : ℕ → Store (Unit {0})
store_coins nanotons = store_var_uint nanotons 16

same_bit_loop : Bool → ℕ → Store (Unit {0})
same_bit_loop bit zero = λ b. (ok tt, b)
same_bit_loop bit (suc count) = store_bit bit >> same_bit_loop bit count

unfoldable pub store_same_bit : Bool → ℕ → Store (Unit {0})
unfolding same_bit_loop
store_same_bit bit count = room_for count >> same_bit_loop bit count

-- `for bit in bits { self.store_bit(*bit)?; }`
unfoldable pub store_each : List Bool → Store (Unit {0})
store_each [] = λ b. (ok tt, b)
store_each (bit ∷ bits) = store_bit bit >> store_each bits

-- `u16::try_from(n).unwrap_or(u16::MAX)`
abbrev pub as_u16_or_max : ℕ → ℕ
as_u16_or_max n = if ltb n (2 ^ 16) then n else 2 ^ 16 - 1

unfoldable pub store_bits : List Bool → Store (Unit {0})
unfolding store_each
store_bits bits = room_for (as_u16_or_max (length bits)) >> store_each bits
