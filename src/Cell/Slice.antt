-- ===== src/Cell/Slice.antt =====
-- The reading cursor of core/src/cell/slice.rs: a method is an action on the cursor.
-- `load_dict`, `to_builder` and `to_cell` stand with the parts they build on.
pub mod Reads
use ton_net.Base.{
  ℕ, zero, suc, ◌+◌, ◌-◌, ◌*◌, ◌/◌, ◌%◌, ◌^◌, ◌≤◌, ◌<◌, Bool, true, false, not, ◌&&◌, ◌||◌, Option,
  none, some, List, [], ◌∷◌, ◌++◌, bit_or, ltb, leb, ◌==◌, if◌then◌else◌, length, get_elem?,
}
use ton_net.Base.Bits.{bit_value}
use ton_net.Base.Int.{ℤ, pos, negsuc, signed_of}
use ton_net.Base.Result.{Result, ok, err}
use ton_net.Base.Exec.{Exec, pure, raise, lift, refuse_if, then_do, ◌>>=◌, ◌>>◌}
use ton_net.Cell.Error.{CellError, malformed, not_enough_bits, not_enough_refs, too_wide}
use ton_net.Cell.Types.{Cell, cell_data, bit_len, refs}
use ton_net.Cell.Data.{bit_at}
use ton_net.Cell.Data.Runs.{bits_from, read_loop}
use ton_net.Cell.Builder.{len_bits, needs_max}

pub record Slice : Type 0 where
  pub cell : Cell
  pub bit : ℕ
  pub next_ref : ℕ
  pub end_bit : ℕ
  pub end_ref : ℕ

abbrev pub Load : Type 0 → Type 0
Load = Exec CellError Slice

-- `usize::MAX`
abbrev pub usize_max : ℕ
usize_max = 2 ^ 64 - 1

-- `Slice::new`, and so `Cell::parse`
unfoldable pub parse : Cell → Slice
parse cell = record {
  cell = cell;
  bit = 0;
  next_ref = 0;
  end_bit = bit_len cell;
  end_ref = length (refs cell);
}

unfoldable pub remaining_bits : Slice → ℕ
remaining_bits s = s.end_bit - s.bit

unfoldable pub remaining_refs : Slice → ℕ
remaining_refs s = s.end_ref - s.next_ref

unfoldable pub is_empty : Slice → Bool
unfolding remaining_bits remaining_refs
is_empty s = remaining_bits s == 0 && remaining_refs s == 0

unfoldable pub can_read : Slice → ℕ → ℕ → Bool
unfolding remaining_bits remaining_refs
can_read s bits refs = leb bits (remaining_bits s) && leb refs (remaining_refs s)

-- Returns where the run started.
unfoldable pub advance : ℕ → Load ℕ
unfolding remaining_bits
advance n s =
    let available = remaining_bits s in
    if ltb available n
    then (err (not_enough_bits n available), s)
    else (ok s.bit, record s { bit = s.bit + n })

unfoldable pub skip_bits : ℕ → Load (Unit {0})
skip_bits n = do _ ← advance n; pure tt

unfoldable pub load_bit : Load Bool
load_bit = do at ← advance 1; λ s. (ok (bit_at (cell_data s.cell) at), s)

-- `load_uint` and `load_uint128` differ in the width of the word alone.
unfoldable pub load_word : ℕ → ℕ → Load ℕ
load_word width n = do
  refuse_if (ltb width n) (too_wide n width)
  start ← advance n
  λ s. (ok (read_loop width (cell_data s.cell) start n 0), s)

unfoldable pub load_uint : ℕ → Load ℕ
unfolding load_word
load_uint = load_word 64

unfoldable pub load_uint128 : ℕ → Load ℕ
unfolding load_word
load_uint128 = load_word 128

-- The low bytes of `to_be_bytes`.
unfoldable pub load_u8 : Load ℕ
load_u8 = do value ← load_uint 8; pure (value % 2 ^ 8)

unfoldable pub load_u16 : Load ℕ
load_u16 = do value ← load_uint 16; pure (value % 2 ^ 16)

unfoldable pub load_u32 : Load ℕ
load_u32 = do value ← load_uint 32; pure (value % 2 ^ 32)

unfoldable pub load_i32 : Load ℤ
load_i32 = do value ← load_uint 32; pure (signed_of 32 (value % 2 ^ 32))

-- An arithmetic shift to the right.
abbrev pub shift_right : ℤ → ℕ → ℤ
shift_right (pos n) k = pos (n / 2 ^ k)
shift_right (negsuc n) k = negsuc (n / 2 ^ k)

unfoldable pub sign_extend_128 : ℕ → ℕ → ℤ
sign_extend_128 raw bits =
    if bits == 0
    then pos 0
    else shift_right (signed_of 128 (raw * 2 ^ (128 - bits) % 2 ^ 128)) (128 - bits)

-- The bits of a variable integer and their number. A failure behind the length puts the cursor
-- back to where the length began.
or_put_back : {A : Type 0} → ℕ → Result CellError A × Slice → Result CellError A × Slice
or_put_back start (ok a, s) = (ok a, s)
or_put_back start (err e, s) = (err e, record s { bit = start })

read_var_rest : ℕ → ℕ → Load (ℕ × ℕ)
unfolding or_put_back
read_var_rest start len s =
    if leb (2 ^ 32) (len * 8)
    then (err (too_wide len 128), record s { bit = start })
    else or_put_back start ((do raw ← load_uint128 (len * 8); pure (raw, len * 8)) s)

unfoldable pub read_var : ℕ → Load (ℕ × ℕ)
unfolding read_var_rest
read_var max s =
    (do
      refuse_if (ltb max 2) needs_max
      len ← load_uint (len_bits max)
      read_var_rest s.bit (len % 2 ^ 32))
      s

unfoldable pub load_var_uint : ℕ → Load ℕ
load_var_uint max = do (raw, bits) ← read_var max; pure raw

unfoldable pub load_var_int : ℕ → Load ℤ
unfolding sign_extend_128
load_var_int max = do (raw, bits) ← read_var max; pure (sign_extend_128 raw bits)

unfoldable pub load_coins : Load ℕ
load_coins = load_var_uint 16

unfoldable pub load_bits : ℕ → Load (List Bool)
load_bits n = do start ← advance n; λ s. (ok (bits_from (cell_data s.cell) start n), s)

-- One byte of eight bits, and a run of them.
byte_loop : List ℕ → ℕ → ℕ → List ℕ
byte_loop content at zero = []
byte_loop content at (suc n) = read_loop 8 content at 8 0 ∷ byte_loop content (at + 8) n

unfoldable pub load_bytes : ℕ → Load (List ℕ)
unfolding byte_loop remaining_bits
load_bytes n s =
    (if ltb usize_max (n * 8)
        then raise (not_enough_bits usize_max (remaining_bits s))
        else do start ← advance (n * 8); λ s'. (ok (byte_loop (cell_data s'.cell) start n), s'))
      s

unfoldable pub peek_ref : Slice → Result CellError Cell
peek_ref s =
    if leb s.end_ref s.next_ref
    then err not_enough_refs
    else elim (get_elem? (refs s.cell) s.next_ref) [ none ↦ err not_enough_refs | some c ↦ ok c ]

unfoldable pub load_ref : Load Cell
unfolding peek_ref
load_ref = do
  s ← λ s. (ok s, s)
  cell ← lift (peek_ref s)
  λ s'. (ok cell, record s' { next_ref = s'.next_ref + 1 })

unfoldable pub load_maybe_ref : Load (Option Cell)
load_maybe_ref = do
  there ← load_bit
  if there then (do cell ← load_ref; pure (some cell)) else pure none

unfoldable pub load_int : ℕ → Load ℤ
load_int n = do
  refuse_if (ltb 64 n) (too_wide n 64)
  if n == 0 then pure (pos 0) else do
    raw ← load_uint n
    pure (shift_right (signed_of 64 (raw * 2 ^ (64 - n) % 2 ^ 64)) (64 - n))

unfoldable pub load_int128 : ℕ → Load ℤ
unfolding sign_extend_128
load_int128 n = do raw ← load_uint128 n; pure (sign_extend_128 raw n)

unfoldable pub preload_uint : Slice → ℕ → Result CellError ℕ
preload_uint s n = (load_uint n s).0

unfoldable pub preload_bit : Slice → Result CellError Bool
preload_bit s = (load_bit s).0

unfoldable pub skip_refs : ℕ → Load (Unit {0})
unfolding remaining_refs
skip_refs n s =
    if ltb (remaining_refs s) n
    then (err not_enough_refs, s)
    else (ok tt, record s { next_ref = s.next_ref + n })

unfoldable pub skip_bits_and_refs : ℕ → ℕ → Load (Unit {0})
unfolding remaining_bits remaining_refs
skip_bits_and_refs bits refs s =
    if ltb (remaining_bits s) bits
    then (err (not_enough_bits bits (remaining_bits s)), s)
    else if ltb (remaining_refs s) refs
    then (err not_enough_refs, s)
    else (ok tt, record s { bit = s.bit + bits; next_ref = s.next_ref + refs })

-- The sums of the counts are checked in `usize`.
unfoldable pub subslice : Slice → ℕ → ℕ → ℕ → ℕ → Result CellError Slice
unfolding remaining_bits remaining_refs
subslice s skip_bits bits skip_refs refs =
    if ltb usize_max (skip_bits + bits)
    then err (not_enough_bits usize_max (remaining_bits s))
    else if ltb (remaining_bits s) (skip_bits + bits)
    then err (not_enough_bits (skip_bits + bits) (remaining_bits s))
    else if ltb usize_max (skip_refs + refs)
    then err not_enough_refs
    else if ltb (remaining_refs s) (skip_refs + refs)
    then err not_enough_refs
    else ok (record {
      cell = s.cell;
      bit = s.bit + skip_bits;
      next_ref = s.next_ref + skip_refs;
      end_bit = s.bit + skip_bits + bits;
      end_ref = s.next_ref + skip_refs + refs;
    })

unfoldable pub load_slice : ℕ → ℕ → Load Slice
unfolding subslice
load_slice bits refs s = elim (subslice s 0 bits 0 refs) [
  | err e ↦ (err e, s)
  | ok window ↦ (ok window, record s { bit = s.bit + bits; next_ref = s.next_ref + refs })
]
