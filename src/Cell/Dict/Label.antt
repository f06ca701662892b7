-- ===== src/Cell/Dict/Label.antt =====
-- Edge labels: the codec of core/src/cell/dict/label.rs. The writer is over a run of bits and the
-- reader over a sink, as in the source.
pub mod Read
pub mod Forms
pub mod RoundTrip
pub mod Decode
pub mod Written
pub mod Kept
use ton_net.Base.{
  ℕ, zero, suc, ◌+◌, ◌-◌, ◌*◌, ◌%◌, ◌^◌, Bool, true, false, not, ◌&&◌, List, [], ◌∷◌, ◌++◌, ltb,
  leb, ◌==◌, if◌then◌else◌, length, Option, none, some, get_elem?,
}
use ton_net.Base.Result.{Result, ok, err}
use ton_net.Base.Exec.{Exec, pure, raise, lift, refuse_if, then_do, ◌>>=◌, ◌>>◌}
use ton_net.Cell.Error.{CellError, label_too_long, no_room_for_bits}
use ton_net.Cell.Level.{leading_zeros}
use ton_net.Cell.Builder.{
  Builder, Store, bits_left, can_extend_by, store_bit, store_uint, store_same_bit, as_u16_or_max,
}
use ton_net.Cell.Slice.{Slice, Load, load_bit, load_uint, skip_bits}

-- The width of a `#<= max` field, for a `u16`.
unfoldable pub bounded_width : ℕ → ℕ
bounded_width max = 16 - leading_zeros 16 max

-- `trait BitRun`: a length, and a bit at each place, false past the end.
pub record BitRun : Type 0 where
  pub len : ℕ
  pub bit : ℕ → Bool

-- `impl BitRun for [bool]`
unfoldable pub bool_at : List Bool → ℕ → Bool
bool_at bits index = elim (get_elem? bits index) [ none ↦ false | some bit ↦ bit ]

unfoldable pub bool_run : List Bool → BitRun
unfolding bool_at
bool_run bits = record { len = length bits; bit = bool_at bits }

-- `trait LabelSink`, less `make_room`, which reserves memory alone.
pub record LabelSink (S : Type 0) : Type 0 where
  pub reset : S → S
  pub write_bit : Bool → S → Result CellError S

-- `impl LabelSink for Vec<bool>`
abbrev pub vec_sink : LabelSink (List Bool)
vec_sink = record { reset = λ held. []; write_bit = λ bit held. ok (held ++ (bit ∷ [])) }

-- What a label header says.
pub data Run : Type 0 where
  spelled : ℕ → Run
  repeated : Bool → ℕ → Run

-- `while slice.load_bit()? { len += 1; if len > max { return Err(..) } }`. The count passes `max`
-- in round `max + 1` at the latest, so that many rounds are enough.
unfoldable pub unary_loop : ℕ → ℕ → ℕ → Load ℕ
unary_loop zero max len = raise label_too_long
unary_loop (suc rounds) max len =
    let rest = unary_loop rounds max (len + 1) in
    load_bit >>= λ bit.
    if bit then (if ltb max (len + 1) then raise label_too_long else rest) else pure len

-- The explicit length of the long and the repeated form, `as u16`.
unfoldable pub explicit_len : ℕ → Load ℕ
explicit_len max = do
  raw ← load_uint (bounded_width max)
  let len = raw % 2 ^ 16
  if ltb max len then raise label_too_long else pure len

unfoldable pub read_run : ℕ → Load Run
read_run max = do
  tagged ← load_bit
  if not tagged then (do len ← unary_loop (max + 1) max 0; pure (spelled len)) else do
    same ← load_bit
    if not same
        then (do len ← explicit_len max; pure (spelled len))
        else do value ← load_bit; len ← explicit_len max; pure (repeated value len)

module _ {S : Type 0} (sink : LabelSink S) where
  -- `for _ in 0..count { into.write_bit(slice.load_bit()?)?; }`
  unfoldable pub spelled_loop : ℕ → S → Load S
  spelled_loop zero into = pure into
  spelled_loop (suc count) into = do
    bit ← load_bit
    into' ← lift (LabelSink.write_bit sink bit into)
    spelled_loop count into'

  unfoldable pub repeated_loop : Bool → ℕ → S → Result CellError S
  repeated_loop value zero into = ok into
  repeated_loop value (suc count) into = elim (LabelSink.write_bit sink value into) [
    | err e ↦ err e
    | ok into' ↦ repeated_loop value count into'
  ]

  unfoldable pub fill : S → Run → Load S
  fill into (spelled count) = spelled_loop count into
  fill into (repeated value count) = lift (repeated_loop value count into)

  unfoldable pub read_label_into : ℕ → S → Load S
  unfolding fill
  read_label_into max into = do run ← read_run max; fill (LabelSink.reset sink into) run

-- A repeated run spells its bits nowhere, so there is nothing to step over.
unfoldable pub skip_run : Run → Load (Unit {0})
skip_run (spelled count) = skip_bits count
skip_run (repeated value count) = pure tt

unfoldable pub skip_label : ℕ → Load (Unit {0})
unfolding skip_run
skip_label max = do run ← read_run max; skip_run run

run_loop : BitRun → ℕ → ℕ → Store (Unit {0})
run_loop run index zero = pure tt
run_loop run index (suc n) = store_bit (run.bit index) >> run_loop run (index + 1) n

unfoldable pub store_run : BitRun → Store (Unit {0})
unfolding run_loop can_extend_by bits_left
store_run run b =
    (if not (can_extend_by b (as_u16_or_max run.len) 0)
        then raise (no_room_for_bits (as_u16_or_max run.len) (bits_left b))
        else run_loop run 0 run.len)
      b

abbrev pub eq_bool : Bool → Bool → Bool
eq_bool true b = b
eq_bool false b = not b

-- `(1..label.len()).all(|index| label.bit(index) == first)`
all_same : BitRun → ℕ → ℕ → Bool
all_same run index zero = true
all_same run index (suc n) = eq_bool (run.bit index) (run.bit 0) && all_same run (index + 1) n

-- The three costs, and the form they choose: the shortest, and the earliest of two as short.
pub data Form : Type 0 where
  short long same : Form

unfoldable pub pick : Bool → ℕ → ℕ → Form
pick all_one len width =
    let short_cost = 2 * len + 2 in
    let long_cost = 2 + width + len in
    let same_cost = if all_one then 3 + width else 2 ^ 32 - 1 in
    if leb short_cost long_cost && leb short_cost same_cost
    then short
    else if leb long_cost same_cost
    then long
    else same

unfoldable pub choose : BitRun → ℕ → ℕ → Form
unfolding all_same pick
choose label len width = pick (all_same label 1 (label.len - 1)) len width

unfoldable pub store_form : BitRun → ℕ → ℕ → Form → Store (Unit {0})
store_form label len width short =
    store_bit false >> (store_same_bit true len >> (store_bit false >> store_run label))
store_form label len width long = store_uint 2 2 >> (store_uint len width >> store_run label)
store_form label len width same =
    store_uint 3 2 >> (store_bit (label.bit 0) >> store_uint len width)

unfoldable pub store_label : BitRun → ℕ → Store (Unit {0})
unfolding choose store_form
store_label label max =
    let len = as_u16_or_max label.len in
    let width = bounded_width max in
    if ltb max len
    then raise label_too_long
    else store_form label len width (choose label len width)
