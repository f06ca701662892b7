-- ===== src/Cell/Assemble.antt =====
-- The rest of core/src/cell/builder.rs: references, truncation, copies of bytes, slices and
-- builders, and the cell that a builder becomes; `to_builder` and `to_cell` of the cursor.
pub mod RoundTrip
pub mod VarInt
pub mod Coins
pub mod Grown
pub mod Copies
pub mod Held
use ton_net.Base.{
  ℕ, zero, suc, ◌+◌, ◌-◌, ◌*◌, ◌/◌, ◌%◌, ◌^◌, ◌≤◌, ◌<◌, Bool, true, false, ◌&&◌, Option, none, some,
  List, [], ◌∷◌, ◌++◌, min, bit_and, bit_or, ltb, leb, ◌==◌, if◌then◌else◌, length, take, map,
}
use ton_net.Base.Result.{Result, ok, err}
use ton_net.Base.Exec.{Exec, pure, raise, lift, refuse_if, then_do, ◌>>=◌, ◌>>◌}
use ton_net.Cell.Error.{
  CellError, not_enough_bits, not_enough_refs, no_room_for_bits, no_room_for_refs,
}
use ton_net.Cell.Kind.{CellType, ordinary}
use ton_net.Cell.Identity.{Identity, Hash}
use ton_net.Cell.Types.{
  Cell, Refs, as_slice, push, truncate, from_parts, identity, cell_data, refs, max_refs, max_bits,
}
use ton_net.Cell.Data.{bit_at as data_bit, update_last}
use ton_net.Cell.Builder.{
  Builder, Store, empty, bits_left, refs_left, refs_used, room_for, store_bit, store_uint,
  as_u16_or_max,
}
use ton_net.Cell.Slice.{Slice, remaining_bits, remaining_refs, load_bit, load_ref, parse}
use mathlib.Core.List.{foldl}

-- `*last &= 0xffu8 << (8 - (bits % 8))`
unfoldable pub truncate_bits : ℕ → Store (Unit {0})
truncate_bits bits b =
    if ltb b.bits bits
    then (err (not_enough_bits bits b.bits), b)
    else let kept = take ((bits + 7) / 8) b.content in
      (
        ok tt,
        record b {
          content =
              if bits % 8 == 0
              then kept
              else update_last (λ byte. bit_and byte (0xff * 2 ^ (8 - bits % 8) % 256)) kept;
          bits = bits;
        },
      )

unfoldable pub truncate_refs : ℕ → Store (Unit {0})
unfolding refs_used
truncate_refs refs b =
    if ltb (refs_used b) refs
    then (err not_enough_refs, b)
    else (ok tt, record b { refs = truncate b.refs refs })

-- `for byte in bytes { self.store_uint(u64::from(*byte), 8)?; }`
bytes_loop : List ℕ → Store (Unit {0})
bytes_loop [] = pure tt
bytes_loop (byte ∷ bytes) = store_uint byte 8 >> bytes_loop bytes

unfoldable pub store_bytes : List ℕ → Store (Unit {0})
unfolding bytes_loop bits_left
store_bytes bytes b =
    (if leb (2 ^ 16) (length bytes * 8)
        then raise (no_room_for_bits (min (length bytes * 8) (2 ^ 64 - 1)) (bits_left b))
        else (room_for (length bytes * 8) >> bytes_loop bytes))
      b

-- `self.refs.push(cell)?`
push_ref : Cell → Store (Unit {0})
push_ref cell b = elim (push b.refs cell) [
  | err e ↦ (err e, b)
  | ok refs ↦ (ok tt, record b { refs = refs })
]

unfoldable pub store_ref : Cell → Store (Unit {0})
unfolding push_ref refs_used
store_ref cell b =
    (if leb max_refs (refs_used b) then raise (no_room_for_refs max_refs) else push_ref cell) b

unfoldable pub store_maybe_ref : Option Cell → Store (Unit {0})
unfolding refs_used
store_maybe_ref none b = store_bit false b
store_maybe_ref (some cell) b =
    (if leb max_refs (refs_used b)
        then raise (no_room_for_refs max_refs)
        else do room_for 1; store_bit true; store_ref cell)
      b

-- What a read of another cursor hands to a store.
unfoldable pub carry : {A : Type 0} → Result CellError A × Slice → Result CellError (A × Slice)
carry (ok a, s') = ok (a, s')
carry (err e, s') = err e

-- `while slice.remaining_bits() > 0 { self.store_bit(slice.load_bit()?)?; }`. Each round takes
-- one of the bits that were left, so as many rounds as there were bits are enough.
unfoldable pub copy_bits : ℕ → Slice → Store Slice
unfolding remaining_bits carry
copy_bits zero s = pure s
copy_bits (suc rounds) s =
    let rest = lift (carry (load_bit s)) >>= λ r. (store_bit r.0 >> copy_bits rounds r.1) in
    if remaining_bits s == 0 then pure s else rest

unfoldable pub copy_refs : ℕ → Slice → Store Slice
unfolding remaining_refs carry
copy_refs zero s = pure s
copy_refs (suc rounds) s =
    let rest = lift (carry (load_ref s)) >>= λ r. (store_ref r.0 >> copy_refs rounds r.1) in
    if remaining_refs s == 0 then pure s else rest

unfoldable pub store_slice : Slice → Store (Unit {0})
unfolding copy_bits copy_refs remaining_bits remaining_refs refs_left
store_slice slice b =
    (do
      room_for (if ltb (remaining_bits slice) (2 ^ 16) then remaining_bits slice else max_bits)
      refuse_if (ltb (refs_left b) (remaining_refs slice)) (no_room_for_refs max_refs)
      slice' ← copy_bits (remaining_bits slice) slice
      _ ← copy_refs (remaining_refs slice') slice'
      pure tt)
      b

-- `Builder::bit_at`: false past the end
unfoldable pub bit_at : Builder → ℕ → Bool
bit_at b index = if leb b.bits index then false else data_bit b.content index

store_bits_of : Builder → ℕ → ℕ → Store (Unit {0})
unfolding bit_at
store_bits_of other index zero = pure tt
store_bits_of other index (suc n) =
    store_bit (bit_at other index) >> store_bits_of other (index + 1) n

store_refs_of : List Cell → Store (Unit {0})
store_refs_of [] = pure tt
store_refs_of (cell ∷ cells) = store_ref cell >> store_refs_of cells

unfoldable pub store_builder : Builder → Store (Unit {0})
unfolding store_bits_of store_refs_of refs_used refs_left
store_builder other b =
    (do
      room_for other.bits
      refuse_if (ltb (refs_left b) (refs_used other)) (no_room_for_refs max_refs)
      store_bits_of other 0 other.bits
      store_refs_of (as_slice other.refs))
      b

unfoldable pub built_by : Result CellError (Unit {0}) × Builder → Result CellError Builder
built_by (ok done, b) = ok b
built_by (err e, b) = err e

unfoldable pub to_builder : Slice → Result CellError Builder
unfolding store_slice built_by
to_builder s = built_by (store_slice s empty)

-- The completion tag: a set bit behind the data, in the last byte.
unfoldable pub tagged : Builder → List ℕ
tagged b =
    if b.bits % 8 == 0
    then b.content
    else update_last (λ byte. bit_or byte (2 ^ (7 - b.bits % 8))) b.content

module _ (sha256 : List ℕ → Hash) where
  unfoldable pub finish : Builder → CellType → ℕ → Result CellError Cell
  unfolding tagged
  finish b cell_type level_mask = from_parts sha256 (tagged b) b.bits b.refs cell_type level_mask

  unfoldable pub build : Builder → Result CellError Cell
  unfolding finish
  build b =
      finish b ordinary (
        foldl (λ mask child. bit_or mask (Identity.level_mask (identity child))) 0
          (as_slice b.refs))

  unfoldable pub to_cell : Slice → Result CellError Cell
  unfolding to_builder build
  to_cell s = elim (to_builder s) [ err e ↦ err e | ok b ↦ build b ]
