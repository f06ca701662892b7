-- ===== src/Cell/Assemble/Coins.antt =====
-- Amounts in nanotons: `VarUInteger 16`.
use ton_net.Base.{ℕ, zero, suc, ◌+◌, ◌*◌, ◌^◌, ◌≤◌, ◌<◌, ◌≡◌, List, Bool, map, All, arith, leb}
use ton_net.Base.Result.{ok, err}
use ton_net.Cell.Error.{malformed}
use ton_net.Cell.Identity.{Hash}
use ton_net.Cell.Level.{leading_zeros}
use ton_net.Cell.Types.{Cell, as_slice, identity}
use ton_net.Cell.Builder.{Builder, store_var_uint, store_coins, unsigned_byte_len, len_bits}
use ton_net.Cell.Builder.Invariant.{IsWf}
use ton_net.Cell.Slice.{parse, load_coins}
use ton_net.Cell.Slice.Reads.{past}
use ton_net.Cell.Assemble.{build}
use ton_net.Cell.Assemble.RoundTrip.{IsMask, build-Stored}
use ton_net.Cell.Assemble.VarInt.{
  unsigned_byte_len-fits, unsigned_byte_len-tight, store_var_uint-Stored, load_var_uint-Spells,
  var_uint_bits,
}
use native.Mathlib.Nat.{pow-le-pow_right}
use native.Mathlib.Decide.{dec_lt}

fifteen_bytes : (value : ℕ) → value < 2 ^ 120 → unsigned_byte_len value < 16
fifteen_bytes zero h = unfold unsigned_byte_len in omega arith
fifteen_bytes (suc v) h = elim (dec_lt (unsigned_byte_len (suc v)) 16) [
  | yes p ↦ p
  | no p ↦
      let all : unsigned_byte_len (suc v) ≡ 16 =
        omega (arith, (unsigned_byte_len-fits (suc v) (omega arith)).1) in
      absurd
        (omega (arith, rw all at (unsigned_byte_len-tight (suc v) (omega arith) (omega arith))))
]

sixteen_bytes : (value : ℕ) → value < 2 ^ 128 → 2 ^ 120 ≤ value → 16 ≤ unsigned_byte_len value
sixteen_bytes value typed big = elim (dec_lt (unsigned_byte_len value) 16) [
  | no p ↦ omega arith
  | yes p ↦
      let low : unsigned_byte_len value * 8 ≤ 120 = omega arith in
      absurd (
        omega (
          arith,
          (unsigned_byte_len-fits value typed).0,
          pow-le-pow_right {n = 2} (omega arith) low,
        ))
]

module _ (sha256 : List ℕ → Hash) where
  -- For a sound builder with room and references with masks below 8, an amount below 2^120 that
  -- is stored reads back from the built cell as itself, and the cursor is then past what was
  -- stored. Any other `u128` is refused, and nothing is written.
  pub store_coins-load_coins :
      (b : Builder) (value : ℕ)
      → IsWf b
      → value < 2 ^ 128
      → b.bits + (4 + unsigned_byte_len value * 8) ≤ 1023
      → All IsMask (map identity (as_slice b.refs))
      → (value < 2 ^ 120
          → (cell : Cell) × (build sha256 (store_coins value b).1 ≡ ok cell)
            × (load_coins (past b.bits (parse cell)) ≡ (
              ok value,
              past (unsigned_byte_len value * 8) (past 4 (past b.bits (parse cell))),
            )))
        × (2 ^ 120 ≤ value
            → store_coins value b ≡ (err (malformed "value is too wide for this VarUInteger"), b))
  unfolding store_coins load_coins len_bits leading_zeros
  store_coins-load_coins b value w typed room masks = (
    λ small.
        let few = fifteen_bytes value small in
        let s = store_var_uint-Stored value 16 (omega arith) (omega arith) typed few b w room in
        let (cell, e, back) =
          build-Stored sha256 b (var_uint_bits value 16) (store_var_uint value 16 b) s masks in
        let read =
          (load_var_uint-Spells value 16 (omega arith) (omega arith) typed few
            (past b.bits (parse cell)) List.[] back).0 in
        (cell, e, read),
    λ big.
        let wide : leb 16 (unsigned_byte_len value) ≡ Bool.true =
          ground (arith, sixteen_bytes value typed big) in
        unfold store_var_uint in rw wide,
  )
