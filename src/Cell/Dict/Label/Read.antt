-- ===== src/Cell/Dict/Label/Read.antt =====
-- Reading a label into a vector and stepping over it.
use ton_net.Base.{
  ℕ, zero, suc, ◌+◌, ◌-◌, ◌≤◌, ◌<◌, ◌≡◌, ◌∙◌, ap, Bool, List, [], ◌∷◌, ◌++◌, replicate, arith,
}
use ton_net.Base.Result.{Result, ok, err}
use ton_net.Base.Exec.{then_do}
use ton_net.Cell.Error.{CellError}
use ton_net.Cell.Types.{cell_data}
use ton_net.Cell.Data.{bit_at}
use ton_net.Cell.Data.Runs.{bits_from}
use ton_net.Cell.Slice.{Slice, load_bit, skip_bits, advance, remaining_bits}
use ton_net.Cell.Slice.Reads.{past}
use ton_net.Cell.Dict.Label.{
  Run, spelled, repeated, vec_sink, read_run, spelled_loop, repeated_loop, fill, read_label_into,
  skip_run, skip_label,
}
use native.Mathlib.Decide.{dec_lt}
use mathlib.Core.List.{append-nil, append_assoc}

advance-there : (n : ℕ) (s : Slice) → n ≤ s.end_bit - s.bit → advance n s ≡ (ok s.bit, past n s)
unfolding advance remaining_bits
advance-there n s h = ground arith

load_bit-there :
    (s : Slice)
    → 1 ≤ s.end_bit - s.bit
    → load_bit s ≡ (ok (bit_at (cell_data s.cell) s.bit), past 1 s)
unfolding load_bit
load_bit-there s h = rw (advance-there 1 s h)

-- A vector takes every bit that the cell has.
pub spelled_loop-there :
    (n : ℕ) (into : List Bool) (s : Slice)
    → n ≤ s.end_bit - s.bit
    → spelled_loop vec_sink n into s ≡ (ok (into ++ bits_from (cell_data s.cell) s.bit n), past n s)
unfolding spelled_loop bits_from
spelled_loop-there zero into s h = let e : s.bit + 0 ≡ s.bit = omega arith in rw (e, append-nil)
spelled_loop-there (suc n) into s h =
    let e : s.bit + suc n ≡ s.bit + 1 + n = omega arith in
    let b = bit_at (cell_data s.cell) s.bit in
    rw (load_bit-there s (omega arith), e)
      (spelled_loop-there n (into ++ (b ∷ [])) (past 1 s) (omega arith)
        ∙ rw (append_assoc into (b ∷ []) (bits_from (cell_data s.cell) (s.bit + 1) n)))

-- It never takes more.
pub spelled_loop-fits :
    (n : ℕ) (into held : List Bool) (s s' : Slice)
    → spelled_loop vec_sink n into s ≡ (ok held, s')
    → n ≤ s.end_bit - s.bit
unfolding spelled_loop
spelled_loop-fits zero into held s s' h = omega arith
spelled_loop-fits (suc n) into held s s' h = elim (dec_lt 0 (s.end_bit - s.bit)) [
  | yes there ↦
      let e = load_bit-there s there in
      let b = bit_at (cell_data s.cell) s.bit in
      omega (arith, spelled_loop-fits n (into ++ (b ∷ [])) held (past 1 s) s' (rw e at h))
  | no none_left ↦ absurd (stuck (omega arith) h)
]
  where
    stuck : s.end_bit - s.bit ≡ 0 → spelled_loop vec_sink (suc n) into s ≡ (ok held, s') → ⊥
    stuck e h = unfold load_bit advance remaining_bits in ground arith

pub repeated_loop-ok :
    (value : Bool) (n : ℕ) (into : List Bool)
    → repeated_loop vec_sink value n into ≡ ok (into ++ replicate n value)
unfolding repeated_loop
repeated_loop-ok value zero into = rw append-nil
repeated_loop-ok value (suc n) into =
    repeated_loop-ok value n (into ++ (value ∷ []))
    ∙ ap ok (append_assoc into (value ∷ []) (replicate n value))

fill-skip :
    (out : Result CellError Run × Slice) (held : List Bool) (s' : Slice)
    → then_do out (fill vec_sink []) ≡ (ok held, s')
    → then_do out skip_run ≡ (ok tt, s')
unfolding fill skip_run skip_bits
fill-skip (ok (spelled n), s) held s' h =
    let fits = spelled_loop-fits n [] held s s' h in
    rw (advance-there n s fits) (cc (h, spelled_loop-there n [] s fits))
fill-skip (ok (repeated value n), s) held s' h = cc h
fill-skip (err e, s) held s' h = cc

skip-fill :
    (out : Result CellError Run × Slice) (s' : Slice)
    → then_do out skip_run ≡ (ok tt, s')
    → (held : List Bool) × (then_do out (fill vec_sink []) ≡ (ok held, s'))
unfolding fill skip_run skip_bits
skip-fill (ok (spelled n), s) s' h = elim (dec_lt (s.end_bit - s.bit) n) [
  | yes over ↦ absurd (stuck over h)
  | no fits ↦
      let e = advance-there n s (omega arith) in
      (
        [] ++ bits_from (cell_data s.cell) s.bit n,
        spelled_loop-there n [] s (omega arith) ∙ cc (rw e at h),
      )
]
  where
    stuck : s.end_bit - s.bit < n → then_do (ok (spelled n), s) skip_run ≡ (ok tt, s') → ⊥
    stuck over h = unfold advance remaining_bits in ground arith
skip-fill (ok (repeated value n), s) s' h = (replicate n value, cc (h, repeated_loop-ok value n []))
skip-fill (err e, s) s' h = cc

-- Where reading a label succeeds, stepping over it succeeds and leaves the cursor at the same
-- place, and the other way round.
pub read_label-skip_label :
    (max : ℕ) (into : List Bool) (s s' : Slice)
    → ((held : List Bool)
        → read_label_into vec_sink max into s ≡ (ok held, s')
        → skip_label max s ≡ (ok tt, s'))
      × (skip_label max s ≡ (ok tt, s')
          → (held : List Bool) × (read_label_into vec_sink max into s ≡ (ok held, s')))
unfolding read_label_into skip_label
read_label-skip_label max into s s' =
    (λ held h. fill-skip (read_run max s) held s' h, λ h. skip-fill (read_run max s) s' h)
