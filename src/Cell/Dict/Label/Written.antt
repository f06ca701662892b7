-- ===== src/Cell/Dict/Label/Written.antt =====
-- What `store_label` has written whenever it succeeds.
use Prim.Native.Nat.{ℕ}
use native.Mathlib.Decide.{dec_le}
use ton_net.Base.{
  ◌+◌, ◌-◌, ◌^◌, ◌≤◌, ◌<◌, ◌≡◌, refl, true, false, [], ltb, leb, arith, Bool-cases, inl, inr,
}
use ton_net.Base.Result.{ok, err}
use ton_net.Base.Exec.{◌>>◌}
use ton_net.Cell.Error.{no_room_for_bits}
use ton_net.Cell.Builder.{
  Builder, store_bit, store_uint, store_same_bit, bits_left, can_extend_by, as_u16_or_max,
}
use ton_net.Cell.Builder.Invariant.{IsWf}
use ton_net.Cell.Assemble.Grown.{
  Grows, Grows-bind, Stored-Grows, refused-Grows, store_bit-Grows, store_uint-Grows,
  store_same_bit-Grows,
}
use ton_net.Cell.Dict.Label.{
  BitRun, bounded_width, Form, short, long, same, choose, store_form, store_label, store_run,
}
use ton_net.Cell.Dict.Label.Forms.{bits_of, encoding, Allowed, choose-first}
use ton_net.Cell.Dict.Label.RoundTrip.{store_run-Stored, bounded_width-fits}

store_run_full :
    (run : BitRun) (b : Builder)
    → b.bits ≤ 1023
    → 1023 < b.bits + run.len
    → store_run run b ≡ (err (no_room_for_bits (as_u16_or_max run.len) (1023 - b.bits)), b)
unfolding store_run can_extend_by bits_left
store_run_full run b cap h =
    let over : leb (as_u16_or_max run.len) (1023 - b.bits) ≡ false = ground arith in rw (over) refl

store_run-Grows :
    (run : BitRun) (b : Builder) → IsWf b → Grows tt b (bits_of run) [] (store_run run b)
store_run-Grows run b w = elim (dec_le (b.bits + run.len) 1023) [
  | yes room ↦ Stored-Grows (store_run-Stored run b w room)
  | no full ↦ refused-Grows (store_run_full run b w.cap (omega arith))
]

module _ (run : BitRun) (width : ℕ) (fits : run.len < 2 ^ width) (narrow : width ≤ 16)
    (small : run.len < 2 ^ 16) where
  store_form-Grows :
      (form : Form) (b : Builder)
      → IsWf b
      → Grows tt b (encoding run width form) [] (store_form run run.len width form b)
  unfolding store_form encoding
  store_form-Grows short b w =
      Grows-bind tt tt (store_bit false b)
        (λ _. store_same_bit true run.len >> (store_bit false >> store_run run))
        (store_bit-Grows false b w)
        (λ b1 g1.
          Grows-bind tt tt (store_same_bit true run.len b1) (λ _. store_bit false >> store_run run)
            (store_same_bit-Grows true run.len b1 g1.wf)
            (λ b2 g2.
              Grows-bind tt tt (store_bit false b2) (λ _. store_run run)
                (store_bit-Grows false b2 g2.wf) (λ b3 g3. store_run-Grows run b3 g3.wf)))
  store_form-Grows long b w =
      Grows-bind tt tt (store_uint 2 2 b) (λ _. store_uint run.len width >> store_run run)
        (store_uint-Grows 2 2 b w (omega arith) (omega arith) (omega arith))
        (λ b1 g1.
          Grows-bind tt tt (store_uint run.len width b1) (λ _. store_run run)
            (store_uint-Grows run.len width b1 g1.wf (omega arith) fits (omega arith))
            (λ b2 g2. store_run-Grows run b2 g2.wf))
  store_form-Grows same b w =
      Grows-bind tt tt (store_uint 3 2 b) (λ _. store_bit (run.bit 0) >> store_uint run.len width)
        (store_uint-Grows 3 2 b w (omega arith) (omega arith) (omega arith))
        (λ b1 g1.
          Grows-bind tt tt (store_bit (run.bit 0) b1) (λ _. store_uint run.len width)
            (store_bit-Grows (run.bit 0) b1 g1.wf)
            (λ b2 g2. store_uint-Grows run.len width b2 g2.wf (omega arith) fits (omega arith)))

-- The form that is chosen can spell the label.
pub chosen-Allowed :
    (run : BitRun) (width : ℕ)
    → run.len < 2 ^ 16
    → width ≤ 16
    → Allowed run (choose run run.len width)
chosen-Allowed run width small narrow = (choose-first run width short small narrow tt).0

-- A label that was stored is no longer than its limit.
pub store_label-fits :
    (run : BitRun) (max : ℕ) (b : Builder)
    → max ≤ 1023
    → (store_label run max b).0 ≡ ok tt
    → run.len ≤ max
unfolding store_label
store_label-fits run max b small h = elim (Bool-cases (ltb max (as_u16_or_max run.len))) [
  | inl over ↦ absurd (cc (rw (over) at h))
  | inr fits ↦ ground arith
]

pub store_label-Grows :
    (run : BitRun) (max : ℕ) (b : Builder)
    → IsWf b
    → max ≤ 1023
    → run.len ≤ max
    → Grows tt b
        (encoding run (bounded_width max) (choose run run.len (bounded_width max)))
        []
        (store_label run max b)
unfolding store_label
store_label-Grows run max b w small short_enough =
    let (fits, narrow) = bounded_width-fits max (omega arith) in
    let width = bounded_width max in
    let len : as_u16_or_max run.len ≡ run.len = ground arith in
    let allowed : ltb max run.len ≡ false = ground arith in
    rw (len, allowed)
      (store_form-Grows run width (omega arith) narrow (omega arith) (choose run run.len width) b w)
