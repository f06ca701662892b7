-- ===== src/Cell/Dict/Label/RoundTrip.antt =====
-- What `store_label` appends reads back as the label, from any of its encodings.
use ton_net.Base.{
  ℕ, zero, suc, ◌+◌, ◌-◌, ◌*◌, ◌^◌, ◌≤◌, ◌<◌, ◌≡◌, true, false, ltb, leb, length, length-replicate,
  arith,
}
use ton_net.Base.Words.{length-bits_of_word}
use ton_net.Cell.Level.Bounds.{leading_zeros-le, leading_zeros-fits}
use ton_net.Cell.Builder.{
  Builder, store_bit, store_uint, store_same_bit, store_word, as_u16_or_max, can_extend_by,
  bits_left, refs_left,
}
use ton_net.Cell.Builder.Invariant.{IsWf}
use ton_net.Cell.Builder.Stores.{
  Stored, Stored-then, Stored-bits, Stored-nothing, store_bit-Stored, store_word-Stored,
  store_same_bit_total,
}
use ton_net.Cell.Dict.Label.{
  BitRun, bounded_width, Form, short, long, same, choose, store_form, store_label, store_run,
  run_loop,
}
use ton_net.Cell.Dict.Label.Forms.{run_bits, bits_of, encoding, length-encoding}

run_loop-Stored :
    (run : BitRun) (index n : ℕ) (b : Builder)
    → IsWf b
    → b.bits + n ≤ 1023
    → Stored b (run_bits run index n) (run_loop run index n b)
unfolding run_loop run_bits
run_loop-Stored run index zero b w room = Stored-nothing w
run_loop-Stored run index (suc n) b w room =
    let s = store_bit-Stored (run.bit index) b w (omega arith) in
    Stored-then (store_bit (run.bit index) b) (run_loop run (index + 1) n) s (
      run_loop-Stored run (index + 1) n (store_bit (run.bit index) b).1 s.wf
        (omega (arith, Stored-bits s)))

pub store_run-Stored :
    (run : BitRun) (b : Builder)
    → IsWf b
    → b.bits + run.len ≤ 1023
    → Stored b (bits_of run) (store_run run b)
unfolding store_run can_extend_by bits_left
store_run-Stored run b w room =
    let small : as_u16_or_max run.len ≡ run.len = ground arith in
    let bits : leb run.len (1023 - b.bits) ≡ true = ground arith in
    let refs : leb 0 (refs_left b) ≡ true = ground arith in
    rw (small, bits, refs) (run_loop-Stored run 0 run.len b w room)

pub bounded_width-fits :
    (max : ℕ) → max < 2 ^ 16 → (max < 2 ^ bounded_width max) × (bounded_width max ≤ 16)
unfolding bounded_width
bounded_width-fits max h = (leading_zeros-fits 16 max h, omega (arith, leading_zeros-le 16 max))

module _ (run : BitRun) (width : ℕ) (fits : run.len < 2 ^ width) (narrow : width ≤ 16) where
  store_form-Stored :
      (form : Form) (b : Builder)
      → IsWf b
      → b.bits + length (encoding run width form) ≤ 1023
      → Stored b (encoding run width form) (store_form run run.len width form b)
  unfolding store_form store_uint
  store_form-Stored short b w room =
      let room' : b.bits + (2 * run.len + 2) ≤ 1023 =
        omega (arith, room, (length-encoding run width).0) in
      let s1 = store_bit-Stored false b w (omega arith) in
      let b1 = (store_bit false b).1 in
      let s2 = (store_same_bit_total true run.len b1 s1.wf).0 (omega (arith, Stored-bits s1)) in
      let b2 = (store_same_bit true run.len b1).1 in
      let held2 : b2.bits ≡ b1.bits + run.len =
        omega (arith, Stored-bits s2, length-replicate run.len true) in
      let s3 = store_bit-Stored false b2 s2.wf (omega (arith, Stored-bits s1, held2)) in
      let b3 = (store_bit false b2).1 in
      let s4 =
        store_run-Stored run b3 s3.wf (omega (arith, Stored-bits s1, held2, Stored-bits s3)) in
      unfold encoding in
      Stored-then (store_bit false b) _ s1 (
        Stored-then (store_same_bit true run.len b1) _ s2
          (Stored-then (store_bit false b2) _ s3 s4))
  store_form-Stored long b w room =
      let room' : b.bits + (2 + width + run.len) ≤ 1023 =
        omega (arith, room, (length-encoding run width).1) in
      let s1 =
        store_word-Stored 64 2 2 b (omega arith) (omega arith) (omega arith) w (omega arith) in
      let b1 = (store_word 64 2 2 b).1 in
      let held1 : b1.bits ≡ b.bits + 2 = omega (arith, Stored-bits s1, length-bits_of_word 2 2) in
      let s2 =
        store_word-Stored 64 run.len width b1 (omega arith) (omega arith) fits s1.wf
          (omega (arith, held1)) in
      let b2 = (store_word 64 run.len width b1).1 in
      let s3 =
        store_run-Stored run b2 s2.wf
          (omega (arith, held1, Stored-bits s2, length-bits_of_word width run.len)) in
      unfold encoding in
      Stored-then (store_word 64 2 2 b) _ s1 (Stored-then (store_word 64 run.len width b1) _ s2 s3)
  store_form-Stored same b w room =
      let room' : b.bits + (3 + width) ≤ 1023 =
        omega (arith, room, (length-encoding run width).2) in
      let s1 =
        store_word-Stored 64 3 2 b (omega arith) (omega arith) (omega arith) w (omega arith) in
      let b1 = (store_word 64 3 2 b).1 in
      let held1 : b1.bits ≡ b.bits + 2 = omega (arith, Stored-bits s1, length-bits_of_word 2 3) in
      let s2 = store_bit-Stored (run.bit 0) b1 s1.wf (omega (arith, held1)) in
      let b2 = (store_bit (run.bit 0) b1).1 in
      let s3 =
        store_word-Stored 64 run.len width b2 (omega arith) (omega arith) fits s2.wf
          (omega (arith, held1, Stored-bits s2)) in
      unfold encoding in
      Stored-then (store_word 64 3 2 b) _ s1 (Stored-then (store_bit (run.bit 0) b1) _ s2 s3)

-- A label no longer than its limit, itself below 2^16, is appended to a sound builder in the form
-- that is chosen for it, where that fits.
pub store_label-Stored :
    (run : BitRun) (max : ℕ) (b : Builder)
    → IsWf b
    → run.len ≤ max
    → max < 2 ^ 16
    → (let width = bounded_width max in
        b.bits + length (encoding run width (choose run run.len width)) ≤ 1023)
    → (let width = bounded_width max in
        Stored b (encoding run width (choose run run.len width)) (store_label run max b))
unfolding store_label
store_label-Stored run max b w short_enough small room =
    let (fits, narrow) = bounded_width-fits max small in
    let width = bounded_width max in
    let len : as_u16_or_max run.len ≡ run.len = ground arith in
    let allowed : ltb max run.len ≡ false = ground arith in
    rw (len, allowed)
      (store_form-Stored run width (omega arith) narrow (choose run run.len width) b w room)
