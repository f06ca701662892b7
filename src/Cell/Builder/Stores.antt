-- ===== src/Cell/Builder/Stores.antt =====
-- What the stores append, and that a store refused for its size has written nothing.
use ton_net.Base.{
  ℕ, zero, suc, ◌+◌, ◌-◌, ◌%◌, ◌^◌, ◌≤◌, ◌<◌, ◌≡◌, refl, sym, ◌∙◌, ap, Bool, true, false, List, [],
  ◌∷◌, ◌++◌, arith, ltb, leb, length, length-append, replicate, lt→ltb,
}
use ton_net.Base.Bits.{bit_test}
use ton_net.Base.Words.{bits_of_word}
use ton_net.Base.Result.{Result, ok, err}
use ton_net.Base.Exec.{then_do, ◌>>◌}
use ton_net.Cell.Error.{CellError, no_room_for_bits, too_wide}
use ton_net.Cell.Builder.{
  Builder, Store, bits_left, room_for, put_bit, store_bit, store_low, store_word, store_each,
  store_bits, store_same_bit, same_bit_loop, does_not_fit, as_u16_or_max,
}
use ton_net.Cell.Builder.Invariant.{IsWf, contents, length-contents, put_bit-IsWf, contents-put_bit}
use native.Mathlib.Decide.{dec_lt}
use mathlib.Core.Bool.{and-false}
use mathlib.Core.List.{append-nil, append_assoc}

-- The outcome of a store that appended `run` to the builder `b`.
pub record Stored (b : Builder) (run : List Bool) (out : Result CellError (Unit {0}) × Builder)
    : Type 0 where
  pub done : out.0 ≡ ok tt
  pub wf : IsWf out.1
  pub holds : contents out.1 ≡ contents b ++ run
  pub refs : out.1.refs ≡ b.refs

pub Stored-bits :
    {b : Builder} {run : List Bool} {out : Result CellError (Unit {0}) × Builder}
    → Stored b run out
    → out.1.bits ≡ b.bits + length run
Stored-bits {b} {run} {out} s = omega (
  arith,
  length-contents b,
  length-contents out.1,
  ap length s.holds,
  length-append (contents b) run,
)

pub Stored-nothing : {b : Builder} → IsWf b → Stored b [] (ok tt, b)
Stored-nothing {b} w = record {
  done = refl;
  wf = w;
  holds = sym (append-nil (contents b));
  refs = refl;
}

-- One store after another.
pub Stored-then :
    {b : Builder} {xs ys : List Bool} (out : Result CellError (Unit {0}) × Builder)
    (rest : Store (Unit {0}))
    → Stored b xs out
    → Stored out.1 ys (rest out.1)
    → Stored b (xs ++ ys) (then_do out (λ _. rest))
Stored-then {b} {xs} {ys} (ok tt, b') rest s t = record {
  done = t.done;
  wf = t.wf;
  holds = t.holds ∙ ap (λ l. l ++ ys) s.holds ∙ append_assoc (contents b) xs ys;
  refs = t.refs ∙ s.refs;
}
Stored-then (err e, b') rest s t = absurd (cc (s.done))

pub store_bit-Stored :
    (bit : Bool) (b : Builder) → IsWf b → b.bits < 1023 → Stored b (bit ∷ []) (store_bit bit b)
unfolding store_bit room_for bits_left
store_bit-Stored bit b w room =
    let fits : ltb (1023 - b.bits) 1 ≡ false = ground arith in
    rw fits (record {
      done = refl;
      wf = put_bit-IsWf b w bit room;
      holds = contents-put_bit b w bit;
      refs = unfold put_bit in refl;
    })

pub store_low-Stored :
    (n value : ℕ) (b : Builder)
    → IsWf b
    → b.bits + n ≤ 1023
    → Stored b (bits_of_word n value) (store_low n value b)
unfolding store_low bits_of_word
store_low-Stored zero value b w room = Stored-nothing w
store_low-Stored (suc n) value b w room =
    let s = store_bit-Stored (bit_test value n) b w (omega arith) in
    Stored-then (store_bit (bit_test value n) b) (store_low n value) s (
      store_low-Stored n value (store_bit (bit_test value n) b).1 s.wf
        (omega (arith, Stored-bits s)))

pub store_each-Stored :
    (run : List Bool) (b : Builder)
    → IsWf b
    → b.bits + length run ≤ 1023
    → Stored b run (store_each run b)
unfolding store_each
store_each-Stored [] b w room = Stored-nothing w
store_each-Stored (x ∷ xs) b w room =
    let s = store_bit-Stored x b w (omega arith) in
    Stored-then (store_bit x b) (store_each xs) s
      (store_each-Stored xs (store_bit x b).1 s.wf (omega (arith, Stored-bits s)))

same_bit_loop-Stored :
    (bit : Bool) (n : ℕ) (b : Builder)
    → IsWf b
    → b.bits + n ≤ 1023
    → Stored b (replicate n bit) (same_bit_loop bit n b)
unfolding same_bit_loop
same_bit_loop-Stored bit zero b w room = Stored-nothing w
same_bit_loop-Stored bit (suc n) b w room =
    let s = store_bit-Stored bit b w (omega arith) in
    Stored-then (store_bit bit b) (same_bit_loop bit n) s
      (same_bit_loop-Stored bit n (store_bit bit b).1 s.wf (omega (arith, Stored-bits s)))

-- `room_for` passes where there is room and refuses where there is none, and changes nothing.
pub room_for-passes : (n : ℕ) (b : Builder) → b.bits + n ≤ 1023 → room_for n b ≡ (ok tt, b)
unfolding room_for bits_left
room_for-passes n b h = ground arith

pub room_for-refuses :
    (n : ℕ) (b : Builder)
    → b.bits ≤ 1023
    → 1023 < b.bits + n
    → room_for n b ≡ (err (no_room_for_bits n (1023 - b.bits)), b)
unfolding room_for bits_left
room_for-refuses n b cap h = ground arith

module _ (width value bits : ℕ) (b : Builder) where
  store_word-too_wide :
      width < bits → store_word width value bits b ≡ (err (too_wide bits width), b)
  unfolding store_word
  store_word-too_wide h = rw (lt→ltb _ _ h)

  store_word-unfit :
      bits < width → 2 ^ bits ≤ value → store_word width value bits b ≡ (err does_not_fit, b)
  unfolding store_word
  store_word-unfit h big =
      let wide : ltb width bits ≡ false = ground arith in
      let over : leb (2 ^ bits) value ≡ true = ground arith in rw (wide, lt→ltb _ _ h, over)

  module _ (narrow : bits ≤ width) (small : width < 2 ^ 16) (fits : value < 2 ^ bits) where
    store_word-checked : store_word width value bits b ≡ (room_for bits >> store_low bits value) b
    unfolding store_word
    store_word-checked =
        let wide : ltb width bits ≡ false = ground arith in
        let over : leb (2 ^ bits) value ≡ false = ground arith in
        let same : bits % 2 ^ 16 ≡ bits = omega arith in rw (wide, over, and-false, same)

    store_word-full :
        b.bits ≤ 1023
        → 1023 < b.bits + bits
        → store_word width value bits b ≡ (err (no_room_for_bits bits (1023 - b.bits)), b)
    store_word-full cap full = rw (store_word-checked, room_for-refuses bits b cap full)

    pub store_word-Stored :
        IsWf b
        → b.bits + bits ≤ 1023
        → Stored b (bits_of_word bits value) (store_word width value bits b)
    store_word-Stored w room =
        rw (store_word-checked, room_for-passes bits b room) (store_low-Stored bits value b w room)

-- `store_uint` and `store_uint128` on every sound builder and every value of the word, whose
-- width is below 2^16: a width over that of the word, a value that does not fit and a builder
-- without room are refused with the builder as it was, and otherwise the low bits of the value
-- are appended.
pub store_word_total :
    (width value bits : ℕ) (b : Builder)
    → width < 2 ^ 16
    → value < 2 ^ width
    → IsWf b
    → (width < bits → store_word width value bits b ≡ (err (too_wide bits width), b))
      × (bits ≤ width → 2 ^ bits ≤ value → store_word width value bits b ≡ (err does_not_fit, b))
      × (bits ≤ width
          → value < 2 ^ bits
          → 1023 < b.bits + bits
          → store_word width value bits b ≡ (err (no_room_for_bits bits (1023 - b.bits)), b))
      × (bits ≤ width
          → value < 2 ^ bits
          → b.bits + bits ≤ 1023
          → Stored b (bits_of_word bits value) (store_word width value bits b))
store_word_total width value bits b small typed w = (
  store_word-too_wide width value bits b,
  λ h big. store_word-unfit width value bits b (strict h big) big,
  λ h fits full. store_word-full width value bits b h small fits w.cap full,
  λ h fits room. store_word-Stored width value bits b h small fits w room,
)
  where
    strict : bits ≤ width → 2 ^ bits ≤ value → bits < width
    strict h big = elim (dec_lt bits width) [
      | yes p ↦ p
      | no p ↦ let e : bits ≡ width = omega arith in absurd (omega (arith, ap (λ (t : ℕ). 2 ^ t) e))
    ]

-- On a sound builder `store_bits` appends the whole run, or refuses it for want of room and
-- leaves the builder as it was.
pub store_bits_total :
    (run : List Bool) (b : Builder)
    → IsWf b
    → (b.bits + length run ≤ 1023 → Stored b run (store_bits run b))
      × (1023 < b.bits + length run
          → store_bits run b
            ≡ (err (no_room_for_bits (as_u16_or_max (length run)) (1023 - b.bits)), b))
unfolding store_bits
store_bits_total run b w = (
  λ room.
      let small : as_u16_or_max (length run) ≡ length run = ground arith in
      rw (small, room_for-passes (length run) b room) (store_each-Stored run b w room),
  λ full. rw (room_for-refuses (as_u16_or_max (length run)) b w.cap (over full)),
)
  where
    over : 1023 < b.bits + length run → 1023 < b.bits + as_u16_or_max (length run)
    over h = ground arith

-- On a sound builder `store_same_bit` appends the bit the given number of times, or refuses for
-- want of room and leaves the builder as it was.
pub store_same_bit_total :
    (bit : Bool) (count : ℕ) (b : Builder)
    → IsWf b
    → (b.bits + count ≤ 1023 → Stored b (replicate count bit) (store_same_bit bit count b))
      × (1023 < b.bits + count
          → store_same_bit bit count b ≡ (err (no_room_for_bits count (1023 - b.bits)), b))
unfolding store_same_bit
store_same_bit_total bit count b w = (
  λ room. rw (room_for-passes count b room) (same_bit_loop-Stored bit count b w room),
  λ full. rw (room_for-refuses count b w.cap full),
)
