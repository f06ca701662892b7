-- ===== src/Cell/Slice/Reads.antt =====
-- What the reads return: the bits at the cursor, or an error with the cursor where it was.
use ton_net.Base.{
  ℕ, suc, ◌+◌, ◌-◌, ◌^◌, ◌≤◌, ◌<◌, ◌≡◌, refl, ◌∙◌, Bool, false, List, [], ◌∷◌, ◌++◌, arith, ltb,
  length, length-append, lt→ltb,
}
use ton_net.Base.Words.{word_from, bits_of_word, length-bits_of_word, word_of_bits, word_from-lt}
use ton_net.Base.Result.{ok, err}
use ton_net.Cell.Error.{not_enough_bits, too_wide}
use ton_net.Cell.Types.{cell_data, bit_len, refs}
use ton_net.Cell.Data.{bit_at}
use ton_net.Cell.Data.Runs.{bits_from, length-bits_from, read_loop-word_from}
use ton_net.Cell.Slice.{Slice, remaining_bits, advance, load_bit, load_word, load_bits, skip_bits}

-- The cursor stands inside its window and the window inside the cell.
pub record IsWf (s : Slice) : Type 0 where
  pub bits : s.bit ≤ s.end_bit
  pub end_bits : s.end_bit ≤ bit_len s.cell
  pub refs_in : s.next_ref ≤ s.end_ref
  pub end_refs : s.end_ref ≤ length (refs s.cell)

-- The cursor after `n` more bits.
abbrev pub past : ℕ → Slice → Slice
past n s = record s { bit = s.bit + n }

-- The bits at the cursor, inside its window, begin with `run`.
pub record Spells (s : Slice) (run : List Bool) : Type 0 where
  pub inside : s.bit + length run ≤ s.end_bit
  pub spelled : bits_from (cell_data s.cell) s.bit (length run) ≡ run

pub advance-ok : (n : ℕ) (s : Slice) → s.bit + n ≤ s.end_bit → advance n s ≡ (ok s.bit, past n s)
unfolding advance remaining_bits
advance-ok n s h = ground arith

pub advance-short :
    (n : ℕ) (s : Slice)
    → s.bit ≤ s.end_bit
    → s.end_bit < s.bit + n
    → advance n s ≡ (err (not_enough_bits n (s.end_bit - s.bit)), s)
unfolding advance remaining_bits
advance-short n s w h = ground arith

module _ (width n : ℕ) (s : Slice) where
  load_word-too_wide : width < n → load_word width n s ≡ (err (too_wide n width), s)
  unfolding load_word
  load_word-too_wide h = rw (lt→ltb _ _ h)

  load_word-short :
      n ≤ width
      → s.bit ≤ s.end_bit
      → s.end_bit < s.bit + n
      → load_word width n s ≡ (err (not_enough_bits n (s.end_bit - s.bit)), s)
  unfolding load_word
  load_word-short narrow w h =
      let wide : ltb width n ≡ false = ground arith in rw (wide, advance-short n s w h)

  load_word-ok :
      n ≤ width
      → s.bit + n ≤ s.end_bit
      → load_word width n s ≡ (ok (word_from 0 (bits_from (cell_data s.cell) s.bit n)), past n s)
  unfolding load_word
  load_word-ok narrow h =
      let wide : ltb width n ≡ false = ground arith in
      rw (wide, advance-ok n s h)
        (rw (read_loop-word_from width (cell_data s.cell) n 0 s.bit 0 (omega arith) (omega arith)))

-- `load_uint` and `load_uint128` on every cursor inside its window, itself inside the cell: a
-- width over that of the word and a window that ends too soon are refused with the cursor as it
-- was, and otherwise the value is the number that the next bits spell, below the power of two of
-- their number, and the cursor is past them.
pub load_word_total :
    (width n : ℕ) (s : Slice)
    → IsWf s
    → (width < n → load_word width n s ≡ (err (too_wide n width), s))
      × (n ≤ width
          → s.end_bit < s.bit + n
          → load_word width n s ≡ (err (not_enough_bits n (s.end_bit - s.bit)), s))
      × (n ≤ width
          → s.bit + n ≤ s.end_bit
          → (load_word width n s
              ≡ (ok (word_from 0 (bits_from (cell_data s.cell) s.bit n)), past n s))
            × (word_from 0 (bits_from (cell_data s.cell) s.bit n) < 2 ^ n))
load_word_total width n s w = (
  load_word-too_wide width n s,
  λ narrow h. load_word-short width n s narrow w.bits h,
  λ narrow h. (load_word-ok width n s narrow h, below),
)
  where
    run : List Bool
    run = bits_from (cell_data s.cell) s.bit n

    below : word_from 0 run < 2 ^ n
    below =
        let e : 0 + length run ≡ n = omega (arith, length-bits_from (cell_data s.cell) s.bit n) in
        rw e at (word_from-lt 0 0 run (omega arith))

split_run :
    (content : List ℕ) (at : ℕ) (xs ys : List Bool)
    → bits_from content at (length (xs ++ ys)) ≡ xs ++ ys
    → (bits_from content at (length xs) ≡ xs)
      × (bits_from content (at + length xs) (length ys) ≡ ys)
unfolding bits_from
split_run content at [] ys h = let e : at + 0 ≡ at = omega arith in rw e (refl, h)
split_run content at (x ∷ xs) ys h =
    let e : at + suc (length xs) ≡ at + 1 + length xs = omega arith in
    let tails : bits_from content (at + 1) (length (xs ++ ys)) ≡ xs ++ ys = cc in
    let (front, back) = split_run content (at + 1) xs ys tails in rw e (cc (front), back)

-- The front of a run that is spelled out, and what is behind it.
pub Spells-front : (s : Slice) (xs ys : List Bool) → Spells s (xs ++ ys) → Spells s xs
Spells-front s xs ys h = record {
  inside = omega (arith, h.inside, length-append xs ys);
  spelled = (split_run (cell_data s.cell) s.bit xs ys h.spelled).0;
}

pub Spells-back :
    (s : Slice) (xs ys : List Bool) → Spells s (xs ++ ys) → Spells (past (length xs) s) ys
Spells-back s xs ys h = record {
  inside = omega (arith, h.inside, length-append xs ys);
  spelled = (split_run (cell_data s.cell) s.bit xs ys h.spelled).1;
}

-- A number whose bits are at the cursor is read back, and the cursor is past them.
pub load_word-Spells :
    (width n value : ℕ) (s : Slice) (rest : List Bool)
    → n ≤ width
    → value < 2 ^ n
    → Spells s (bits_of_word n value ++ rest)
    → (load_word width n s ≡ (ok value, past n s)) × Spells (past n s) rest
load_word-Spells width n value s rest narrow small h =
    let run = bits_of_word n value in
    let front = Spells-front s run rest h in
    let e : length run ≡ n = length-bits_of_word n value in
    let there : s.bit + n ≤ s.end_bit = omega (arith, front.inside, e) in
    let read : bits_from (cell_data s.cell) s.bit n ≡ run = rw e at front.spelled in
    (
      load_word-ok width n s narrow there ∙ rw (read, word_of_bits n value small),
      rw e at (Spells-back s run rest h),
    )

pub load_bit-Spells :
    (bit : Bool) (s : Slice) (rest : List Bool)
    → Spells s (bit ∷ rest)
    → (load_bit s ≡ (ok bit, past 1 s)) × Spells (past 1 s) rest
unfolding load_bit bits_from
load_bit-Spells bit s rest h =
    let front = Spells-front s (bit ∷ []) rest h in
    let here : bit_at (cell_data s.cell) s.bit ≡ bit = cc (front.spelled) in
    (rw (advance-ok 1 s (omega (arith, front.inside)), here), Spells-back s (bit ∷ []) rest h)

pub load_bits-Spells :
    (run : List Bool) (s : Slice) (rest : List Bool)
    → Spells s (run ++ rest)
    → (load_bits (length run) s ≡ (ok run, past (length run) s)) × Spells (past (length run) s) rest
unfolding load_bits
load_bits-Spells run s rest h =
    let front = Spells-front s run rest h in
    (
      rw (advance-ok (length run) s (omega (arith, front.inside)), front.spelled),
      Spells-back s run rest h,
    )

pub skip_bits-Spells :
    (run : List Bool) (s : Slice) (rest : List Bool)
    → Spells s (run ++ rest)
    → (skip_bits (length run) s ≡ (ok tt, past (length run) s)) × Spells (past (length run) s) rest
unfolding skip_bits
skip_bits-Spells run s rest h =
    let front = Spells-front s run rest h in
    (rw (advance-ok (length run) s (omega (arith, front.inside))), Spells-back s run rest h)
