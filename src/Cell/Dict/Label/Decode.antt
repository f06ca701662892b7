-- ===== src/Cell/Dict/Label/Decode.antt =====
-- Reading any of the three encodings of a label.
use ton_net.Base.{
  ℕ, zero, suc, ◌+◌, ◌%◌, ◌^◌, ◌≤◌, ◌<◌, ◌≡◌, refl, sym, ◌∙◌, ap, Bool, true, false, List, [], ◌∷◌,
  ◌++◌, ltb, length, replicate, arith,
}
use ton_net.Base.Words.{bits_of_word}
use ton_net.Base.Result.{Result, ok}
use ton_net.Cell.Error.{CellError}
use ton_net.Cell.Slice.{Slice, load_uint}
use ton_net.Cell.Slice.Reads.{
  Spells, past, load_bit-Spells, load_word-Spells, Spells-front, Spells-back,
}
use ton_net.Cell.Dict.Label.{
  BitRun, spelled, repeated, vec_sink, unary_loop, explicit_len, read_run, spelled_loop, fill,
  read_label_into, bounded_width, Form, short, long, same,
}
use ton_net.Cell.Dict.Label.Read.{spelled_loop-there, repeated_loop-ok}
use ton_net.Cell.Dict.Label.Forms.{bits_of, length-run_bits, encoding, length-encoding, Allowed}
use ton_net.Cell.Dict.Label.RoundTrip.{bounded_width-fits}
use mathlib.Core.List.{append_assoc}

-- A read that ends with a value and a cursor before the rest.
pub record Reads {A : Type 0} (s : Slice) (n : ℕ) (rest : List Bool) (value : A)
    (out : Result CellError A × Slice) : Type 0 where
  pub result : out ≡ (ok value, past n s)
  pub after : Spells (past n s) rest

past-past : (m n : ℕ) (s : Slice) → past n (past m s) ≡ past (m + n) s
past-past m n s =
    let e : s.bit + m + n ≡ s.bit + (m + n) = omega arith in ap (λ at. record s { bit = at }) e

unary_loop-Reads :
    (k rounds max len : ℕ) (s : Slice) (rest : List Bool)
    → k < rounds
    → len + k ≤ max
    → Spells s (replicate k true ++ (false ∷ rest))
    → Reads s (k + 1) rest (len + k) (unary_loop rounds max len s)
unfolding unary_loop
unary_loop-Reads k zero max len s rest enough fits h = absurd (omega arith)
unary_loop-Reads zero (suc rounds) max len s rest enough fits h =
    let (e, back) = load_bit-Spells false s rest h in
    let z : len + 0 ≡ len = omega arith in
    let o : 0 + 1 ≡ 1 = refl in record { result = rw (e, z); after = back }
unary_loop-Reads (suc k) (suc rounds) max len s rest enough fits h =
    let (e, back) = load_bit-Spells true s (replicate k true ++ (false ∷ rest)) h in
    let below : ltb max (len + 1) ≡ false = ground arith in
    let ih =
      unary_loop-Reads k rounds max (len + 1) (past 1 s) rest (omega arith) (omega arith) back in
    let p : past (k + 1) (past 1 s) ≡ past (suc k + 1) s =
      past-past 1 (k + 1) s ∙ ap (λ n. past n s) (omega arith) in
    let z : len + 1 + k ≡ len + suc k = omega arith in
    record { result = rw (e, below) (rw (p, z) at ih.result); after = rw p at ih.after }

explicit_len-Reads :
    (max len : ℕ) (s : Slice) (rest : List Bool)
    → max < 2 ^ 16
    → len ≤ max
    → Spells s (bits_of_word (bounded_width max) len ++ rest)
    → Reads s (bounded_width max) rest len (explicit_len max s)
unfolding explicit_len load_uint
explicit_len-Reads max len s rest small fits h =
    let (top, narrow) = bounded_width-fits max small in
    let (e, back) =
      load_word-Spells 64 (bounded_width max) len s rest (omega arith) (omega arith) h in
    let word : len % 2 ^ 16 ≡ len = omega arith in
    let allowed : ltb max len ≡ false = ground arith in
    record { result = rw (e, word, allowed); after = back }

spelled-Reads :
    (run : List Bool) (s : Slice) (rest : List Bool)
    → Spells s (run ++ rest)
    → Reads s (length run) rest run (spelled_loop vec_sink (length run) [] s)
spelled-Reads run s rest h =
    let front = Spells-front s run rest h in
    record {
      result =
          rw (spelled_loop-there (length run) [] s (omega (arith, front.inside)), front.spelled);
      after = Spells-back s run rest h;
    }

two_bits : (bits_of_word 2 2 ≡ true ∷ false ∷ []) × (bits_of_word 2 3 ≡ true ∷ true ∷ [])
unfolding bits_of_word
two_bits = (refl, refl)

module _ (run : BitRun) (max : ℕ) (small : max < 2 ^ 16) (fits : run.len ≤ max) where
  -- The header in each form, and what follows it.
  header-short :
      (s : Slice) (rest : List Bool)
      → Spells s (encoding run (bounded_width max) short ++ rest)
      → Reads s (run.len + 2) (bits_of run ++ rest) (spelled run.len) (read_run max s)
  unfolding encoding read_run
  header-short s rest h =
      let tail = (false ∷ []) ++ bits_of run in
      let h' : Spells s (false ∷ (replicate run.len true ++ (false ∷ (bits_of run ++ rest)))) =
        rw (append_assoc (replicate run.len true) tail rest) at h in
      let (e, back) = load_bit-Spells false s _ h' in
      let u =
        unary_loop-Reads run.len (max + 1) max 0 (past 1 s) (bits_of run ++ rest) (omega arith)
          (omega arith) back in
      let p : past (run.len + 1) (past 1 s) ≡ past (run.len + 2) s =
        past-past 1 (run.len + 1) s ∙ ap (λ n. past n s) (omega arith) in
      let z : 0 + run.len ≡ run.len = omega arith in
      record { result = rw e (rw (u.result) (rw (p, z))); after = rw p at u.after }

  header-long :
      (s : Slice) (rest : List Bool)
      → Spells s (encoding run (bounded_width max) long ++ rest)
      → Reads s (bounded_width max + 2) (bits_of run ++ rest) (spelled run.len) (read_run max s)
  unfolding encoding read_run
  header-long s rest h =
      let width = bounded_width max in
      let front = bits_of_word width run.len in
      let h' : Spells s (true ∷ false ∷ (front ++ (bits_of run ++ rest))) =
        rw (append_assoc front (bits_of run) rest) at (rw (two_bits.0) at h) in
      let (e1, s1) = load_bit-Spells true s _ h' in
      let (e2, s2) = load_bit-Spells false (past 1 s) _ s1 in
      let r =
        explicit_len-Reads max run.len (past 1 (past 1 s)) (bits_of run ++ rest) small fits s2 in
      let p : past width (past 1 (past 1 s)) ≡ past (width + 2) s =
        past-past 1 width (past 1 s)
        ∙ past-past 1 (1 + width) s
        ∙ ap (λ n. past n s) (omega arith) in
      record { result = rw (e1, e2) (rw (r.result) (rw p)); after = rw p at r.after }

  header-same :
      (s : Slice) (rest : List Bool)
      → Spells s (encoding run (bounded_width max) same ++ rest)
      → Reads s (bounded_width max + 3) rest (repeated (run.bit 0) run.len) (read_run max s)
  unfolding encoding read_run
  header-same s rest h =
      let width = bounded_width max in
      let h' : Spells s (true ∷ true ∷ run.bit 0 ∷ (bits_of_word width run.len ++ rest)) =
        rw (two_bits.1) at h in
      let (e1, s1) = load_bit-Spells true s _ h' in
      let (e2, s2) = load_bit-Spells true (past 1 s) _ s1 in
      let (e3, s3) = load_bit-Spells (run.bit 0) (past 1 (past 1 s)) _ s2 in
      let r = explicit_len-Reads max run.len (past 1 (past 1 (past 1 s))) rest small fits s3 in
      let p : past width (past 1 (past 1 (past 1 s))) ≡ past (width + 3) s =
        past-past 1 width (past 1 (past 1 s))
        ∙ past-past 1 (1 + width) (past 1 s)
        ∙ past-past 1 (1 + (1 + width)) s
        ∙ ap (λ n. past n s) (omega arith) in
      record { result = rw (e1, e2, e3) (rw (r.result) (rw p)); after = rw p at r.after }

  fill-spelled :
      (s : Slice) (n : ℕ) (rest : List Bool) (form : Form)
      → length (encoding run (bounded_width max) form) ≡ n + run.len
      → (into : List Bool) → Reads s n (bits_of run ++ rest) (spelled run.len) (read_run max s)
      → Reads s
          (length (encoding run (bounded_width max) form))
          rest
          (bits_of run)
          (read_label_into vec_sink max into s)
  unfolding read_label_into fill
  fill-spelled s n rest form e into r =
      let len : length (bits_of run) ≡ run.len = length-run_bits run 0 run.len in
      let t = spelled-Reads (bits_of run) (past n s) rest r.after in
      let read : spelled_loop vec_sink run.len [] (past n s)
          ≡ (ok (bits_of run), past run.len (past n s)) =
        rw len at t.result in
      let p = past-past n run.len s in
      record {
        result = rw (r.result) (rw (read, e) (rw p));
        after = rw e (rw (← p) (rw len at t.after));
      }

  -- A label no longer than its limit, itself below 2^16, reads back as its bits from any
  -- encoding that can spell it, with the cursor behind it.
  pub read_label-encoding :
      (form : Form) (into : List Bool) (s : Slice) (rest : List Bool)
      → Allowed run form
      → Spells s (encoding run (bounded_width max) form ++ rest)
      → Reads s
          (length (encoding run (bounded_width max) form))
          rest
          (bits_of run)
          (read_label_into vec_sink max into s)
  unfolding read_label_into fill
  read_label-encoding short into s rest allowed h =
      let r = header-short s rest h in
      fill-spelled s (run.len + 2) rest short
        (omega (arith, (length-encoding run (bounded_width max)).0)) into r
  read_label-encoding long into s rest allowed h =
      let r = header-long s rest h in
      fill-spelled s (bounded_width max + 2) rest long
        (omega (arith, (length-encoding run (bounded_width max)).1)) into r
  read_label-encoding same into s rest allowed h =
      let r = header-same s rest h in
      let e : length (encoding run (bounded_width max) same) ≡ bounded_width max + 3 =
        omega (arith, (length-encoding run (bounded_width max)).2) in
      record {
        result = rw (r.result) (
            rw (repeated_loop-ok (run.bit 0) run.len [], e)
              (ap (λ l. (ok l, past (bounded_width max + 3) s)) (sym allowed)));
        after = rw e (r.after);
      }
