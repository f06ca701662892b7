-- ===== src/Cell/Dict/Label/Kept.antt =====
-- Reading a label into a `Label`, which has room for what a cell can carry.
use ton_net.Base.{
  ℕ, zero, suc, ◌+◌, ◌≤◌, ◌<◌, ◌≡◌, refl, sym, ◌∙◌, ap, Bool, false, List, [], ◌∷◌, ◌++◌, leb,
  length, length-append, replicate, length-replicate, arith,
}
use ton_net.Base.Result.{Result, ok, err}
use ton_net.Base.Exec.{then_do, lift, ◌>>=◌}
use ton_net.Cell.Error.{CellError}
use ton_net.Cell.Types.{cell_data}
use ton_net.Cell.Data.Runs.{length-bits_from}
use ton_net.Cell.Slice.{Slice, load_bit}
use ton_net.Cell.Dict.Key.{label_sink, push}
use ton_net.Cell.Dict.Label.{
  Run, spelled, repeated, vec_sink, read_run, spelled_loop, repeated_loop, fill, read_label_into,
}
use ton_net.Cell.Dict.Label.Read.{spelled_loop-there, spelled_loop-fits, repeated_loop-ok}

pub push-room :
    (bit : Bool) (label : List Bool)
    → length label < 1023
    → push bit label ≡ ok (label ++ (bit ∷ []))
unfolding push
push-room bit label h = let room : leb 1023 (length label) ≡ false = ground arith in rw (room)

pub one_longer : (bit : Bool) (label : List Bool) → length (label ++ (bit ∷ [])) ≡ length label + 1
one_longer bit label = length-append label (bit ∷ [])

one_more :
    (n : ℕ) (into : List Bool) (out : Result CellError Bool × Slice)
    → length into < 1023
    → ((bit : Bool) (s : Slice)
        → spelled_loop label_sink n (into ++ (bit ∷ [])) s
          ≡ spelled_loop vec_sink n (into ++ (bit ∷ [])) s)
    → then_do out (λ bit. lift (push bit into) >>= spelled_loop label_sink n)
      ≡ then_do out (λ bit. lift (ok (into ++ (bit ∷ []))) >>= spelled_loop vec_sink n)
one_more n into (ok bit, s') h ih = rw (push-room bit into h) (ih bit s')
one_more n into (err e, s') h ih = refl

-- Where there is room both sinks do the same.
spelled_loop-same :
    (n : ℕ) (into : List Bool) (s : Slice)
    → length into + n ≤ 1023
    → spelled_loop label_sink n into s ≡ spelled_loop vec_sink n into s
unfolding spelled_loop
spelled_loop-same zero into s h = refl
spelled_loop-same (suc n) into s h =
    one_more n into (load_bit s) (omega arith)
      (λ bit s'. spelled_loop-same n (into ++ (bit ∷ [])) s' (omega (arith, one_longer bit into)))

repeated_loop-same :
    (value : Bool) (n : ℕ) (into : List Bool)
    → length into + n ≤ 1023
    → repeated_loop label_sink value n into ≡ repeated_loop vec_sink value n into
unfolding repeated_loop
repeated_loop-same value zero into h = refl
repeated_loop-same value (suc n) into h =
    rw (repeated_loop, push-room value into (omega arith))
      (repeated_loop-same value n (into ++ (value ∷ [])) (omega (arith, one_longer value into)))

length-of :
    (held run : List Bool) (out s' : Slice)
    → ◌≡◌ {A = Result CellError (List Bool) × Slice} (ok run, out) (ok held, s')
    → length run ≡ length held
length-of held run out s' h = let e : run ≡ held = cc in ap length e

fill-kept :
    (out : Result CellError Run × Slice) (held : List Bool) (s' : Slice)
    → length held ≤ 1023
    → then_do out (fill vec_sink []) ≡ (ok held, s')
    → then_do out (fill label_sink []) ≡ (ok held, s')
unfolding fill
fill-kept (ok (spelled n), s) held s' room h =
    let e = spelled_loop-there n [] s (spelled_loop-fits n [] held s s' h) in
    let len = length-of held _ _ s' (sym e ∙ h) in
    spelled_loop-same n [] s (omega (arith, len, length-bits_from (cell_data s.cell) s.bit n)) ∙ h
fill-kept (ok (repeated value n), s) held s' room h =
    let len =
      length-of held (replicate n value) s s'
        (ap (λ r. (r, s)) (sym (repeated_loop-ok value n [])) ∙ h) in
    ap (λ r. (r, s)) (repeated_loop-same value n [] (omega (arith, len, length-replicate n value)))
    ∙ h
fill-kept (err e, s) held s' room h = cc

-- A label that a vector takes, and that a cell can carry, a `Label` takes too.
pub read_label-kept :
    (max : ℕ) (into : List Bool) (s s' : Slice) (held : List Bool)
    → length held ≤ 1023
    → read_label_into vec_sink max into s ≡ (ok held, s')
    → read_label_into label_sink max into s ≡ (ok held, s')
unfolding read_label_into
read_label-kept max into s s' held room h = fill-kept (read_run max s) held s' room h
