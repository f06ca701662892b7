-- ===== src/Cell/Assemble/Copies.antt =====
-- What a copy of the rest of a cursor adds to a builder.
use Prim.Native.Nat.{ℕ}
use mathlib.Core.Path.{subst}
use mathlib.Core.List.{append-nil}
use ton_net.Base.{
  zero, suc, ◌+◌, ◌-◌, ◌^◌, ◌<◌, ◌≡◌, refl, ◌∙◌, ap, Bool, false, some, List, [], ◌∷◌, ◌++◌, ltb,
  leb, ◌==◌, if◌then◌else◌, length, get_elem?, drop, arith,
}
use ton_net.Base.Result.{Result, ok, err}
use ton_net.Base.Exec.{Exec, then_do, refuse_if, pure, ◌>>=◌, ◌>>◌}
use ton_net.Cell.Error.{CellError, no_room_for_refs}
use ton_net.Cell.Types.{Cell, refs}
use ton_net.Cell.Builder.{Builder, store_bit, refs_left}
use ton_net.Cell.Builder.Invariant.{IsWf}
use ton_net.Cell.Slice.{Slice, remaining_bits, remaining_refs, load_ref, peek_ref}
use ton_net.Cell.Slice.Reads.{Spells, past, load_bit-Spells}
use ton_net.Cell.Assemble.{store_ref, carry, copy_bits, copy_refs, store_slice}
use ton_net.Cell.Assemble.Grown.{
  Grows, Grown-nothing, Grows-bind, Grows-same, Grows-room_for, Grows-refuse_if, store_bit-Grows,
  store_ref-Grows,
}

-- The cursor has exactly those bits and references left, up to the end of its cell.
pub record Views (s : Slice) (bits : List Bool) (cells : List Cell) : Type 0 where
  pub spells : Spells s bits
  pub exact : s.end_bit ≡ s.bit + length bits
  pub refs_left : drop s.next_ref (refs s.cell) ≡ cells
  pub refs_exact : s.end_ref ≡ s.next_ref + length cells

ok_of : (s t : Slice) → ◌≡◌ {A = Result CellError Slice} (ok s) (ok t) → t ≡ s
ok_of s t h = cc

past_none : (s : Slice) → s ≡ past 0 s
past_none s = let e : s.bit ≡ s.bit + 0 = omega arith in ap (λ at. record s { bit = at }) e

past_one : (n : ℕ) (s : Slice) → past n (past 1 s) ≡ past (suc n) s
past_one n s =
    let e : s.bit + 1 + n ≡ s.bit + suc n = omega arith in ap (λ at. record s { bit = at }) e

copy_bits-Grows :
    (bits : List Bool) (s : Slice) (b : Builder)
    → Spells s bits
    → s.end_bit ≡ s.bit + length bits
    → IsWf b
    → Grows (past (length bits) s) b bits [] (copy_bits (length bits) s b)
unfolding copy_bits carry remaining_bits
copy_bits-Grows [] s b h e w = λ x k. (ok_of s x k ∙ past_none s, Grown-nothing w)
copy_bits-Grows (x ∷ bits) s b h e w =
    let r = load_bit-Spells x s bits h in
    let more : (s.end_bit - s.bit == 0) ≡ false = ground arith in
    rw (more, r.0)
      (Grows-bind tt (past (suc (length bits)) s) (store_bit x b)
        (λ _. copy_bits (length bits) (past 1 s)) (store_bit-Grows x b w)
        (λ b' g.
          subst (λ t. Grows t b' bits [] (copy_bits (length bits) (past 1 s) b'))
            (past_one (length bits) s)
            (copy_bits-Grows bits (past 1 s) b' (r.1) (omega (arith, e)) g.wf)))

drop-cons :
    (k : ℕ) (xs ys : List Cell) (y : Cell)
    → drop k xs ≡ y ∷ ys
    → (get_elem? xs k ≡ some y) × (drop (suc k) xs ≡ ys)
drop-cons zero [] ys y h = absurd (cc h)
drop-cons zero (x ∷ xs) ys y h = (cc h, cc h)
drop-cons (suc k) [] ys y h = absurd (cc h)
drop-cons (suc k) (x ∷ xs) ys y h = drop-cons k xs ys y h

abbrev ahead : ℕ → Slice → Slice
ahead n s = record s { next_ref = s.next_ref + n }

load_ref-ahead :
    (s : Slice) (c : Cell)
    → s.next_ref < s.end_ref
    → get_elem? (refs s.cell) s.next_ref ≡ some c
    → load_ref s ≡ (ok c, ahead 1 s)
unfolding load_ref peek_ref
load_ref-ahead s c h e =
    let there : leb s.end_ref s.next_ref ≡ false = ground arith in rw (there, e) refl

ahead_none : (s : Slice) → s ≡ ahead 0 s
ahead_none s =
    let e : s.next_ref ≡ s.next_ref + 0 = omega arith in ap (λ at. record s { next_ref = at }) e

ahead_one : (n : ℕ) (s : Slice) → ahead n (ahead 1 s) ≡ ahead (suc n) s
ahead_one n s =
    let e : s.next_ref + 1 + n ≡ s.next_ref + suc n = omega arith in
    ap (λ at. record s { next_ref = at }) e

copy_refs-Grows :
    (cells : List Cell) (s : Slice) (b : Builder)
    → drop s.next_ref (refs s.cell) ≡ cells
    → s.end_ref ≡ s.next_ref + length cells
    → IsWf b
    → Grows (ahead (length cells) s) b [] cells (copy_refs (length cells) s b)
unfolding copy_refs carry remaining_refs
copy_refs-Grows [] s b h e w = λ x k. (ok_of s x k ∙ ahead_none s, Grown-nothing w)
copy_refs-Grows (c ∷ cells) s b h e w =
    let d = drop-cons s.next_ref (refs s.cell) cells c h in
    let more : (s.end_ref - s.next_ref == 0) ≡ false = ground arith in
    let one_more : suc s.next_ref ≡ s.next_ref + 1 = omega arith in
    rw (more, load_ref-ahead s c (omega (arith, e)) (d.0))
      (Grows-bind tt (ahead (suc (length cells)) s) (store_ref c b)
        (λ _. copy_refs (length cells) (ahead 1 s)) (store_ref-Grows c b w)
        (λ b' g.
          subst (λ t. Grows t b' [] cells (copy_refs (length cells) (ahead 1 s) b'))
            (ahead_one (length cells) s)
            (copy_refs-Grows cells (ahead 1 s) b' (rw one_more at d.1) (omega (arith, e)) g.wf)))

-- A value that is dropped.
Grows-drop :
    (a : Slice) (b : Builder) (run : List Bool) (cells : List Cell)
    (out : Result CellError Slice × Builder)
    → Grows a b run cells out
    → Grows tt b run cells (then_do out (λ _. pure tt))
Grows-drop a b run cells (ok s, b') g = λ x k. (refl, (g s refl).1)
Grows-drop a b run cells (err e, b') g = λ x k. absurd (cc k)

-- Both loops of the copy.
abbrev copies : Slice → Exec CellError Builder (Unit {0})
copies s = do s' ← copy_bits (remaining_bits s) s; _ ← copy_refs (remaining_refs s') s'; pure tt

copies-Grows :
    (bits : List Bool) (cells : List Cell) (s : Slice) (b : Builder)
    → Views s bits cells
    → IsWf b
    → Grows tt b bits cells (copies s b)
unfolding remaining_bits remaining_refs
copies-Grows bits cells s b v w =
    let n : s.end_bit - s.bit ≡ length bits = omega (arith, v.exact) in
    let m : s.end_ref - s.next_ref ≡ length cells = omega (arith, v.refs_exact) in
    rw (n) (
      Grows-same tt b (bits ++ []) bits cells _ (append-nil bits) (
        Grows-bind (past (length bits) s) tt (copy_bits (length bits) s b)
          (λ s'. copy_refs (s'.end_ref - s'.next_ref) s' >>= λ _. pure tt)
          (copy_bits-Grows bits s b v.spells v.exact w)
          (λ b' g. rw (m) (
            Grows-drop (ahead (length cells) (past (length bits) s)) b' [] cells
              (copy_refs (length cells) (past (length bits) s) b')
              (copy_refs-Grows cells (past (length bits) s) b' v.refs_left v.refs_exact g.wf)))))

pub store_slice-Grows :
    (bits : List Bool) (cells : List Cell) (s : Slice) (b : Builder)
    → Views s bits cells
    → IsWf b
    → Grows tt b bits cells (store_slice s b)
unfolding store_slice
store_slice-Grows bits cells s b v w =
    Grows-room_for tt (if ltb (remaining_bits s) (2 ^ 16) then remaining_bits s else 1023)
      (refuse_if (ltb (refs_left b) (remaining_refs s)) (no_room_for_refs 4) >> copies s)
      (Grows-refuse_if tt (ltb (refs_left b) (remaining_refs s)) (no_room_for_refs 4) (copies s)
        (copies-Grows bits cells s b v w))
