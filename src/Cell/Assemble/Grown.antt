-- ===== src/Cell/Assemble/Grown.antt =====
-- What a run of stores has added to a builder, when it succeeds: bits and references in order.
use Prim.Native.Nat.{ℕ}
use mathlib.Core.Path.{subst}
use ton_net.Base.{
  zero, suc, ◌+◌, ◌-◌, ◌^◌, ◌≤◌, ◌<◌, ◌≡◌, refl, sym, ◌∙◌, ap, Bool, true, false, List, [], ◌∷◌,
  ◌++◌, ltb, leb, replicate, arith, Bool-cases, inl, inr,
}
use ton_net.Base.Words.{bits_of_word}
use ton_net.Base.Result.{Result, ok, err}
use ton_net.Base.Exec.{Exec, then_do, refuse_if, ◌>>◌}
use ton_net.Cell.Error.{CellError, no_room_for_bits, no_room_for_refs}
use ton_net.Cell.Types.{Cell, Refs, no_refs, one, two, three, four, as_slice, push}
use ton_net.Cell.Data.{bit_at as data_bit}
use ton_net.Cell.Data.Runs.{bits_from}
use ton_net.Cell.Builder.{
  Builder, store_bit, store_uint, store_same_bit, room_for, refs_used, refs_left, bits_left,
}
use ton_net.Cell.Builder.Invariant.{IsWf, contents}
use ton_net.Cell.Builder.Stores.{
  Stored, store_bit-Stored, store_word_total, store_same_bit_total, room_for-refuses,
}
use ton_net.Cell.Assemble.{store_ref, push_ref, store_builder, store_bits_of, store_refs_of, bit_at}
use mathlib.Core.List.{append-nil, append_assoc}
use native.Mathlib.Decide.{dec_lt, dec_le}

pub record Grown (b : Builder) (run : List Bool) (cells : List Cell) (b' : Builder) : Type 0 where
  pub wf : IsWf b'
  pub holds : contents b' ≡ contents b ++ run
  pub refs : as_slice b'.refs ≡ as_slice b.refs ++ cells

-- If it succeeds, it returns that value and has added those bits and references.
abbrev pub Grows :
    {A : Type 0} → A → Builder → List Bool → List Cell → Result CellError A × Builder → Type 0
Grows {A} a b run cells out = (x : A) → out.0 ≡ ok x → (x ≡ a) × Grown b run cells out.1

pub Grown-trans :
    {b b' b'' : Builder} {xs ys : List Bool} {cs ds : List Cell}
    → Grown b xs cs b'
    → Grown b' ys ds b''
    → Grown b (xs ++ ys) (cs ++ ds) b''
Grown-trans {b} {b'} {b''} {xs} {ys} {cs} {ds} g h = record {
  wf = h.wf;
  holds = h.holds ∙ ap (λ l. l ++ ys) g.holds ∙ append_assoc (contents b) xs ys;
  refs = h.refs ∙ ap (λ l. l ++ ds) g.refs ∙ append_assoc (as_slice b.refs) cs ds;
}

pub Grown-nothing : {b : Builder} → IsWf b → Grown b [] [] b
Grown-nothing {b} w = record {
  wf = w;
  holds = sym (append-nil (contents b));
  refs = sym (append-nil (as_slice b.refs));
}

module _ {A C : Type 0} {b : Builder} {xs ys : List Bool} {cs ds : List Cell} where
  bound :
      (a : A) (c : C) (f : A → Exec CellError Builder C) (x : A) (b' : Builder)
      → x ≡ a
      → Grown b xs cs b'
      → Grows c b' ys ds (f a b')
      → Grows c b (xs ++ ys) (cs ++ ds) (f x b')
  bound a c f x b' e g h =
      subst (λ y. Grows c b (xs ++ ys) (cs ++ ds) (f y b')) (sym e)
        (λ z k. let r = h z k in (r.0, Grown-trans g (r.1)))

  -- One store after another.
  pub Grows-bind :
      (a : A) (c : C) (out : Result CellError A × Builder) (f : A → Exec CellError Builder C)
      → Grows a b xs cs out
      → ((b' : Builder) → Grown b xs cs b' → Grows c b' ys ds (f a b'))
      → Grows c b (xs ++ ys) (cs ++ ds) (then_do out f)
  Grows-bind a c (ok x, b') f g h = let r = g x refl in bound a c f x b' (r.0) (r.1) (h b' (r.1))
  Grows-bind a c (err e, b') f g h = λ z k. absurd (cc k)

-- A check that lets the builder through as it is.
pub Grows-after :
    {C : Type 0} {b : Builder} {ys : List Bool} {ds : List Cell} (c : C)
    (out : Result CellError (Unit {0}) × Builder) (rest : Exec CellError Builder C)
    → out.1 ≡ b
    → Grows c b ys ds (rest b)
    → Grows c b ys ds (then_do out (λ _. rest))
Grows-after {C} {b} {ys} {ds} c (ok u, b') rest e g =
    subst (λ x. Grows c b ys ds (rest x)) (sym e) g
Grows-after c (err x, b') rest e g = λ z k. absurd (cc k)

pub Stored-Grows :
    {b : Builder} {run : List Bool} {out : Result CellError (Unit {0}) × Builder}
    → Stored b run out
    → Grows tt b run [] out
Stored-Grows {b} s x h = (
  refl,
  record {
    wf = s.wf;
    holds = s.holds;
    refs = ap as_slice s.refs ∙ sym (append-nil (as_slice b.refs));
  },
)

-- What is refused has nothing to show.
pub refused-Grows :
    {A : Type 0} {a : A} {b : Builder} {run : List Bool} {cells : List Cell}
    {out : Result CellError A × Builder} {e : CellError} {b' : Builder}
    → out ≡ (err e, b')
    → Grows a b run cells out
refused-Grows h x k = absurd (cc (h, k))

store_bit_full :
    (bit : Bool) (b : Builder)
    → b.bits ≤ 1023
    → 1023 < b.bits + 1
    → store_bit bit b ≡ (err (no_room_for_bits 1 (1023 - b.bits)), b)
unfolding store_bit
store_bit_full bit b cap full = rw (room_for-refuses 1 b cap full) refl

pub store_bit-Grows :
    (bit : Bool) (b : Builder) → IsWf b → Grows tt b (bit ∷ []) [] (store_bit bit b)
store_bit-Grows bit b w = elim (dec_lt b.bits 1023) [
  | yes room ↦ Stored-Grows (store_bit-Stored bit b w room)
  | no full ↦ refused-Grows (store_bit_full bit b w.cap (omega arith))
]

pub store_same_bit-Grows :
    (bit : Bool) (n : ℕ) (b : Builder)
    → IsWf b
    → Grows tt b (replicate n bit) [] (store_same_bit bit n b)
store_same_bit-Grows bit n b w = elim (dec_le (b.bits + n) 1023) [
  | yes room ↦ Stored-Grows ((store_same_bit_total bit n b w).0 room)
  | no full ↦ refused-Grows ((store_same_bit_total bit n b w).1 (omega arith))
]

-- A number that fits its field.
pub store_uint-Grows :
    (value n : ℕ) (b : Builder)
    → IsWf b
    → n ≤ 64
    → value < 2 ^ n
    → value < 2 ^ 64
    → Grows tt b (bits_of_word n value) [] (store_uint value n b)
unfolding store_uint
store_uint-Grows value n b w narrow fits typed =
    let total = store_word_total 64 value n b (omega arith) typed w in
    elim (dec_le (b.bits + n) 1023) [
      | yes room ↦ Stored-Grows (total.3 narrow fits room)
      | no full ↦ refused-Grows (total.2 narrow fits (omega arith))
    ]

room_for-same : (n : ℕ) (b : Builder) → (room_for n b).1 ≡ b
unfolding room_for bits_left
room_for-same n b = ground arith

refuse_if-same : (refused : Bool) (e : CellError) (b : Builder) → (refuse_if refused e b).1 ≡ b
refuse_if-same true e b = refl
refuse_if-same false e b = refl

ok_refs : (r s : Refs) → ◌≡◌ {A = Result CellError Refs} (ok r) (ok s) → r ≡ s
ok_refs r s h = cc

as_slice-push :
    (refs refs' : Refs) (cell : Cell)
    → push refs cell ≡ ok refs'
    → as_slice refs' ≡ as_slice refs ++ (cell ∷ [])
unfolding push as_slice
as_slice-push no_refs refs' cell h = sym (ap as_slice (ok_refs (one cell) refs' h))
as_slice-push (one p) refs' cell h = sym (ap as_slice (ok_refs (two p cell) refs' h))
as_slice-push (two p q) refs' cell h = sym (ap as_slice (ok_refs (three p q cell) refs' h))
as_slice-push (three p q r) refs' cell h = sym (ap as_slice (ok_refs (four p q r cell) refs' h))
as_slice-push (four p q r t) refs' cell h = absurd (cc h)

pushed-Grows :
    (cell : Cell) (b : Builder) (r : Result CellError Refs)
    → IsWf b
    → push b.refs cell ≡ r
    → Grows tt b []
        (cell ∷ [])
        (elim r [ err e ↦ (err e, b) | ok refs ↦ (ok tt, record b { refs = refs }) ])
pushed-Grows cell b (err e) w h x k = absurd (cc k)
pushed-Grows cell b (ok refs) w h x k = (
  refl,
  record {
    wf = record { len = w.len; bytes = w.bytes; clear = w.clear; cap = w.cap };
    holds = unfold contents in sym (append-nil (contents b));
    refs = as_slice-push b.refs refs cell h;
  },
)

pub store_ref-Grows :
    (cell : Cell) (b : Builder) → IsWf b → Grows tt b [] (cell ∷ []) (store_ref cell b)
unfolding store_ref push_ref
store_ref-Grows cell b w = elim (Bool-cases (leb 4 (refs_used b))) [
  | inl full ↦ rw (full) (λ x k. absurd (cc k))
  | inr room ↦ rw (room) (pushed-Grows cell b (push b.refs cell) w refl)
]

store_refs_of-Grows :
    (cells : List Cell) (b : Builder) → IsWf b → Grows tt b [] cells (store_refs_of cells b)
unfolding store_refs_of
store_refs_of-Grows [] b w = λ x h. (refl, Grown-nothing w)
store_refs_of-Grows (cell ∷ cells) b w =
    Grows-bind tt tt (store_ref cell b) (λ _. store_refs_of cells) (store_ref-Grows cell b w)
      (λ b' g. store_refs_of-Grows cells b' g.wf)

store_bits_of-Grows :
    (other : Builder) (index n : ℕ) (b : Builder)
    → index + n ≤ other.bits
    → IsWf b
    → Grows tt b (bits_from other.content index n) [] (store_bits_of other index n b)
unfolding store_bits_of bits_from bit_at
store_bits_of-Grows other index zero b h w = λ x k. (refl, Grown-nothing w)
store_bits_of-Grows other index (suc n) b h w =
    let there : leb other.bits index ≡ false = ground arith in
    rw (there) (
      Grows-bind tt tt (store_bit (data_bit other.content index) b)
        (λ _. store_bits_of other (index + 1) n)
        (store_bit-Grows (data_bit other.content index) b w)
        (λ b' g. store_bits_of-Grows other (index + 1) n b' (omega arith) g.wf))

-- The same run, written otherwise.
pub Grows-same :
    {A : Type 0} (a : A) (b : Builder) (run run' : List Bool) (cells : List Cell)
    (out : Result CellError A × Builder)
    → run ≡ run'
    → Grows a b run cells out
    → Grows a b run' cells out
Grows-same a b run run' cells out e g = subst (λ r. Grows a b r cells out) e g

both_of-Grows :
    (other b : Builder)
    → IsWf b
    → Grows tt b
        (contents other)
        (as_slice other.refs)
        ((store_bits_of other 0 other.bits >> store_refs_of (as_slice other.refs)) b)
unfolding contents
both_of-Grows other b w =
    Grows-same tt b (bits_from other.content 0 other.bits ++ [])
      (bits_from other.content 0 other.bits) (as_slice other.refs)
      ((store_bits_of other 0 other.bits >> store_refs_of (as_slice other.refs)) b)
      (append-nil (bits_from other.content 0 other.bits))
      (Grows-bind tt tt (store_bits_of other 0 other.bits b)
        (λ _. store_refs_of (as_slice other.refs))
        (store_bits_of-Grows other 0 other.bits b (omega arith) w)
        (λ b' g. store_refs_of-Grows (as_slice other.refs) b' g.wf))

-- The checks at the head of a store change nothing.
pub Grows-room_for :
    {C : Type 0} {b : Builder} {ys : List Bool} {ds : List Cell} (c : C) (n : ℕ)
    (rest : Exec CellError Builder C)
    → Grows c b ys ds (rest b)
    → Grows c b ys ds (then_do (room_for n b) (λ _. rest))
Grows-room_for {C} {b} c n rest g = Grows-after c (room_for n b) rest (room_for-same n b) g

pub Grows-refuse_if :
    {C : Type 0} {b : Builder} {ys : List Bool} {ds : List Cell} (c : C) (refused : Bool)
    (e : CellError) (rest : Exec CellError Builder C)
    → Grows c b ys ds (rest b)
    → Grows c b ys ds (then_do (refuse_if refused e b) (λ _. rest))
Grows-refuse_if {C} {b} c refused e rest g =
    Grows-after c (refuse_if refused e b) rest (refuse_if-same refused e b) g

pub store_builder-Grows :
    (other b : Builder)
    → IsWf b
    → Grows tt b (contents other) (as_slice other.refs) (store_builder other b)
unfolding store_builder
store_builder-Grows other b w =
    Grows-room_for tt other.bits
      (refuse_if (ltb (refs_left b) (refs_used other)) (no_room_for_refs 4)
        >> (store_bits_of other 0 other.bits >> store_refs_of (as_slice other.refs)))
      (Grows-refuse_if tt (ltb (refs_left b) (refs_used other)) (no_room_for_refs 4)
        (store_bits_of other 0 other.bits >> store_refs_of (as_slice other.refs))
        (both_of-Grows other b w))
