-- ===== src/Cell/Dict/Trie/Apart.antt =====
-- Where a label and a key part: the front that both have, and what each has behind it.
use ton_net.Base.{
  ℕ, suc, ◌+◌, ◌<◌, ◌≡◌, refl, sym, ◌∙◌, ap, Bool, true, false, not, Option, none, some, List, [],
  ◌∷◌, ◌++◌, length, take, drop, length-append, arith,
}
use mathlib.Core.Path.{subst}
use ton_net.Cell.Dict.Key.{diverges, one_later, bit_or_false}
use ton_net.Cell.Dict.Label.{eq_bool}
use ton_net.Cell.Dict.Walk.{is_some, branch_bit}

-- Both run on a shared front; there the label goes on with one bit and the key with the other.
pub record Apart (label key : List Bool) (at : ℕ) : Type 0 where
  pub front : List Bool
  pub bit : Bool
  pub of_label : List Bool
  pub of_key : List Bool
  pub label_is : label ≡ front ++ (bit ∷ of_label)
  pub key_is : key ≡ front ++ (not bit ∷ of_key)
  pub at_is : at ≡ length front

Apart-later :
    (x : Bool) (label key : List Bool) (at : ℕ)
    → Apart label key at
    → Apart (x ∷ label) (x ∷ key) (suc at)
Apart-later x label key at a = record {
  front = x ∷ a.front;
  bit = a.bit;
  of_label = a.of_label;
  of_key = a.of_key;
  label_is = ap (λ l. x ∷ l) a.label_is;
  key_is = ap (λ l. x ∷ l) a.key_is;
  at_is = ap suc a.at_is;
}

Apart-here :
    (x : Bool) (label key : List Bool) (at : ℕ) → 0 ≡ at → Apart (x ∷ label) (not x ∷ key) at
Apart-here x label key at e = record {
  front = [];
  bit = x;
  of_label = label;
  of_key = key;
  label_is = refl;
  key_is = refl;
  at_is = sym e;
}

Apart-from :
    (x : Bool) (label key : List Bool) (at : ℕ) (d : Option ℕ)
    → one_later d ≡ some at
    → ((m : ℕ) → d ≡ some m → Apart label key m)
    → Apart (x ∷ label) (x ∷ key) at
unfolding one_later
Apart-from x label key at none h next = absurd (cc h)
Apart-from x label key at (some m) h next =
    let e : suc m ≡ at = cc h in
    subst (Apart (x ∷ label) (x ∷ key)) e (Apart-later x label key m (next m refl))

-- What the search of the source found.
pub diverges-Apart :
    (label key : List Bool) (at : ℕ) → diverges label key ≡ some at → Apart label key at
unfolding diverges
diverges-Apart [] key at h = absurd (cc h)
diverges-Apart (x ∷ label) [] at h = absurd (cc h)
diverges-Apart (true ∷ label) (true ∷ key) at h =
    Apart-from true label key at (diverges label key) h (diverges-Apart label key)
diverges-Apart (false ∷ label) (false ∷ key) at h =
    Apart-from false label key at (diverges label key) h (diverges-Apart label key)
diverges-Apart (true ∷ label) (false ∷ key) at h = Apart-here true label key at (cc h)
diverges-Apart (false ∷ label) (true ∷ key) at h = Apart-here false label key at (cc h)

same_bit : (x : Bool) → eq_bool x x ≡ true
same_bit true = refl
same_bit false = refl

still_some : (d : Option ℕ) → is_some (one_later d) ≡ is_some d
unfolding is_some one_later
still_some none = refl
still_some (some at) = refl

-- A front that both have can be left out.
pub diverges-append :
    (front label key : List Bool)
    → is_some (diverges (front ++ label) (front ++ key)) ≡ is_some (diverges label key)
unfolding diverges
diverges-append [] label key = refl
diverges-append (x ∷ front) label key =
    rw (same_bit x)
      (still_some (diverges (front ++ label) (front ++ key)) ∙ diverges-append front label key)

-- A key that does not part from a shorter label goes on behind it.
pub diverges-along :
    (label key : List Bool)
    → is_some (diverges label key) ≡ false
    → length label < length key
    → (y : Bool) × (q : List Bool) × (key ≡ label ++ (y ∷ q))
unfolding diverges is_some
diverges-along [] [] h short = absurd (omega arith)
diverges-along [] (y ∷ key) h short = (y, key, refl)
diverges-along (x ∷ label) [] h short = absurd (omega arith)
diverges-along (true ∷ label) (true ∷ key) h short =
    let r = diverges-along label key (sym (still_some (diverges label key)) ∙ h) (omega arith) in
    (r.0, r.1, ap (λ l. true ∷ l) (r.2))
diverges-along (false ∷ label) (false ∷ key) h short =
    let r = diverges-along label key (sym (still_some (diverges label key)) ∙ h) (omega arith) in
    (r.0, r.1, ap (λ l. false ∷ l) (r.2))
diverges-along (true ∷ label) (false ∷ key) h short = absurd (cc h)
diverges-along (false ∷ label) (true ∷ key) h short = absurd (cc h)

-- One of the same length is the label.
pub diverges-equal :
    (label key : List Bool)
    → is_some (diverges label key) ≡ false
    → length label ≡ length key
    → label ≡ key
unfolding diverges is_some
diverges-equal [] [] h len = refl
diverges-equal [] (y ∷ key) h len = absurd (omega (arith, len))
diverges-equal (x ∷ label) [] h len = absurd (omega (arith, len))
diverges-equal (true ∷ label) (true ∷ key) h len =
    ap (λ l. true ∷ l)
      (diverges-equal label key (sym (still_some (diverges label key)) ∙ h) (omega (arith, len)))
diverges-equal (false ∷ label) (false ∷ key) h len =
    ap (λ l. false ∷ l)
      (diverges-equal label key (sym (still_some (diverges label key)) ∙ h) (omega (arith, len)))
diverges-equal (true ∷ label) (false ∷ key) h len = absurd (cc h)
diverges-equal (false ∷ label) (true ∷ key) h len = absurd (cc h)

pub diverges_here :
    (x : Bool) (label key : List Bool) → is_some (diverges (x ∷ label) (not x ∷ key)) ≡ true
unfolding diverges is_some
diverges_here true label key = refl
diverges_here false label key = refl

-- What parts from a front parts from all that goes on behind it.
pub diverges-longer :
    (front label key : List Bool)
    → is_some (diverges front key) ≡ true
    → is_some (diverges (front ++ label) key) ≡ true
unfolding diverges is_some
diverges-longer [] label key h = absurd (cc h)
diverges-longer (x ∷ front) label [] h = absurd (cc h)
diverges-longer (true ∷ front) label (true ∷ key) h =
    still_some (diverges (front ++ label) key)
    ∙ diverges-longer front label key (sym (still_some (diverges front key)) ∙ h)
diverges-longer (false ∷ front) label (false ∷ key) h =
    still_some (diverges (front ++ label) key)
    ∙ diverges-longer front label key (sym (still_some (diverges front key)) ∙ h)
diverges-longer (true ∷ front) label (false ∷ key) h = refl
diverges-longer (false ∷ front) label (true ∷ key) h = refl

pub diverges_front : (front key : List Bool) → is_some (diverges front (front ++ key)) ≡ false
unfolding diverges is_some
diverges_front [] key = refl
diverges_front (x ∷ front) key =
    rw (same_bit x) (still_some (diverges front (front ++ key)) ∙ diverges_front front key)

-- The parts around a bit.
pub take_front : (front key : List Bool) → take (length front) (front ++ key) ≡ front
take_front [] key = refl
take_front (x ∷ front) key = ap (λ l. x ∷ l) (take_front front key)

pub drop_front :
    (front : List Bool) (x : Bool) (key : List Bool)
    → drop (length front + 1) (front ++ (x ∷ key)) ≡ key
drop_front [] x key = refl
drop_front (y ∷ front) x key =
    let e : suc (length front) + 1 ≡ suc (length front + 1) = omega arith in
    rw (e) (drop_front front x key)

pub bit_front :
    (front : List Bool) (x : Bool) (key : List Bool)
    → branch_bit (front ++ (x ∷ key)) (length front) ≡ x
unfolding branch_bit bit_or_false
bit_front [] x key = refl
bit_front (y ∷ front) x key = bit_front front x key

pub Apart-inside : {label key : List Bool} {at : ℕ} → Apart label key at → at < length label
Apart-inside {label} {key} {at} a =
    let len : length label ≡ length (a.front ++ (a.bit ∷ a.of_label)) = ap length a.label_is in
    omega (arith, a.at_is, len, length-append a.front (a.bit ∷ a.of_label))
