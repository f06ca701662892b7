-- ===== src/Cell/Dict/Trie/Laws.antt =====
-- A lookup below a fork, and what a new fork leaves of the node that it is put over.
use ton_net.Base.{
  ℕ, suc, ◌+◌, ◌≡◌, refl, sym, ◌∙◌, Bool, true, false, not, List, [], ◌∷◌, ◌++◌, length,
  length-append, drop, drop-drop, if◌then◌else◌, arith,
}
use ton_net.Cell.Types.{Cell}
use ton_net.Cell.Dict.Key.{diverges}
use ton_net.Cell.Dict.Shape.{Lookup, found, absent}
use ton_net.Cell.Dict.Walk.{is_some, branch_bit}
use ton_net.Cell.Dict.Trie.{Trie, tip, branching, find}
use ton_net.Cell.Dict.Trie.Apart.{
  diverges-append, diverges_here, diverges-longer, diverges_front, drop_front, bit_front,
}

abbrev Answer : Type 0
Answer = Lookup (List Bool × List Cell)

-- A key that goes on behind the label of a fork is looked for below it.
pub find-branching :
    (label : List Bool) (left right : Trie) (y : Bool) (q : List Bool)
    → find (branching label left right) (label ++ (y ∷ q))
      ≡ (if y then find right q else find left q)
unfolding find
find-branching label left right y q =
    rw (diverges_front label (y ∷ q), drop_front label y q, bit_front label y q)

pub find-branching_apart :
    (label : List Bool) (left right : Trie) (key : List Bool)
    → is_some (diverges label key) ≡ true
    → find (branching label left right) key ≡ absent
unfolding find
find-branching_apart label left right key h = rw (h)

pub find-tip_apart :
    (label bits : List Bool) (cells : List Cell) (key : List Bool)
    → is_some (diverges label key) ≡ true
    → find (tip label bits cells) key ≡ absent
unfolding find
find-tip_apart label bits cells key h = rw (h)

pub find-tip_along :
    (label bits : List Bool) (cells : List Cell) (key : List Bool)
    → is_some (diverges label key) ≡ false
    → find (tip label bits cells) key ≡ found (bits, cells)
unfolding find
find-tip_along label bits cells key h = rw (h)

-- What a new fork, on the front of a label, was put over.
pub record Behind (front : List Bool) (x : Bool) (kept old : Trie) : Type 0 where
  pub below : (q : List Bool) → find old (front ++ (x ∷ q)) ≡ find kept q
  pub beside : (q : List Bool) → find old (front ++ (not x ∷ q)) ≡ absent
  pub elsewhere : (key : List Bool) → is_some (diverges front key) ≡ true → find old key ≡ absent

shift_tip :
    (front s q bits : List Bool) (cells : List Cell)
    → find (tip (front ++ s) bits cells) (front ++ q) ≡ find (tip s bits cells) q
unfolding find
shift_tip front s q bits cells = rw (diverges-append front s q)

drop_at :
    (k : ℕ) (x : Bool) (front q : List Bool)
    → drop (k + 1 + (length front + 1)) (front ++ (x ∷ q)) ≡ drop (k + 1) q
drop_at k x front q =
    let e : k + 1 + (length front + 1) ≡ length front + 1 + (k + 1) = omega arith in
    rw (e, sym (drop-drop (length front + 1) (k + 1) (front ++ (x ∷ q))), drop_front front x q)

bit_at :
    (front : List Bool) (x : Bool) (q : List Bool) (k : ℕ)
    → branch_bit (front ++ (x ∷ q)) (length front + 1 + k) ≡ branch_bit q k
unfolding branch_bit
bit_at [] x q k = let e : 0 + 1 + k ≡ suc k = omega arith in rw (e) refl
bit_at (y ∷ front) x q k =
    let e : suc (length front) + 1 + k ≡ suc (length front + 1 + k) = omega arith in
    rw (e) (bit_at front x q k)

same_front :
    (front : List Bool) (x : Bool) (s q : List Bool)
    → is_some (diverges (front ++ (x ∷ s)) (front ++ (x ∷ q))) ≡ is_some (diverges s q)
same_front front x s q = diverges-append front (x ∷ s) (x ∷ q) ∙ diverges-append (x ∷ []) s q

apart_front :
    (front : List Bool) (x : Bool) (s q : List Bool)
    → is_some (diverges (front ++ (x ∷ s)) (front ++ (not x ∷ q))) ≡ true
apart_front front x s q = diverges-append front (x ∷ s) (not x ∷ q) ∙ diverges_here x s q

pub tip-Behind :
    (front : List Bool) (x : Bool) (s bits : List Bool) (cells : List Cell)
    → Behind front x (tip s bits cells) (tip (front ++ (x ∷ s)) bits cells)
unfolding find
tip-Behind front x s bits cells = record {
  below = λ q. rw (same_front front x s q);
  beside = λ q. rw (apart_front front x s q);
  elsewhere = λ key h. rw (diverges-longer front (x ∷ s) key h);
}

pub branching-Behind :
    (front : List Bool) (x : Bool) (s : List Bool) (left right : Trie)
    → Behind front x (branching s left right) (branching (front ++ (x ∷ s)) left right)
unfolding find
branching-Behind front x s left right =
    let len : length (front ++ (x ∷ s)) ≡ length front + 1 + length s =
      omega (arith, length-append front (x ∷ s)) in
    let e : length (front ++ (x ∷ s)) + 1 ≡ length s + 1 + (length front + 1) =
      omega (arith, len) in
    record {
      below = λ q. rw (
        e,
        len,
        same_front front x s q,
        drop_at (length s) x front q,
        bit_at front x q (length s),
      );
      beside = λ q. rw (apart_front front x s q);
      elsewhere = λ key h. rw (diverges-longer front (x ∷ s) key h);
    }
