-- ===== src/Cell/Dict/Trie/Below.antt =====
-- What a lookup finds after an insertion.
use ton_net.Base.{
  ℕ, ◌-◌, ◌<◌, ◌≡◌, ◌≢◌, refl, sym, ◌∙◌, ap, Bool, true, false, Option, none, some, List, ◌∷◌, ◌++◌,
  length, length-append, if◌then◌else◌, arith, Bool-cases, inl, inr,
}
use ton_net.Cell.Types.{Cell}
use ton_net.Cell.Dict.Key.{diverges}
use ton_net.Cell.Dict.Walk.{is_some}
use ton_net.Cell.Dict.Trie.{Trie, hidden, tip, branching, Fits, find, with_left, with_right, insert}
use ton_net.Cell.Dict.Trie.Apart.{diverges-Apart, diverges-along, drop_front, bit_front}
use ton_net.Cell.Dict.Trie.Laws.{find-branching, find-branching_apart, branching-Behind}
use ton_net.Cell.Dict.Trie.Inserts.{Puts, put_some, parted-Puts, tip-Puts}

-- What goes on below a fork, on the side that the key takes.
module _ (n : ℕ) (bits : List Bool) (cells : List Cell) (label q : List Bool) (left right : Trie)
    (short : length label < n) where
  abbrev m : ℕ
  m = n - length label - 1

  either :
      (side : Bool) (left' right' : Trie)
      → ((r : List Bool)
          → length r ≡ m
          → label ++ (true ∷ r) ≢ label ++ (side ∷ q)
          → find right' r ≡ find right r)
      → ((r : List Bool)
          → length r ≡ m
          → label ++ (false ∷ r) ≢ label ++ (side ∷ q)
          → find left' r ≡ find left r)
      → (y : Bool) (r : List Bool) → length r ≡ m
      → label ++ (y ∷ r) ≢ label ++ (side ∷ q)
      → (if y then find right' r else find left' r) ≡ (if y then find right r else find left r)
  either side left' right' on_right on_left true r len d = on_right r len d
  either side left' right' on_right on_left false r len d = on_left r len d

  -- Another key, which goes on below the fork too or does not.
  pub others_below :
      (side : Bool) (left' right' : Trie)
      → (other : List Bool) → length other ≡ n
      → ((r : List Bool)
          → length r ≡ m
          → label ++ (true ∷ r) ≢ label ++ (side ∷ q)
          → find right' r ≡ find right r)
      → ((r : List Bool)
          → length r ≡ m
          → label ++ (false ∷ r) ≢ label ++ (side ∷ q)
          → find left' r ≡ find left r)
      → other ≢ label ++ (side ∷ q)
      → find (branching label left' right') other ≡ find (branching label left right) other
  others_below side left' right' other wide on_right on_left differs =
      elim (Bool-cases (is_some (diverges label other))) [
        | inl apart ↦
            find-branching_apart label left' right' other apart
            ∙ sym (find-branching_apart label left right other apart)
        | inr along ↦
            let r = diverges-along label other along (omega (arith, wide)) in
            let there : length (label ++ (r.0 ∷ r.1)) ≡ n = sym (ap length (r.2)) ∙ wide in
            let tail : length r.1 ≡ m = omega (arith, there, length-append label (r.0 ∷ r.1)) in
            rw (r.2) (
              find-branching label left' right' r.0 r.1
              ∙ either side left' right' on_right on_left r.0 r.1 tail (rw (r.2) at differs)
              ∙ sym (find-branching label left right r.0 r.1))
      ]

  right-Puts :
      (new : Trie)
      → Fits m left
      → Puts m right new q bits cells
      → Puts n
          (branching label left right)
          (branching label left new)
          (label ++ (true ∷ q))
          bits
          cells
  right-Puts new fits p = record {
    here = find-branching label left new true q ∙ p.here;
    others = λ other wide differs.
        others_below true left new other wide
          (λ r len d. p.others r len (λ e. d (ap (λ t. label ++ (true ∷ t)) e))) (λ r len d. refl)
          differs;
    fits = unfold Fits in (short, fits, p.fits);
  }

  left-Puts :
      (new : Trie)
      → Fits m right
      → Puts m left new q bits cells
      → Puts n
          (branching label left right)
          (branching label new right)
          (label ++ (false ∷ q))
          bits
          cells
  left-Puts new fits p = record {
    here = find-branching label new right false q ∙ p.here;
    others = λ other wide differs.
        others_below false new right other wide (λ r len d. refl)
          (λ r len d. p.others r len (λ e. d (ap (λ t. label ++ (false ∷ t)) e))) differs;
    fits = unfold Fits in (short, p.fits, fits);
  }

  with_right-Puts :
      (new : Trie) (o : Option Trie)
      → Fits m left
      → with_right label left o ≡ some new
      → ((r : Trie) → o ≡ some r → Puts m right r q bits cells)
      → Puts n (branching label left right) new (label ++ (true ∷ q)) bits cells
  unfolding with_right
  with_right-Puts new none fits h ih = absurd (cc h)
  with_right-Puts new (some r) fits h ih = put_some n bits cells h (right-Puts r fits (ih r refl))

  with_left-Puts :
      (new : Trie) (o : Option Trie)
      → Fits m right
      → with_left label right o ≡ some new
      → ((l : Trie) → o ≡ some l → Puts m left l q bits cells)
      → Puts n (branching label left right) new (label ++ (false ∷ q)) bits cells
  unfolding with_left
  with_left-Puts new none fits h ih = absurd (cc h)
  with_left-Puts new (some l) fits h ih = put_some n bits cells h (left-Puts l fits (ih l refl))

-- An insertion at a fork, once those below it are known.
module _ (n : ℕ) (bits : List Bool) (cells : List Cell) (label : List Bool) (left right new : Trie)
    (short : length label < n) (fits_left : Fits (n - length label - 1) left)
    (fits_right : Fits (n - length label - 1) right)
    (on_left : (t : Trie) (q : List Bool)
      → length q ≡ n - length label - 1
      → insert left q bits cells ≡ some t
      → Puts (n - length label - 1) left t q bits cells)
    (on_right : (t : Trie) (q : List Bool)
      → length q ≡ n - length label - 1
      → insert right q bits cells ≡ some t
      → Puts (n - length label - 1) right t q bits cells) where
  taken-Puts :
      (y : Bool) (q : List Bool)
      → length q ≡ n - length label - 1
      → diverges label (label ++ (y ∷ q)) ≡ none
      → insert (branching label left right) (label ++ (y ∷ q)) bits cells ≡ some new
      → Puts n (branching label left right) new (label ++ (y ∷ q)) bits cells
  unfolding insert
  taken-Puts true q size e h =
      with_right-Puts n bits cells label q left right short new (insert right q bits cells)
        fits_left (rw (insert, e, bit_front label true q, drop_front label true q) at h)
        (λ t. on_right t q size)
  taken-Puts false q size e h =
      with_left-Puts n bits cells label q left right short new (insert left q bits cells) fits_right
        (rw (insert, e, bit_front label false q, drop_front label false q) at h)
        (λ t. on_left t q size)

  branching-Puts :
      (key : List Bool) (d : Option ℕ)
      → diverges label key ≡ d
      → length key ≡ n
      → insert (branching label left right) key bits cells ≡ some new
      → Puts n (branching label left right) new key bits cells
  unfolding insert is_some
  branching-Puts key none e size h =
      let r = diverges-along label key (rw (e) refl) (omega arith) in
      let long : length (label ++ (r.0 ∷ r.1)) ≡ n = sym (ap length (r.2)) ∙ size in
      rw (r.2) (
        taken-Puts r.0 r.1 (omega (arith, long, length-append label (r.0 ∷ r.1))) (rw (r.2) at e)
          (rw (r.2) at h))
  branching-Puts key (some at) e size h =
      let a = diverges-Apart label key at e in
      let total = length-append a.front (a.bit ∷ a.of_label) in
      let len : length label ≡ length (a.front ++ (a.bit ∷ a.of_label)) = ap length a.label_is in
      let rest : n - length label - 1 ≡ n - length a.front - 1 - length a.of_label - 1 =
        omega (arith, total, len) in
      put_some n bits cells (rw (insert, e) at h) (
        parted-Puts n bits cells (λ l. branching l left right) a.front a.bit a.of_label a.of_key
          label key at (branching-Behind a.front a.bit a.of_label left right) a.label_is a.key_is
          a.at_is size
          (unfold Fits in
            (omega (arith, total, len), rw (rest) at fits_left, rw (rest) at fits_right)))

-- In a tree whose labels fit, a key of the full width that was put in is found with its value,
-- every other key of that width is found as before, and the labels still fit.
pub insert-Puts :
    (t new : Trie) (n : ℕ) (key bits : List Bool) (cells : List Cell)
    → Fits n t
    → length key ≡ n
    → insert t key bits cells ≡ some new
    → Puts n t new key bits cells
unfolding Fits
insert-Puts hidden new n key bits cells fits size h = absurd (unfold insert in cc h)
insert-Puts (tip label held refs) new n key bits cells fits size h =
    tip-Puts n bits cells label key held refs new (diverges label key) refl fits size h
insert-Puts (branching label left right) new n key bits cells (short, on_left, on_right) size h =
    branching-Puts n bits cells label left right new short on_left on_right
      (λ t q. insert-Puts left t (n - length label - 1) q bits cells on_left)
      (λ t q. insert-Puts right t (n - length label - 1) q bits cells on_right) key
      (diverges label key) refl size h
