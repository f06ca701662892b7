-- ===== src/Cell/Dict/Trie/Deletes.antt =====
-- Lookups after a deletion.
use ton_net.Base.{
  ℕ, ◌-◌, ◌<◌, ◌≡◌, ◌≢◌, refl, sym, ◌∙◌, ap, Bool, true, false, not, List, [], ◌∷◌, ◌++◌, length,
  length-append, arith, Bool-cases, inl, inr,
}
use ton_net.Cell.Dict.Key.{diverges}
use ton_net.Cell.Dict.Shape.{absent}
use ton_net.Cell.Dict.Walk.{is_some}
use ton_net.Cell.Dict.Trie.{Trie, hidden, tip, branching, Fits, find}
use ton_net.Cell.Dict.Trie.Apart.{diverges-along, diverges-equal, drop_front, bit_front}
use ton_net.Cell.Dict.Trie.Laws.{
  find-branching, find-branching_apart, find-tip_apart, Behind, tip-Behind, branching-Behind,
}
use ton_net.Cell.Dict.Trie.Inserts.{fork_on, parted-others, find-tip_other}
use ton_net.Cell.Dict.Trie.Below.{others_below}
use ton_net.Cell.Dict.Trie.Delete.{
  Removal, refused, missing, emptied, left_over, merge, over_right, over_left, delete, Deletes,
}

-- Below a fork on a label, at the side that the key takes.
module _ (n : ℕ) (label q : List Bool) (short : length label < n)
    (size : length q ≡ n - length label - 1) where
  abbrev m : ℕ
  m = n - length label - 1

  -- The fork of a sibling and a leaf that was alone, and what takes its place.
  merged :
      (x : Bool) (kept gone new : Trie)
      → Behind label x kept new
      → ((other : List Bool) → length other ≡ m → other ≢ q → find gone other ≡ absent)
      → Fits n new
      → Deletes n (fork_on label x kept gone) (label ++ (not x ∷ q)) (left_over new)
  unfolding Deletes
  merged x kept gone new behind alone fits = (
    behind.beside q,
    fits,
    λ other wide differs. sym (
        parted-others label x q kept new behind gone (λ r len d. alone r (sym len ∙ size) d) other
          (omega (arith, wide, length-append label (not x ∷ q), size)) differs),
  )

  merge-Deletes :
      (x : Bool) (kept gone : Trie)
      → Fits m kept
      → ((other : List Bool) → length other ≡ m → other ≢ q → find gone other ≡ absent)
      → Deletes n (fork_on label x kept gone) (label ++ (not x ∷ q)) (merge label x kept)
  unfolding merge Fits
  merge-Deletes x hidden gone fits alone = unfold Deletes in tt
  merge-Deletes x (tip own bits cells) gone fits alone =
      merged x (tip own bits cells) gone (tip (label ++ (x ∷ own)) bits cells)
        (tip-Behind label x own bits cells) alone
        (omega (arith, fits, length-append label (x ∷ own)))
  merge-Deletes x (branching own left right) gone (inside, l, r) alone =
      let total = length-append label (x ∷ own) in
      let e : n - length label - 1 - length own - 1 ≡ n - length (label ++ (x ∷ own)) - 1 =
        omega (arith, total) in
      merged x (branching own left right) gone (branching (label ++ (x ∷ own)) left right)
        (branching-Behind label x own left right) alone
        (omega (arith, total), rw (e) at l, rw (e) at r)

  right-Deletes :
      (left right : Trie) (r : Removal)
      → Fits m left
      → Deletes m right q r
      → Deletes n (branching label left right) (label ++ (true ∷ q)) (over_right label left r)
  unfolding over_right Deletes
  right-Deletes left right refused fits h = tt
  right-Deletes left right missing fits h = find-branching label left right true q ∙ h
  right-Deletes left right emptied fits h = merge-Deletes false left right fits h
  right-Deletes left right (left_over new) fits (here, ok_new, others) = (
    find-branching label left new true q ∙ here,
    unfold Fits in (short, fits, ok_new),
    λ other wide differs.
        others_below n [] [] label q left right short true left new other wide
          (λ r len d. others r len (λ e. d (ap (λ t. label ++ (true ∷ t)) e))) (λ r len d. refl)
          differs,
  )

  left-Deletes :
      (left right : Trie) (r : Removal)
      → Fits m right
      → Deletes m left q r
      → Deletes n (branching label left right) (label ++ (false ∷ q)) (over_left label right r)
  unfolding over_left Deletes
  left-Deletes left right refused fits h = tt
  left-Deletes left right missing fits h = find-branching label left right false q ∙ h
  left-Deletes left right emptied fits h = merge-Deletes true right left fits h
  left-Deletes left right (left_over new) fits (here, ok_new, others) = (
    find-branching label new right false q ∙ here,
    unfold Fits in (short, ok_new, fits),
    λ other wide differs.
        others_below n [] [] label q left right short false new right other wide (λ r len d. refl)
          (λ r len d. others r len (λ e. d (ap (λ t. label ++ (false ∷ t)) e))) differs,
  )

  taken-Deletes :
      (y : Bool) (left right : Trie)
      → Fits m left
      → Fits m right
      → Deletes m left q (delete left q)
      → Deletes m right q (delete right q)
      → is_some (diverges label (label ++ (y ∷ q))) ≡ false
      → Deletes n
          (branching label left right)
          (label ++ (y ∷ q))
          (delete (branching label left right) (label ++ (y ∷ q)))
  unfolding delete
  taken-Deletes true left right l r dl dr e =
      rw (e, bit_front label true q, drop_front label true q)
        (right-Deletes left right (delete right q) l dr)
  taken-Deletes false left right l r dl dr e =
      rw (e, bit_front label false q, drop_front label false q)
        (left-Deletes left right (delete left q) r dl)

-- In a tree whose labels fit, the outcome of a deletion says what lookups of keys of the full
-- width find, before and after.
pub delete-Deletes :
    (t : Trie) (n : ℕ) (key : List Bool)
    → Fits n t
    → length key ≡ n
    → Deletes n t key (delete t key)
unfolding Fits
delete-Deletes hidden n key fits size = unfold delete Deletes in tt
delete-Deletes (tip label bits cells) n key fits size =
    elim (Bool-cases (is_some (diverges label key))) [
      | inl apart ↦ unfold delete Deletes in rw (apart) (find-tip_apart label bits cells key apart)
      | inr along ↦
          let same = diverges-equal label key along (fits ∙ sym size) in
          unfold delete Deletes in
          rw (along) (λ other wide differs.
            find-tip_other label bits cells other (fits ∙ sym wide) (rw (same) differs))
    ]
delete-Deletes (branching label left right) n key (short, l, r) size =
    elim (Bool-cases (is_some (diverges label key))) [
      | inl apart ↦
          unfold delete Deletes in rw (apart) (find-branching_apart label left right key apart)
      | inr along ↦
          let (y, q, e) = diverges-along label key along (omega arith) in
          let whole : length (label ++ (y ∷ q)) ≡ n = sym (ap length e) ∙ size in
          let tail : length q ≡ n - length label - 1 =
            omega (arith, whole, length-append label (y ∷ q)) in
          let on_left = delete-Deletes left (n - length label - 1) q l tail in
          let on_right = delete-Deletes right (n - length label - 1) q r tail in
          rw (e)
            (taken-Deletes n label q short tail y left right l r on_left on_right (rw (e) at along))
    ]
