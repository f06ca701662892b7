-- ===== src/Cell/Dict/Trie/Delete.antt =====
-- The tree without a key, and what a lookup finds in it.
use ton_net.Base.{ℕ, ◌+◌, ◌≡◌, ◌≢◌, Bool, true, false, List, ◌∷◌, ◌++◌, length, drop, if◌then◌else◌}
use ton_net.Cell.Dict.Key.{diverges}
use ton_net.Cell.Dict.Shape.{absent}
use ton_net.Cell.Dict.Walk.{is_some, branch_bit}
use ton_net.Cell.Dict.Trie.{Trie, hidden, tip, branching, Fits, find}

-- Refused at a pruned branch, the key is not there, nothing is left, or that tree is.
pub data Removal : Type 0 where
  refused missing emptied : Removal
  left_over : Trie → Removal

-- A fork's surviving branch takes the label of the fork.
unfoldable pub merge : List Bool → Bool → Trie → Removal
merge label bit hidden = refused
merge label bit (tip own bits cells) = left_over (tip (label ++ (bit ∷ own)) bits cells)
merge label bit (branching own left right) = left_over (branching (label ++ (bit ∷ own)) left right)

unfoldable pub over_right : List Bool → Trie → Removal → Removal
unfolding merge
over_right label left refused = refused
over_right label left missing = missing
over_right label left emptied = merge label false left
over_right label left (left_over right) = left_over (branching label left right)

unfoldable pub over_left : List Bool → Trie → Removal → Removal
unfolding merge
over_left label right refused = refused
over_left label right missing = missing
over_left label right emptied = merge label true right
over_left label right (left_over left) = left_over (branching label left right)

unfoldable pub delete : Trie → List Bool → Removal
unfolding over_left over_right
delete hidden key = refused
delete (tip label bits cells) key = if is_some (diverges label key) then missing else emptied
delete (branching label left right) key =
    let on_left = delete left (drop (length label + 1) key) in
    let on_right = delete right (drop (length label + 1) key) in
    if is_some (diverges label key)
    then missing
    else if branch_bit key (length label)
    then over_right label left on_right
    else over_left label right on_left

-- What the outcome says of lookups, before and after.
unfoldable pub Deletes : ℕ → Trie → List Bool → Removal → Type 0
Deletes n old key refused = Unit {0}
Deletes n old key missing = find old key ≡ absent
Deletes n old key emptied =
    (other : List Bool) → length other ≡ n → other ≢ key → find old other ≡ absent
Deletes n old key (left_over new) =
    (find new key ≡ absent)
    × Fits n new
    × ((other : List Bool) → length other ≡ n → other ≢ key → find new other ≡ find old other)
