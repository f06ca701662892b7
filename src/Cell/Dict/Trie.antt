-- ===== src/Cell/Dict/Trie.antt =====
-- The view of a dictionary's tree that forgets its cells: what the nodes of core/src/cell/dict.rs
-- say, and the two operations on it, by recursion.
pub mod Delete
pub mod Deletes
pub mod Laws
pub mod Below
pub mod Inserts
pub mod Apart
use ton_net.Base.{
  ℕ, zero, suc, ◌+◌, ◌-◌, ◌<◌, ◌≡◌, Bool, true, false, Option, none, some, List, [], ◌∷◌, length,
  take, drop, if◌then◌else◌,
}
use ton_net.Cell.Types.{Cell}
use ton_net.Cell.Dict.Key.{diverges}
use ton_net.Cell.Dict.Shape.{Lookup, found, absent, pruned_here}
use ton_net.Cell.Dict.Walk.{is_some, branch_bit}

-- A pruned branch, a leaf with its label and value, or a fork with its label.
pub data Trie : Type 0 where
  hidden : Trie
  tip : List Bool → List Bool → List Cell → Trie
  branching : List Bool → Trie → Trie → Trie

-- The widths of the labels fit the width of the keys.
unfoldable pub Fits : ℕ → Trie → Type 0
Fits n hidden = Unit {0}
Fits n (tip label bits cells) = length label ≡ n
Fits n (branching label left right) =
    (length label < n) × Fits (n - length label - 1) left × Fits (n - length label - 1) right

unfoldable pub find : Trie → List Bool → Lookup (List Bool × List Cell)
find hidden key = pruned_here
find (tip label bits cells) key =
    if is_some (diverges label key) then absent else found (bits, cells)
find (branching label left right) key =
    let on_left = find left (drop (length label + 1) key) in
    let on_right = find right (drop (length label + 1) key) in
    if is_some (diverges label key)
    then absent
    else if branch_bit key (length label)
    then on_right
    else on_left

-- A fork where a new leaf parts from the node that it meets.
unfoldable pub part : List Bool → ℕ → Trie → Trie → Trie
part label at kept fresh =
    if branch_bit label at
    then branching (take at label) fresh kept
    else branching (take at label) kept fresh

abbrev pub under : List Bool → ℕ → List Bool
under label at = drop (at + 1) label

unfoldable pub with_left : List Bool → Trie → Option Trie → Option Trie
with_left label right none = none
with_left label right (some left) = some (branching label left right)

unfoldable pub with_right : List Bool → Trie → Option Trie → Option Trie
with_right label left none = none
with_right label left (some right) = some (branching label left right)

-- The tree with the value under the key, unless the way to it is pruned.
unfoldable pub insert : Trie → List Bool → List Bool → List Cell → Option Trie
unfolding part with_left with_right
insert hidden key bits cells = none
insert (tip label held refs) key bits cells = elim (diverges label key) [
  | none ↦ some (tip key bits cells)
  | some at ↦ some (part label at (tip (under label at) held refs) (tip (under key at) bits cells))
]
insert (branching label left right) key bits cells =
    let on_left = insert left (drop (length label + 1) key) bits cells in
    let on_right = insert right (drop (length label + 1) key) bits cells in
    elim (diverges label key) [
      | none ↦
          if branch_bit key (length label)
          then with_right label left on_right
          else with_left label right on_left
      | some at ↦
          some
            (part label at (branching (under label at) left right) (tip (under key at) bits cells))
    ]
