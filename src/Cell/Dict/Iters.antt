-- ===== src/Cell/Dict/Iters.antt =====
-- A step of an iteration against the leaves of the trees that are still to visit, from left to right.
use mathlib.Core.List.{append_assoc}
use ton_net.Base.{
  ℕ, zero, suc, ◌+◌, ◌-◌, ◌≤◌, ◌<◌, ◌≡◌, refl, Bool, true, false, none, some, List, [], ◌∷◌, ◌++◌,
  ◌==◌, length, length-append, arith,
}
use ton_net.Base.Result.{Result, ok, err}
use ton_net.Cell.Error.{CellError, pruned}
use ton_net.Cell.Types.{Cell}
use ton_net.Cell.Slice.{Slice}
use ton_net.Cell.Assemble.Copies.{Views}
use ton_net.Cell.Dict.Key.{pack}
use ton_net.Cell.Dict.Label.Kept.{push-room, one_longer}
use ton_net.Cell.Dict.Shape.{DictEntry, entry_slice, plain, branch_of}
use ton_net.Cell.Dict.Walk.{read_of}
use ton_net.Cell.Dict.Trie.{Trie, hidden, tip, branching}
use ton_net.Cell.Dict.Node.{NodeRead, Node-NodeRead, Node-ordinary, Is}
use ton_net.Cell.Dict.Lookups.{Node-branch_of}
use ton_net.Cell.Dict.Builds.Collapse.{extend-room}
use ton_net.Cell.Dict.Iter.{
  Pending, push_child, leaf_at, node_at, read_node, step_loop, walk_step, Stepped,
}

-- A leaf under its whole key, or a pruned branch.
pub data Shown : Type 0 where
  cut : Shown
  shown : List Bool → List Bool → List Cell → Shown

unfoldable pub leaves : List Bool → Trie → List Shown
leaves prefix hidden = cut ∷ []
leaves prefix (tip label bits cells) = shown (prefix ++ label) bits cells ∷ []
leaves prefix (branching label left right) =
    leaves ((prefix ++ label) ++ (false ∷ [])) left
    ++ leaves ((prefix ++ label) ++ (true ∷ [])) right

-- The stack holds the cells of those trees, under keys no wider than a cell.
unfoldable pub Waits : List Pending → List Trie → Type 0
Waits [] [] = Unit {0}
Waits [] (t ∷ ts) = ⊥
Waits (top ∷ stack) [] = ⊥
Waits (top ∷ stack) (t ∷ ts) =
    Is top.node top.remaining t × (length top.prefix + top.remaining ≤ 1023) × Waits stack ts

unfoldable pub all_leaves : List Pending → List Trie → List Shown
unfolding leaves
all_leaves [] ts = []
all_leaves (top ∷ stack) [] = []
all_leaves (top ∷ stack) (t ∷ ts) = leaves top.prefix t ++ all_leaves stack ts

-- A step ends where no leaf is left, refuses at a pruned branch, and otherwise returns the first
-- leaf, under its packed key and with an entry that opens at exactly its value, and leaves a stack
-- with the other leaves.
unfoldable pub Yields : Result CellError (Stepped plain) × List Pending → List Shown → Type 0
unfolding Waits all_leaves
Yields out [] = out ≡ (ok none, [])
Yields out (cut ∷ rest) = out.0 ≡ err pruned
Yields out (shown key bits cells ∷ rest) =
    (entry : DictEntry) × (stack : List Pending) × (ts : List Trie) × (out
      ≡ (ok (some (pack key, tt, entry)), stack))
    × ((s : Slice) × (entry_slice entry ≡ ok s) × Views s bits cells)
    × Waits stack ts
    × (all_leaves stack ts ≡ rest)

push_child-there :
    (node z : Cell) (key : List Bool) (below : ℕ) (side : Bool) (stack : List Pending)
    → branch_of node side ≡ ok z
    → length key < 1023
    → push_child node key below side stack
      ≡ (ok tt, record { node = z; prefix = key ++ (side ∷ []); remaining = below } ∷ stack)
unfolding push_child
push_child-there node z key below side stack there room =
    rw (push_child, there, push-room side key room) refl

module _ (top : Pending) (stack : List Pending) (ts : List Trie) (rest_waits : Waits stack ts)
    (room : length top.prefix + top.remaining ≤ 1023) where
  read_node-there :
      (label bits : List Bool) (cells : List Cell)
      → length label ≤ top.remaining
      → (r : NodeRead top.node top.remaining label bits cells)
      → read_node plain top ≡ ok (label, top.prefix ++ label, r.behind)
  unfolding read_node read_of
  read_node-there label bits cells fits r =
      rw (r.read, extend-room top.prefix label (omega arith)) refl

  at_leaf :
      (rounds : ℕ) (label bits : List Bool) (cells : List Cell)
      → length label ≡ top.remaining
      → (r : NodeRead top.node top.remaining label bits cells)
      → Yields
          (node_at plain (step_loop plain rounds) top label (top.prefix ++ label) r.behind stack)
          (shown (top.prefix ++ label) bits cells ∷ all_leaves stack ts)
  unfolding node_at Yields leaf_at read_of
  at_leaf rounds label bits cells len r =
      let whole : (length label == top.remaining) ≡ true = ground arith in
      rw (whole) (_, stack, ts, refl, (r.behind, r.opens, r.views), rest_waits, refl)

-- Down to the first leaf below the node on top.
step_loop-Yields :
    (t : Trie) (rounds : ℕ) (top : Pending) (stack : List Pending) (ts : List Trie)
    → Is top.node top.remaining t
    → length top.prefix + top.remaining ≤ 1023
    → Waits stack ts
    → top.remaining < rounds
    → Yields (step_loop plain rounds (top ∷ stack)) (leaves top.prefix t ++ all_leaves stack ts)
unfolding step_loop Is leaves node_at all_leaves
step_loop-Yields t zero top stack ts is room rest enough = absurd (omega arith)
step_loop-Yields hidden (suc rounds) top stack ts is room rest enough =
    unfold Yields in rw (is) refl
step_loop-Yields (tip label bits cells) (suc rounds) top stack ts (node, len) room rest enough =
    let r = Node-NodeRead top.node top.remaining label bits cells node in
    rw (Node-ordinary node, read_node-there top stack ts rest room label bits cells node.fits r)
      (at_leaf top stack ts rest room rounds label bits cells len r)
step_loop-Yields (branching label left right) (suc rounds) top stack ts (x, y, node, short, l, r)
      room rest enough =
    let read = Node-NodeRead top.node top.remaining label [] (x ∷ y ∷ []) node in
    let key = top.prefix ++ label in
    let m = top.remaining - length label - 1 in
    let long : length key ≡ length top.prefix + length label = length-append top.prefix label in
    let partway : (length label == top.remaining) ≡ false = ground arith in
    let on_right : Pending = record { node = y; prefix = key ++ (true ∷ []); remaining = m } in
    let on_left : Pending = record { node = x; prefix = key ++ (false ∷ []); remaining = m } in
    let one_t = one_longer true key in
    let one_f = one_longer false key in
    let waits : Waits (on_right ∷ stack) (right ∷ ts) =
      unfold Waits in (r, omega (arith, long, one_t), rest) in
    let below =
      step_loop-Yields left rounds on_left (on_right ∷ stack) (right ∷ ts) l
        (omega (arith, long, one_f)) waits (omega arith) in
    rw
      (
        Node-ordinary node,
        read_node-there top stack ts rest room label [] (x ∷ y ∷ []) node.fits read,
      )
      (rw
        (
          partway,
          push_child-there top.node y key m true stack (Node-branch_of node true)
              (omega (arith, long)),
          push_child-there top.node x key m false (on_right ∷ stack) (Node-branch_of node false)
              (omega (arith, long)),
          append_assoc (leaves (key ++ (false ∷ [])) left) (leaves (key ++ (true ∷ [])) right)
              (all_leaves stack ts),
        )
        below)

-- On a stack that holds the cells of trees, under keys no wider than a cell, a step of an
-- iteration returns within its rounds: it ends where the trees have no leaf left, refuses at a
-- pruned branch, and otherwise returns the first leaf from the left under its packed key, with an
-- entry that opens at exactly its value, and leaves a stack with the other leaves in order.
pub walk_step-Yields :
    (stack : List Pending) (ts : List Trie)
    → Waits stack ts
    → Yields (walk_step plain stack) (all_leaves stack ts)
unfolding walk_step Waits all_leaves step_loop
walk_step-Yields [] ts w = unfold Yields in refl
walk_step-Yields (top ∷ stack) [] w = absurd w
walk_step-Yields (top ∷ stack) (t ∷ ts) (is, room, rest) =
    step_loop-Yields t (top.remaining + 1) top stack ts is room rest (omega arith)
