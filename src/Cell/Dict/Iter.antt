-- ===== src/Cell/Dict/Iter.antt =====
-- Iteration in ascending key order: `walk_step` of core/src/cell/dict.rs, and `DictIter`, `iter` and
-- `min` of core/src/cell/dict/plain.rs. A step goes down to the first leaf below the node on top of
-- its stack, which takes at most one round for each bit that is to go there, and one more.
use ton_net.Base.{
  ℕ, zero, suc, ◌+◌, ◌-◌, Bool, true, false, Option, none, some, List, [], ◌∷◌, ◌==◌, if◌then◌else◌,
  length,
}
use ton_net.Base.Result.{Result, ok, err, ◌>>=◌}
use ton_net.Base.Exec.{Exec, then_do}
use ton_net.Cell.Error.{CellError, pruned}
use ton_net.Cell.Kind.{is_exotic}
use ton_net.Cell.Types.{Cell, cell_type, bit_len}
use ton_net.Cell.Slice.{Slice, parse, remaining_bits}
use ton_net.Cell.Dict.Label.{read_label_into}
use ton_net.Cell.Dict.Key.{label_sink, push, extend, pack}
use ton_net.Cell.Dict.Shape.{DictEntry, Shape, plain, branch_of, no_branch}
use ton_net.Cell.Dict.Walk.{read_of}
use ton_net.Cell.Dict.Plain.{Dict}

-- A node that is still to visit, the key bits above it and how many are to go.
pub record Pending : Type 0 where
  pub node : Cell
  pub prefix : List Bool
  pub remaining : ℕ

unfoldable pub push_child : Cell → List Bool → ℕ → Bool → Exec CellError (List Pending) (Unit {0})
push_child node key below branch stack =
    elim (branch_of node branch >>= λ child.
    (push branch key >>= λ longer.
    ok (record { node = child; prefix = longer; remaining = below }))) [
      | err e ↦ (err e, stack)
      | ok pending ↦ (ok tt, pending ∷ stack)
    ]

-- The rounds that are enough for a step.
unfoldable pub rounds_of : List Pending → ℕ
rounds_of [] = 1
rounds_of (top ∷ stack) = top.remaining + 1

module _ {E : Type 0} (shape : Shape E) where
  abbrev pub Stepped : Type 0
  Stepped = Option (List ℕ × E × DictEntry)

  -- A leaf, once its label is read.
  unfoldable pub leaf_at : Cell → List Bool → Slice → Exec CellError (List Pending) Stepped
  leaf_at node key slice stack = elim (read_of (shape.read_extra slice)) [
    | err e ↦ (err e, stack)
    | ok r ↦ (
      ok (
          some (
            pack key,
            r.0,
            record { cell = node; bit_offset = bit_len node - remaining_bits r.1 },
          )),
      stack,
    )
  ]

  -- A node whose label was read and whose key is known. The right branch goes on the stack first.
  unfoldable pub node_at :
      Exec CellError (List Pending) Stepped
      → Pending
      → List Bool
      → List Bool
      → Slice
      → Exec CellError (List Pending) Stepped
  unfolding leaf_at
  node_at next top label key slice stack =
      let below = top.remaining - length label - 1 in
      if length label == top.remaining
      then leaf_at top.node key slice stack
      else then_do (push_child top.node key below true stack)
          (λ right stack'. then_do (push_child top.node key below false stack') (λ left. next))

  unfoldable pub read_node : Pending → Result CellError (List Bool × List Bool × Slice)
  read_node top = read_of (read_label_into label_sink top.remaining [] (parse top.node)) >>= λ r.
      (extend top.prefix r.0 >>= λ key. ok (r.0, key, r.1))

  unfoldable pub step_loop : ℕ → Exec CellError (List Pending) Stepped
  step_loop zero stack = (err no_branch, stack)
  step_loop (suc rounds) [] = (ok none, [])
  step_loop (suc rounds) (top ∷ stack) =
      if is_exotic (cell_type top.node) then (err pruned, stack) else elim (read_node top) [
        | err e ↦ (err e, stack)
        | ok r ↦ node_at (step_loop rounds) top r.0 r.1 r.2 stack
      ]

  unfoldable pub walk_step : Exec CellError (List Pending) Stepped
  unfolding rounds_of
  walk_step stack = step_loop (rounds_of stack) stack

-- `DictIter`, with its `next`
pub record DictIter : Type 0 where
  pub stack : List Pending
  pub done : Bool

unfoldable pub iter : Dict → DictIter
iter dict = record {
  stack = elim dict.root [
    | none ↦ []
    | some root ↦ record { node = root; prefix = []; remaining = dict.key_bits } ∷ []
  ];
  done = false;
}

abbrev pub Item : Type 0
Item = Option (Result CellError (List ℕ × DictEntry))

unfoldable pub item_of : Result CellError (Stepped plain) × List Pending → Item × DictIter
item_of (ok (some (key, extra, entry)), stack) =
    (some (ok (key, entry)), record { stack = stack; done = false })
item_of (ok none, stack) = (none, record { stack = stack; done = true })
item_of (err e, stack) = (some (err e), record { stack = stack; done = true })

unfoldable pub next : DictIter → Item × DictIter
unfolding item_of
next walk = if walk.done then (none, walk) else item_of (walk_step plain walk.stack)

-- `Option<Result<..>>` turned over
unfoldable pub transpose : Item → Result CellError (Option (List ℕ × DictEntry))
transpose none = ok none
transpose (some (ok item)) = ok (some item)
transpose (some (err e)) = err e

unfoldable pub min : Dict → Result CellError (Option (List ℕ × DictEntry))
unfolding transpose
min dict = transpose (next (iter dict)).0
