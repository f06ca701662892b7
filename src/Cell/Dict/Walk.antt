-- ===== src/Cell/Dict/Walk.antt =====
-- The walks over a tree of cells: lookup, descend, split, collapse and rebuild of
-- core/src/cell/dict.rs. A walk spends a bit of the key at each fork, so a walk under a key of n
-- bits is given n + 1 rounds.
use ton_net.Base.{
  ℕ, zero, suc, ◌+◌, ◌-◌, Bool, true, false, not, Option, none, some, List, [], ◌∷◌, ◌==◌,
  if◌then◌else◌, length, get_elem?,
}
use ton_net.Base.Result.{Result, ok, err, ◌>>=◌}
use ton_net.Base.Exec.{lift, then_do, ◌>>◌}
use ton_net.Cell.Error.{CellError, pruned}
use ton_net.Cell.Kind.{is_exotic}
use ton_net.Cell.Identity.{Hash}
use ton_net.Cell.Types.{Cell, cell_type, bit_len}
use ton_net.Cell.Builder.{Builder, Store}
use ton_net.Cell.Slice.{Slice, parse, remaining_bits}
use ton_net.Cell.Assemble.{store_slice}
use ton_net.Cell.Dict.Label.{bool_run, read_label_into, skip_label, store_label}
use ton_net.Cell.Dict.Key.{label_sink, push, extend, tail, head, rest, bit_or_false, diverges}
use ton_net.Cell.Dict.Shape.{
  Lookup, found, absent, pruned_here, DictEntry, no_branch, Shape, branch_of, Step, below, assemble,
  leaf, fork_over, rebuild_step,
}

-- The value of a state-passing read, with the cursor after it.
unfoldable pub read_of : {A : Type 0} → Result CellError A × Slice → Result CellError (A × Slice)
read_of (ok a, s) = ok (a, s)
read_of (err e, s) = err e

-- Where a key parts from the tree, and the forks passed on the way, the last one first.
pub record Walk : Type 0 where
  pub path : List Step
  pub node : Cell
  pub label : List Bool
  pub remaining : ℕ
  pub consumed : ℕ
  pub diverged : Option ℕ

unfoldable pub is_some : {A : Type 0} → Option A → Bool
is_some none = false
is_some (some a) = true

-- The next bit of the key, which picks the branch.
unfoldable pub branch_bit : List Bool → ℕ → Bool
branch_bit bits at = bit_or_false (get_elem? bits at)

module _ {E : Type 0} (shape : Shape E) where
  -- What a lookup does once it has read the label of a node.
  unfoldable pub lookup_at :
      (Cell → ℕ → ℕ → Result CellError (Lookup (E × DictEntry)))
      → Cell
      → ℕ
      → ℕ
      → List Bool
      → List Bool × Slice
      → Result CellError (Lookup (E × DictEntry))
  lookup_at next node remaining consumed bits (label, slice) =
      if is_some (diverges label (rest bits consumed))
      then ok absent
      else if remaining - length label == 0
      then (read_of (shape.read_extra slice) >>= λ r.
          ok (found (r.0, record { cell = node; bit_offset = bit_len node - remaining_bits r.1 })))
      else (branch_of node (branch_bit bits (consumed + length label)) >>= λ child.
          next child (remaining - length label - 1) (consumed + length label + 1))

  unfoldable pub lookup_loop :
      ℕ → List Bool → Cell → ℕ → ℕ → Result CellError (Lookup (E × DictEntry))
  lookup_loop zero bits node remaining consumed = err no_branch
  lookup_loop (suc rounds) bits node remaining consumed =
      if is_exotic (cell_type node)
      then ok pruned_here
      else (read_of (read_label_into label_sink remaining [] (parse node)) >>= λ r.
          lookup_at (lookup_loop rounds bits) node remaining consumed bits r)

  unfoldable pub lookup : Option Cell → ℕ → List Bool → Result CellError (Lookup (E × DictEntry))
  lookup none key_bits bits = ok absent
  lookup (some root) key_bits bits = lookup_loop (key_bits + 1) bits root key_bits 0

  unfoldable pub descend_at :
      (List Step → Cell → ℕ → ℕ → Result CellError Walk)
      → List Step
      → Cell
      → ℕ
      → ℕ
      → List Bool
      → List Bool × Slice
      → Result CellError Walk
  descend_at next path node remaining consumed bits (label, slice) =
      let diverged = diverges label (rest bits consumed) in
      if is_some diverged
      then ok (record {
        path = path;
        node = node;
        label = label;
        remaining = remaining;
        consumed = consumed;
        diverged = diverged;
      })
      else if length label == remaining
      then ok (record {
        path = path;
        node = node;
        label = label;
        remaining = remaining;
        consumed = consumed;
        diverged = diverged;
      })
      else (read_of (shape.check_fork slice) >>= λ checked.
          (branch_of node (branch_bit bits (consumed + length label)) >>= λ child.
          next
            (record {
              node = node;
              label = label;
              remaining = remaining;
              branch = branch_bit bits (consumed + length label);
            }
              ∷ path)
            child (remaining - (length label + 1)) (consumed + (length label + 1))))

  unfoldable pub descend_loop : ℕ → List Bool → List Step → Cell → ℕ → ℕ → Result CellError Walk
  descend_loop zero bits path node remaining consumed = err no_branch
  descend_loop (suc rounds) bits path node remaining consumed =
      if is_exotic (cell_type node)
      then err pruned
      else (read_of (read_label_into label_sink remaining [] (parse node)) >>= λ r.
          descend_at (descend_loop rounds bits) path node remaining consumed bits r)

  unfoldable pub descend : Cell → ℕ → List Bool → Result CellError Walk
  descend root key_bits bits = descend_loop (key_bits + 1) bits [] root key_bits 0

-- `skip_label(&mut slice, remaining)?; kept.store_slice(slice)?`
unfoldable pub store_rest : Cell → ℕ → Store (Unit {0})
unfolding read_of
store_rest node remaining b =
    then_do (lift (read_of (skip_label remaining (parse node))) b) (λ r. store_slice r.1)

module _ (sha256 : List ℕ → Hash) where
  -- The old node, with what is left of its label.
  unfoldable pub relabelled : Cell → List Bool → ℕ → ℕ → Result CellError Cell
  unfolding store_rest
  relabelled node label max remaining =
      assemble sha256 (store_label (bool_run label) max >> store_rest node remaining)

  -- A fork's surviving branch, merged into the fork.
  unfoldable pub collapse : Step → Result CellError Cell
  unfolding below
  collapse parent = branch_of parent.node (not parent.branch) >>= λ sibling.
      (if is_exotic (cell_type sibling)
        then err pruned
        else (push (not parent.branch) parent.label >>= λ label.
            (read_of (read_label_into label_sink (below parent) [] (parse sibling)) >>= λ r.
            (extend label r.0 >>= λ merged.
            assemble sha256 (store_label (bool_run merged) parent.remaining >> store_slice r.1)))))

  module _ {E : Type 0} (shape : Shape E) where
    unfoldable pub split :
        Cell → List Bool → ℕ → ℕ → List Bool → E → Builder → Result CellError Cell
    unfolding relabelled
    split node label at remaining key extra value =
        let under = remaining - at - 1 in
        relabelled node (tail label (at + 1)) under remaining >>= λ kept.
        (leaf sha256 shape (rest key (at + 1)) extra value under >>= λ fresh.
        (if branch_bit label at
          then fork_over sha256 shape (head label at) remaining under fresh kept
          else fork_over sha256 shape (head label at) remaining under kept fresh))

    -- Every fork on the path, from the deepest up to the root.
    unfoldable pub rebuild : List Step → Cell → Result CellError Cell
    rebuild [] child = ok child
    rebuild (step ∷ path) child =
        rebuild_step sha256 shape step child >>= λ higher. rebuild path higher
