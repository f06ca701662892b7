-- ===== src/Cell/Dict/Shape.antt =====
-- What a dictionary node carries: the trait `Shape` of core/src/cell/dict.rs, the answers of a
-- lookup, the building of one node and of a fork on a recorded path.
use ton_net.Base.{ℕ, ◌-◌, Bool, not, Option, none, some, List, ◌==◌, if◌then◌else◌, length}
use ton_net.Base.Result.{Result, ok, err, ◌>>=◌, ok_or}
use ton_net.Base.Exec.{lift, then_do, ◌>>◌}
use ton_net.Cell.Error.{CellError, malformed}
use ton_net.Cell.Identity.{Hash}
use ton_net.Cell.Types.{Cell, reference}
use ton_net.Cell.Builder.{Builder, Store, empty}
use ton_net.Cell.Slice.{Slice, Load, parse, skip_bits, remaining_bits}
use ton_net.Cell.Assemble.{store_builder, store_ref, build, built_by}
use ton_net.Cell.Dict.Label.{bool_run, store_label}

-- `enum Lookup`
pub data Lookup (A : Type 0) : Type 0 where
  found : A → Lookup A
  absent pruned_here : Lookup A

-- `Lookup::found`
unfoldable pub found_in : {A : Type 0} → Lookup A → Option A
found_in (found a) = some a
found_in absent = none
found_in pruned_here = none

pub record DictEntry : Type 0 where
  pub cell : Cell
  pub bit_offset : ℕ

unfoldable pub entry_slice : DictEntry → Result CellError Slice
entry_slice entry =
    let r = skip_bits entry.bit_offset (parse entry.cell) in
    elim (r.0) [ ok done ↦ ok (r.1) | err e ↦ err e ]

-- `NO_BRANCH`
abbrev pub no_branch : CellError
no_branch = malformed "dictionary fork without both branches"

-- `trait Shape`
pub record Shape (E : Type 0) : Type 0 where
  pub read_extra : Load E
  pub write_extra : E → Store (Unit {0})
  pub check_fork : Load (Unit {0})
  -- the children and the bits below
  pub fork_extra : Cell → Cell → ℕ → Result CellError E

-- `impl Shape for Plain`
unfoldable pub plain_check : Load (Unit {0})
plain_check s =
    if remaining_bits s == 0
    then (ok tt, s)
    else (err (malformed "a dictionary fork carrying data past its label"), s)

abbrev pub plain : Shape (Unit {0})
plain = record {
  read_extra = λ s. (ok tt, s);
  write_extra = λ extra b. (ok tt, b);
  check_fork = plain_check;
  fork_extra = λ left right below. ok tt;
}

-- `node.reference(branch).ok_or(NO_BRANCH)?`, where false is branch 0 and true is branch 1
unfoldable pub branch_of : Cell → Bool → Result CellError Cell
branch_of node branch = ok_or (reference node (if branch then 1 else 0)) no_branch

-- One fork on the path down.
pub record Step : Type 0 where
  pub node : Cell
  pub label : List Bool
  pub remaining : ℕ
  pub branch : Bool

unfoldable pub below : Step → ℕ
below step = step.remaining - length step.label - 1

-- `let extra = shape.fork_extra(..)?; shape.write_extra(&extra, &mut fork)?`
unfoldable pub write_fork_extra : {E : Type 0} → Shape E → Cell → Cell → ℕ → Store (Unit {0})
write_fork_extra shape left right under b =
    then_do (lift (shape.fork_extra left right under) b) shape.write_extra

module _ (sha256 : List ℕ → Hash) where
  -- A new builder that is stored into and built.
  unfoldable pub assemble : Store (Unit {0}) → Result CellError Cell
  assemble stores = built_by (stores empty) >>= build sha256

  module _ {E : Type 0} (shape : Shape E) where
    unfoldable pub leaf : List Bool → E → Builder → ℕ → Result CellError Cell
    leaf key extra value max =
        assemble
          (store_label (bool_run key) max >> (shape.write_extra extra >> store_builder value))

    -- A fork over two children: its label, what it carries over them, and the two references.
    unfoldable pub fork_over : List Bool → ℕ → ℕ → Cell → Cell → Result CellError Cell
    unfolding write_fork_extra
    fork_over label max under left right = assemble (
        store_label (bool_run label) max
        >> (write_fork_extra shape left right under >> (store_ref left >> store_ref right)))

    unfoldable pub rebuild_step : Step → Cell → Result CellError Cell
    unfolding fork_over below branch_of
    rebuild_step step child = branch_of step.node (not step.branch) >>= λ sibling.
        (if step.branch
          then fork_over step.label step.remaining (below step) sibling child
          else fork_over step.label step.remaining (below step) child sibling)
