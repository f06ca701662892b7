-- ===== src/Cell/Dict/Plain.antt =====
-- The plain dictionary: `Dict` of core/src/cell/dict/plain.rs.
use ton_net.Base.{ℕ, Bool, true, false, Option, none, some, List, [], ◌∷◌}
use ton_net.Base.Result.{Result, ok, err, ◌>>=◌}
use ton_net.Base.Exec.{Exec}
use ton_net.Cell.Error.{CellError}
use ton_net.Cell.Identity.{Hash}
use ton_net.Cell.Types.{Cell}
use ton_net.Cell.Builder.{Builder}
use ton_net.Cell.Dict.Key.{check_key_bits, key_of, rest}
use ton_net.Cell.Dict.Shape.{Lookup, found, absent, pruned_here, DictEntry, plain, leaf, Step}
use ton_net.Cell.Dict.Walk.{Walk, lookup, descend, split, collapse, rebuild}

pub record Dict : Type 0 where
  pub root : Option Cell
  pub key_bits : ℕ

unfoldable pub from_root : Option Cell → ℕ → Result CellError Dict
from_root root key_bits =
    check_key_bits key_bits >>= λ checked. ok (record { root = root; key_bits = key_bits })

unfoldable pub new_dict : ℕ → Result CellError Dict
unfolding from_root
new_dict key_bits = from_root none key_bits

unfoldable pub is_empty : Dict → Bool
is_empty dict = elim dict.root [ none ↦ true | some root ↦ false ]

-- The answer without the empty summary.
unfoldable pub entry_of : Lookup (Unit {0} × DictEntry) → Lookup DictEntry
entry_of (found (extra, entry)) = found entry
entry_of absent = absent
entry_of pruned_here = pruned_here

unfoldable pub get : Dict → List ℕ → Result CellError (Lookup DictEntry)
unfolding entry_of
get dict key = key_of key dict.key_bits >>= λ bits.
    (lookup plain dict.root dict.key_bits bits >>= λ answer. ok (entry_of answer))

-- The root that a change leaves is written at its end; an error leaves the dictionary as it was.
unfoldable pub put_root : {A : Type 0} → Result CellError (A × Option Cell) → Exec CellError Dict A
put_root (ok (a, root)) dict = (ok a, record dict { root = root })
put_root (err e) dict = (err e, dict)

module _ (sha256 : List ℕ → Hash) where
  -- What stands where the walk ended: a fork over the old node and the new leaf, or the new leaf.
  unfoldable pub bottom_at : Walk → List Bool → Builder → Option ℕ → Result CellError Cell
  bottom_at walk key value none = leaf sha256 plain key tt value walk.remaining
  bottom_at walk key value (some at) =
      split sha256 plain walk.node walk.label at walk.remaining key tt value

  unfoldable pub set_root : Option Cell → ℕ → List Bool → Builder → Result CellError Cell
  unfolding bottom_at
  set_root none key_bits bits value = leaf sha256 plain bits tt value key_bits
  set_root (some root) key_bits bits value = descend plain root key_bits bits >>= λ walk.
      (bottom_at walk (rest bits walk.consumed) value walk.diverged >>= λ bottom.
      rebuild sha256 plain walk.path bottom)

  unfoldable pub set : List ℕ → Builder → Exec CellError Dict (Unit {0})
  unfolding set_root put_root
  set key value dict =
      put_root
        (key_of key dict.key_bits >>= λ bits.
          (set_root dict.root dict.key_bits bits value >>= λ root. ok (tt, some root)))
        dict

  -- What is left once the leaf at the end of the path is gone.
  unfoldable pub remove_leaf : List Step → Result CellError (Option Cell)
  remove_leaf [] = ok none
  remove_leaf (parent ∷ path) = collapse sha256 parent >>= λ merged.
      (rebuild sha256 plain path merged >>= λ root. ok (some root))

  unfoldable pub remove_at : Cell → Walk → Option ℕ → Result CellError (Bool × Option Cell)
  unfolding remove_leaf
  remove_at root walk (some at) = ok (false, some root)
  remove_at root walk none = remove_leaf walk.path >>= λ left. ok (true, left)

  unfoldable pub remove_root : Option Cell → ℕ → List Bool → Result CellError (Bool × Option Cell)
  unfolding remove_at
  remove_root none key_bits bits = ok (false, none)
  remove_root (some root) key_bits bits =
      descend plain root key_bits bits >>= λ walk. remove_at root walk walk.diverged

  unfoldable pub remove : List ℕ → Exec CellError Dict Bool
  unfolding remove_root put_root
  remove key dict =
      put_root (key_of key dict.key_bits >>= λ bits. remove_root dict.root dict.key_bits bits) dict
