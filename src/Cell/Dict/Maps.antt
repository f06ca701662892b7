-- ===== src/Cell/Dict/Maps.antt =====
-- The plain dictionary as a map: `get`, `set` and the tree of the dictionary.
pub mod SetGet
pub mod Removing
pub mod RemoveGet
use mathlib.Core.Path.{subst}
use ton_net.Base.{
  ℕ, zero, suc, ◌+◌, ◌-◌, ◌*◌, ◌/◌, ◌≤◌, ◌<◌, ◌≡◌, ◌≢◌, refl, sym, ◌∙◌, ap, Bool, true, false,
  Option, none, some, List, [], ◌∷◌, ltb, length, drop, if◌then◌else◌, arith, Bool-cases, inl, inr,
}
use ton_net.Base.Result.{Result, ok, err, ◌>>=◌, >>=-eq-ok}
use ton_net.Cell.Error.{CellError, pruned}
use ton_net.Cell.Identity.{Hash}
use ton_net.Cell.Types.{Cell, as_slice}
use ton_net.Cell.Builder.{Builder}
use ton_net.Cell.Builder.Invariant.{IsWf, contents}
use ton_net.Cell.Slice.{Slice}
use ton_net.Cell.Assemble.Copies.{Views}
use ton_net.Cell.Dict.Key.{key_of, key_bits_from}
use ton_net.Cell.Dict.Shape.{
  Lookup, found, absent, pruned_here, DictEntry, entry_slice, plain, leaf,
}
use ton_net.Cell.Dict.Walk.{Walk, descend_loop, descend, rebuild, lookup}
use ton_net.Cell.Dict.Plain.{Dict, entry_of, get, put_root, set_root, set}
use ton_net.Cell.Dict.Trie.{Trie, hidden, tip, branching, Fits, find, insert}
use ton_net.Cell.Dict.Trie.Inserts.{Puts, find-tip_self, find-tip_other}
use ton_net.Cell.Dict.Trie.Below.{insert-Puts}
use ton_net.Cell.Dict.Node.{Node, Is}
use ton_net.Cell.Dict.Lookups.{Answers, Finds, lookup-find}
use ton_net.Cell.Dict.Builds.{leaf-Node}
use ton_net.Cell.Dict.Changes.{Sets}
use ton_net.Cell.Dict.Changes.Sets.{descend_loop-Sets}
use ton_net.Cell.Dict.Changes.Pruned.{descend_loop-pruned}

-- The tree of a root that may be absent.
unfoldable pub IsRoot : Option Cell → ℕ → Option Trie → Type 0
IsRoot none n none = Unit {0}
IsRoot none n (some t) = ⊥
IsRoot (some c) n none = ⊥
IsRoot (some c) n (some t) = Is c n t

unfoldable pub find_in : Option Trie → List Bool → Lookup (List Bool × List Cell)
find_in none key = absent
find_in (some t) key = find t key

unfoldable pub insert_in : Option Trie → List Bool → List Bool → List Cell → Option Trie
insert_in none key bits cells = some (tip key bits cells)
insert_in (some t) key bits cells = insert t key bits cells

pub Is-Fits : (t : Trie) (c : Cell) (n : ℕ) → Is c n t → Fits n t
unfolding Is Fits
Is-Fits hidden c n is = tt
Is-Fits (tip label bits cells) c n (node, len) = len
Is-Fits (branching label left right) c n (x, y, node, short, l, r) =
    (short, Is-Fits left x (n - length label - 1) l, Is-Fits right y (n - length label - 1) r)

module _ (sha256 : List ℕ → Hash) (bits : List Bool) (value : Builder) where
  -- An error that was not met.
  never_err :
      (o : Option Trie) (out : Result CellError Cell) (top : Cell)
      → out ≡ ok top
      → (o ≡ none → out ≡ err pruned)
      → ((new : Trie) → o ≡ some new → Is top (length bits) new)
      → (new : Trie) × (o ≡ some new) × Is top (length bits) new
  never_err none out top h bad good = absurd (cc (h, bad refl))
  never_err (some new) out top h bad good = (new, refl, good new refl)

  set_over-insert :
      (t new : Trie) (root top : Cell)
      → Is root (length bits) t
      → insert t bits (contents value) (as_slice value.refs) ≡ some new
      → set_root sha256 (some root) (length bits) bits value ≡ ok top
      → Is top (length bits) new
  unfolding set_root descend rebuild
  set_over-insert t new root top is h e =
      let (walk, walked, built) =
        descend_loop-Sets sha256 bits value t new (length bits + 1) root (length bits) 0 [] is
          (omega arith) (omega arith) h in
      let made = built top (rw (walked) at e) in
      let same : made.0 ≡ top = cc (made.2) in subst (λ c. Is c (length bits) new) same (made.1)

  set_over-pruned :
      (t : Trie) (root : Cell)
      → Is root (length bits) t
      → insert t bits (contents value) (as_slice value.refs) ≡ none
      → set_root sha256 (some root) (length bits) bits value ≡ err pruned
  unfolding set_root descend
  set_over-pruned t root is h = rw (
      descend_loop-pruned bits (contents value) (as_slice value.refs) t (length bits + 1) root
        (length bits) 0 [] is (omega arith) h)

  -- For a key of the full width, at most 1023 bits, `set` over the cells of a tree refuses as
  -- pruned where the way to the key is pruned, and any root that it returns is that of the tree
  -- with the value put in.
  pub set_root-insert :
      (root : Option Cell) (t : Option Trie)
      → length bits ≤ 1023
      → IsRoot root (length bits) t
      → (insert_in t bits (contents value) (as_slice value.refs) ≡ none
          → set_root sha256 root (length bits) bits value ≡ err pruned)
        × ((top : Cell)
            → set_root sha256 root (length bits) bits value ≡ ok top
            → (new : Trie) × (insert_in t bits (contents value) (as_slice value.refs) ≡ some new)
              × Is top (length bits) new)
  unfolding IsRoot insert_in
  set_root-insert none none narrow is = (
    λ h. absurd (cc h),
    λ top h. (
      tip bits (contents value) (as_slice value.refs),
      refl,
      unfold Is set_root in
          (leaf-Node sha256 bits value (length bits) top (omega arith) narrow h, refl),
    ),
  )
  set_root-insert none (some t) narrow is = absurd is
  set_root-insert (some root) none narrow is = absurd is
  set_root-insert (some root) (some t) narrow is = (
    set_over-pruned t root is,
    λ top h.
        never_err (insert t bits (contents value) (as_slice value.refs)) _ top h
          (set_over-pruned t root is) (λ new e. set_over-insert t new root top is e h),
  )
