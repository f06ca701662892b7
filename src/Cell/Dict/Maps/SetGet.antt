-- ===== src/Cell/Dict/Maps/SetGet.antt =====
-- `get` of a plain dictionary, and `get` after `set`.
use mathlib.Core.Path.{subst}
use ton_net.Base.{
  ℕ, zero, suc, ◌+◌, ◌/◌, ◌≤◌, ◌≡◌, ◌≢◌, refl, sym, ◌∙◌, ap, Bool, Option, none, some, List, ltb,
  length, arith, Bool-cases, inl, inr,
}
use ton_net.Base.Result.{Result, ok, err, >>=-eq-ok}
use ton_net.Cell.Error.{CellError}
use ton_net.Cell.Identity.{Hash}
use ton_net.Cell.Types.{Cell, as_slice}
use ton_net.Cell.Builder.{Builder}
use ton_net.Cell.Builder.Invariant.{contents}
use ton_net.Cell.Slice.{Slice}
use ton_net.Cell.Assemble.Copies.{Views}
use ton_net.Cell.Dict.Key.{key_of, key_bits_from}
use ton_net.Cell.Dict.Shape.{Lookup, found, absent, pruned_here, DictEntry, entry_slice, plain}
use ton_net.Cell.Dict.Walk.{lookup}
use ton_net.Cell.Dict.Plain.{Dict, entry_of, get, put_root, set_root, set}
use ton_net.Cell.Dict.Trie.{Trie, tip, find}
use ton_net.Cell.Dict.Trie.Inserts.{find-tip_self, find-tip_other}
use ton_net.Cell.Dict.Trie.Below.{insert-Puts}
use ton_net.Cell.Dict.Node.{Is}
use ton_net.Cell.Dict.Lookups.{Answers, Finds, lookup-find}
use ton_net.Cell.Dict.Maps.{IsRoot, find_in, insert_in, Is-Fits, set_root-insert}

-- The dictionary's cells are those of a tree, under keys no wider than a cell.
pub record IsMap (dict : Dict) (t : Option Trie) : Type 0 where
  pub cells : IsRoot dict.root dict.key_bits t
  pub narrow : dict.key_bits ≤ 1023

unfoldable pub Opens : Lookup DictEntry → Lookup (List Bool × List Cell) → Type 0
Opens (found entry) (found (bits, refs)) =
    (s : Slice) × (entry_slice entry ≡ ok s) × Views s bits refs
Opens absent absent = Unit {0}
Opens pruned_here pruned_here = Unit {0}
Opens _ _ = ⊥

-- `get` returns that: an entry that opens at exactly those bits and references, that the key is
-- absent, or that its way is pruned.
unfoldable pub Gets : Dict → List ℕ → Lookup (List Bool × List Cell) → Type 0
Gets dict key want = (answer : Lookup DictEntry) × (get dict key ≡ ok answer) × Opens answer want

Answers-Opens :
    (answer : Lookup (Unit {0} × DictEntry)) (want : Lookup (List Bool × List Cell))
    → Answers answer want
    → Opens (entry_of answer) want
unfolding Answers Opens entry_of
Answers-Opens (found (extra, entry)) (found (bits, refs)) h = h
Answers-Opens (found entry) absent h = h
Answers-Opens (found entry) pruned_here h = h
Answers-Opens absent absent h = h
Answers-Opens absent (found v) h = h
Answers-Opens absent pruned_here h = h
Answers-Opens pruned_here pruned_here h = h
Answers-Opens pruned_here absent h = h
Answers-Opens pruned_here (found v) h = h

lookup_in-find :
    (root : Option Cell) (t : Option Trie) (n : ℕ) (bits : List Bool)
    → IsRoot root n t
    → Finds (lookup plain root n bits) (find_in t bits)
unfolding IsRoot find_in
lookup_in-find none none n bits is = unfold lookup Answers in (absent, refl, tt)
lookup_in-find none (some t) n bits is = absurd is
lookup_in-find (some c) none n bits is = absurd is
lookup_in-find (some c) (some t) n bits is = lookup-find c n bits t is

-- `get` under a key that is long enough says what the tree says of the key's bits.
pub get-find :
    (dict : Dict) (t : Option Trie) (key : List ℕ) (bits : List Bool)
    → IsMap dict t
    → key_of key dict.key_bits ≡ ok bits
    → Gets dict key (find_in t bits)
unfolding Gets get
get-find dict t key bits is k =
    let (answer, looked, says) = lookup_in-find dict.root t dict.key_bits bits is.cells in
    (entry_of answer, rw (k, looked) refl, Answers-Opens answer (find_in t bits) says)

length-key_bits_from : (key : List ℕ) (index n : ℕ) → length (key_bits_from key index n) ≡ n
unfolding key_bits_from
length-key_bits_from key index zero = refl
length-key_bits_from key index (suc n) = ap suc (length-key_bits_from key (index + 1) n)

same_bits : (a b : List Bool) → ◌≡◌ {A = Result CellError (List Bool)} (ok a) (ok b) → a ≡ b
same_bits a b h = cc

pub length-key_of :
    (key : List ℕ) (n : ℕ) (bits : List Bool) → key_of key n ≡ ok bits → length bits ≡ n
unfolding key_of
length-key_of key n bits h = elim (Bool-cases (ltb (length key) ((n + 7) / 8))) [
  | inl short ↦ absurd (cc (rw (short) at h))
  | inr enough ↦
      sym (ap length (same_bits (key_bits_from key 0 n) bits (rw (enough) at h)))
      ∙ length-key_bits_from key 0 n
]

-- A change that went through put its root in.
pub put_root-ok :
    {A : Type 0} (r : Result CellError (A × Option Cell)) (dict after : Dict) (a : A)
    → put_root r dict ≡ (ok a, after)
    → (root : Option Cell) × (b : A) × (r ≡ ok (b, root)) × (after ≡ record dict { root = root })
unfolding put_root
put_root-ok (ok (b, root)) dict after a h = (root, b, refl, cc (h))
put_root-ok (err e) dict after a h = absurd (cc h)

found_after :
    (t : Option Trie) (new : Trie) (root : Option Cell) (bits held : List Bool) (cells : List Cell)
    → IsRoot root (length bits) t
    → insert_in t bits held cells ≡ some new
    → (find new bits ≡ found (held, cells))
      × ((other : List Bool)
          → length other ≡ length bits
          → other ≢ bits
          → find new other ≡ find_in t other)
unfolding insert_in find_in IsRoot
found_after none new root bits held cells is h =
    let e : tip bits held cells ≡ new = cc h in
    subst
      (λ n.
        (find n bits ≡ found (held, cells))
        × ((other : List Bool) → length other ≡ length bits → other ≢ bits → find n other ≡ absent))
      e
      (
        find-tip_self bits held cells,
        λ other len differs. find-tip_other bits held cells other (sym len) differs,
      )
found_after (some t) new none bits held cells is h = absurd is
found_after (some t) new (some c) bits held cells is h =
    let p = insert-Puts t new (length bits) bits held cells (Is-Fits t c (length bits) is) refl h in
    (p.here, p.others)

-- The two answers of `get`, before and after, for every other key.
abbrev pub Kept : Dict → Dict → List Bool → Type 0
Kept dict after bits =
    (other : List ℕ) (other_bits : List Bool)
    → key_of other dict.key_bits ≡ ok other_bits
    → other_bits ≢ bits
    → (want : Lookup (List Bool × List Cell)) × Gets dict other want × Gets after other want

-- They agree where the trees do.
pub Kept-trees :
    (dict : Dict) (root : Option Cell) (t new : Option Trie) (bits : List Bool)
    → IsMap dict t
    → IsMap (record dict { root = root }) new
    → ((other : List Bool)
        → length other ≡ dict.key_bits
        → other ≢ bits
        → find_in new other ≡ find_in t other)
    → Kept dict (record dict { root = root }) bits
Kept-trees dict root t new bits is is' same other other_bits k differs =
    let after = record dict { root = root } in
    (
      find_in t other_bits,
      get-find dict t other other_bits is k,
      subst (Gets after other)
          (same other_bits (length-key_of other dict.key_bits other_bits k) differs)
          (get-find after new other other_bits is' k),
    )

module _ (sha256 : List ℕ → Hash) where
  set_root-of :
      (dict after : Dict) (key : List ℕ) (bits : List Bool) (value : Builder)
      → key_of key dict.key_bits ≡ ok bits
      → set sha256 key value dict ≡ (ok tt, after)
      → (top : Cell) × (set_root sha256 dict.root dict.key_bits bits value ≡ ok top)
        × (after ≡ record dict { root = some top })
  unfolding set
  set_root-of dict after key bits value k h =
      let (root, b, built, is_after) = put_root-ok _ dict after tt (rw (set, k) at h) in
      let r =
        >>=-eq-ok (set_root sha256 dict.root dict.key_bits bits value) (λ top. ok (tt, some top))
          built in
      let same : root ≡ some (r.0) = cc (r.2) in
      (r.0, r.1, is_after ∙ ap (λ o. record dict { root = o }) same)

  with_root :
      (dict : Dict) (t : Option Trie) (new : Trie) (top : Cell) (key : List ℕ)
      (bits held : List Bool) (cells : List Cell)
      → IsMap dict t
      → key_of key dict.key_bits ≡ ok bits
      → length bits ≡ dict.key_bits
      → insert_in t bits held cells ≡ some new
      → IsMap (record dict { root = some top }) (some new)
      → Gets (record dict { root = some top }) key (found (held, cells))
        × Kept dict (record dict { root = some top }) bits
  unfolding find_in
  with_root dict t new top key bits held cells is k width put is' =
      let after = record dict { root = some top } in
      let there = subst (λ n. IsRoot dict.root n t) (sym width) is.cells in
      let (here, others) = found_after t new dict.root bits held cells there put in
      (
        subst (Gets after key) here (get-find after (some new) key bits is' k),
        Kept-trees dict (some top) t (some new) bits is is'
            (λ other wide. others other (wide ∙ sym width)),
      )

  -- After a `set` that returned, over a dictionary whose cells are those of a tree and under a
  -- key that is long enough, the dictionary is again the cells of a tree of the same width,
  -- `get` of the key opens at exactly the bits and references of the value, and `get` of any
  -- key with other bits says what it said before.
  pub set-get :
      (dict after : Dict) (t : Option Trie) (key : List ℕ) (bits : List Bool) (value : Builder)
      → IsMap dict t
      → key_of key dict.key_bits ≡ ok bits
      → set sha256 key value dict ≡ (ok tt, after)
      → (new : Trie) × IsMap after (some new)
        × (after.key_bits ≡ dict.key_bits)
        × Gets after key (found (contents value, as_slice value.refs))
        × ((other : List ℕ) (other_bits : List Bool)
            → key_of other dict.key_bits ≡ ok other_bits
            → other_bits ≢ bits
            → (want : Lookup (List Bool × List Cell)) × Gets dict other want
              × Gets after other want)
  unfolding IsRoot
  set-get dict after t key bits value is k h =
      let (top, built, is_after) = set_root-of dict after key bits value k h in
      let width = length-key_of key dict.key_bits bits k in
      let there = subst (λ n. IsRoot dict.root n t) (sym width) is.cells in
      let built' = subst (λ n. set_root sha256 dict.root n bits value ≡ ok top) (sym width) built in
      let (new, put, top_is) =
        (set_root-insert sha256 bits value dict.root t (omega (arith, width, is.narrow)) there).1
          top built' in
      let is' : IsMap (record dict { root = some top }) (some new) = record {
        cells = subst (λ n. Is top n new) width top_is;
        narrow = is.narrow;
      } in
      let said =
        with_root dict t new top key bits (contents value) (as_slice value.refs) is k width put
          is' in
      subst
        (λ d.
          (new : Trie) × IsMap d (some new)
          × (d.key_bits ≡ dict.key_bits)
          × Gets d key (found (contents value, as_slice value.refs))
          × Kept dict d bits)
        (sym is_after) (new, is', refl, said.0, said.1)
