-- ===== src/Cell/Dict/Maps/RemoveGet.antt =====
-- `get` of a plain dictionary after `remove`.
use mathlib.Core.Path.{subst}
use ton_net.Base.{true, false, ℕ, ◌≡◌, ◌≢◌, refl, sym, ap, Bool, Option, none, some, List, length}
use ton_net.Base.Result.{Result, ok, err}
use ton_net.Cell.Error.{CellError}
use ton_net.Cell.Identity.{Hash}
use ton_net.Cell.Types.{Cell}
use ton_net.Cell.Dict.Key.{key_of}
use ton_net.Cell.Dict.Shape.{absent}
use ton_net.Cell.Dict.Plain.{Dict, put_root}
use ton_net.Cell.Dict.Trie.{Trie}
use ton_net.Cell.Dict.Node.{Is}
use ton_net.Cell.Dict.Maps.{IsRoot, find_in, Is-Fits}
use ton_net.Cell.Dict.Plain.{remove_root, remove}
use ton_net.Cell.Dict.Trie.Delete.{Removal, refused, missing, emptied, left_over, delete, Deletes}
use ton_net.Cell.Dict.Trie.Deletes.{delete-Deletes}
use ton_net.Cell.Dict.Maps.Removing.{Returns, remove_root-delete}
use ton_net.Cell.Dict.Maps.SetGet.{IsMap, Gets, Kept, Kept-trees, get-find, length-key_of}

-- What a `remove` that returned has left.
record Gone (root : Option Cell) (n : ℕ) (t : Option Trie) (bits : List Bool) (was_there : Bool)
    (left : Option Cell) : Type 0 where
  tree : Option Trie
  cells : IsRoot left n tree
  without : find_in tree bits ≡ absent
  others :
      (other : List Bool) → length other ≡ n → other ≢ bits → find_in tree other ≡ find_in t other
  untouched : was_there ≡ false → left ≡ root

gone_from :
    (r : Removal) (t : Trie) (root : Cell) (n : ℕ) (bits : List Bool) (was_there : Bool)
    (left : Option Cell) (out : Result CellError (Bool × Option Cell))
    → Is root n t
    → Deletes n t bits r
    → Returns r root n out
    → out ≡ ok (was_there, left)
    → Gone (some root) n (some t) bits was_there left
unfolding Deletes Returns IsRoot find_in
gone_from refused t root n bits was left out is d e h = absurd (cc (e, h))
gone_from missing t root n bits was left out is d e h =
    let same : some root ≡ left = cc (e, h) in
    record {
      tree = some t;
      cells = subst (λ o. IsRoot o n (some t)) same is;
      without = d;
      others = λ other wide differs. refl;
      untouched = λ f. sym same;
    }
gone_from emptied t root n bits was left out is d e h =
    let nothing : ◌≡◌ {A = Option Cell} none left = cc (e, h) in
    let there : was ≡ true = cc (e, h) in
    record {
      tree = none;
      cells = subst (λ o. IsRoot o n none) nothing tt;
      without = refl;
      others = λ other wide differs. sym (d other wide differs);
      untouched = λ f. absurd (cc (f, there));
    }
gone_from (left_over new) t root n bits was left out is (here, fits, others) e h =
    let (there, c, is_left, is_new) = e was left h in
    record {
      tree = some new;
      cells = subst (λ o. IsRoot o n (some new)) (sym is_left) is_new;
      without = here;
      others = others;
      untouched = λ f. absurd (cc (f, there));
    }

module _ (sha256 : List ℕ → Hash) where
  gone :
      (root : Option Cell) (t : Option Trie) (n : ℕ) (bits : List Bool) (was_there : Bool)
      (left : Option Cell)
      → IsRoot root n t
      → length bits ≡ n
      → remove_root sha256 root n bits ≡ ok (was_there, left)
      → Gone root n t bits was_there left
  unfolding IsRoot
  gone none none n bits was left is size h =
      let same : ◌≡◌ {A = Option Cell} none left = unfold remove_root in cc h in
      record {
        tree = none;
        cells = subst (λ o. IsRoot o n none) same tt;
        without = unfold find_in in refl;
        others = λ other wide differs. refl;
        untouched = λ f. sym same;
      }
  gone none (some t) n bits was left is size h = absurd is
  gone (some root) none n bits was left is size h = absurd is
  gone (some root) (some t) n bits was left is size h =
      gone_from (delete t bits) t root n bits was left (remove_root sha256 (some root) n bits) is
        (delete-Deletes t n bits (Is-Fits t root n is) size)
        (remove_root-delete sha256 root n bits t is) h

  remove_root-of :
      (dict after : Dict) (key : List ℕ) (bits : List Bool) (was_there : Bool)
      → key_of key dict.key_bits ≡ ok bits
      → remove sha256 key dict ≡ (ok was_there, after)
      → (left : Option Cell) × (remove_root sha256 dict.root dict.key_bits bits
          ≡ ok (was_there, left))
        × (after ≡ record dict { root = left })
  unfolding remove put_root
  remove_root-of dict after key bits was k h =
      same_answer (remove_root sha256 dict.root dict.key_bits bits) (rw (remove, k) at h)
    where
      same_answer :
          (r : Result CellError (Bool × Option Cell))
          → put_root r dict ≡ (ok was, after)
          → (left : Option Cell) × (r ≡ ok (was, left)) × (after ≡ record dict { root = left })
      same_answer (ok (b, root)) h = (root, cc h, cc h)
      same_answer (err e) h = absurd (cc h)

  -- After a `remove` that returned, over a dictionary whose cells are those of a tree and under
  -- a key that is long enough, the dictionary is again the cells of a tree of the same width or
  -- empty, `get` says that the key is absent and says of any key with other bits what it said
  -- before, and the dictionary is as it was when `remove` says that the key was not there.
  pub remove-get :
      (dict after : Dict) (t : Option Trie) (key : List ℕ) (bits : List Bool) (was_there : Bool)
      → IsMap dict t
      → key_of key dict.key_bits ≡ ok bits
      → remove sha256 key dict ≡ (ok was_there, after)
      → (new : Option Trie) × IsMap after new
        × (after.key_bits ≡ dict.key_bits)
        × Gets after key absent
        × Kept dict after bits
        × (was_there ≡ false → after ≡ dict)
  remove-get dict after t key bits was is k h =
      let (left, removed, is_after) = remove_root-of dict after key bits was k h in
      let g =
        gone dict.root t dict.key_bits bits was left is.cells
          (length-key_of key dict.key_bits bits k) removed in
      let is' : IsMap (record dict { root = left }) g.tree = record {
        cells = g.cells;
        narrow = is.narrow;
      } in
      let here =
        subst (Gets (record dict { root = left }) key) g.without
          (get-find (record dict { root = left }) g.tree key bits is' k) in
      subst
        (λ d.
          (new : Option Trie) × IsMap d new
          × (d.key_bits ≡ dict.key_bits)
          × Gets d key absent
          × Kept dict d bits
          × (was ≡ false → d ≡ dict))
        (sym is_after)
        (
          g.tree,
          is',
          refl,
          here,
          Kept-trees dict left t g.tree bits is is' g.others,
          λ f. ap (λ o. record dict { root = o }) (g.untouched f),
        )
