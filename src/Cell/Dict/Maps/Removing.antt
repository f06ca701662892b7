-- ===== src/Cell/Dict/Maps/Removing.antt =====
-- `remove` of a plain dictionary and the deletion in its tree.
use ton_net.Base.{
  ℕ, ◌+◌, ◌≡◌, refl, inl, inr, Bool, true, false, Option, none, some, List, [], arith,
}
use ton_net.Base.Result.{Result, ok, err, ◌>>=◌, >>=-eq-ok}
use ton_net.Cell.Error.{CellError, pruned}
use ton_net.Cell.Identity.{Hash}
use ton_net.Cell.Types.{Cell}
use ton_net.Cell.Dict.Shape.{plain}
use ton_net.Cell.Dict.Walk.{is_some, Walk, descend, rebuild}
use ton_net.Cell.Dict.Plain.{remove_leaf, remove_at, remove_root}
use ton_net.Cell.Dict.Trie.{Trie}
use ton_net.Cell.Dict.Trie.Delete.{Removal, refused, missing, emptied, left_over, delete}
use ton_net.Cell.Dict.Node.{Is}
use ton_net.Cell.Dict.Changes.Removes.{Removes}
use ton_net.Cell.Dict.Changes.RemoveLoop.{descend_loop-Removes}

-- What `remove` returns for an outcome: an error, whether the key was there and the root that is
-- left. The build of that root may fail.
unfoldable pub Returns : Removal → Cell → ℕ → Result CellError (Bool × Option Cell) → Type 0
Returns refused root n out = out ≡ err pruned
Returns missing root n out = out ≡ ok (false, some root)
Returns emptied root n out = out ≡ ok (true, none)
Returns (left_over new) root n out =
    (was_there : Bool) (left : Option Cell)
    → out ≡ ok (was_there, left)
    → (was_there ≡ true) × (c : Cell) × (left ≡ some c) × Is c n new

module _ (sha256 : List ℕ → Hash) where
  apart_end :
      (root : Cell) (walk : Walk) (d : Option ℕ)
      → walk.diverged ≡ d
      → is_some d ≡ true
      → remove_at sha256 root walk walk.diverged ≡ ok (false, some root)
  unfolding remove_at is_some
  apart_end root walk none e h = absurd (cc h)
  apart_end root walk (some at) e h = rw (e) refl

  returned :
      (r : Removal) (root : Cell) (n : ℕ) (out : Result CellError Walk)
      → Removes sha256 r out [] n
      → Returns r root n (out >>= λ walk. remove_at sha256 root walk walk.diverged)
  unfolding Returns Removes remove_at remove_leaf rebuild
  returned refused root n out (inl e) = rw (e)
  returned refused root n out (inr (walk, o, (d, e))) = rw (o, remove_at, d, e)
  returned missing root n out (walk, o, h) = rw (o) (apart_end root walk walk.diverged refl h)
  returned emptied root n out (walk, o, d, p) = rw (o, remove_at, d, p)
  returned (left_over new) root n out (walk, o, d, f) = λ was left h.
      let r =
        >>=-eq-ok (remove_leaf sha256 walk.path) (λ left. ok (true, left))
          (rw (o, remove_at, d) at h) in
      let (c, is, e) = f (r.0) (r.1) in
      let kept : left ≡ some c = cc (e, r.2) in (cc (r.2), c, kept, is)

  -- `remove` of a key over the cells of a tree does what the deletion in the tree says: it
  -- refuses as pruned where the way to the key is pruned or the branch that would take the
  -- place of a fork is, says that the key is not there and keeps the root, leaves nothing, or
  -- returns no root but that of the tree without the key.
  pub remove_root-delete :
      (root : Cell) (n : ℕ) (bits : List Bool) (t : Trie)
      → Is root n t
      → Returns (delete t bits) root n (remove_root sha256 (some root) n bits)
  unfolding remove_root descend
  remove_root-delete root n bits t is =
      returned (delete t bits) root n (descend plain root n bits) (
        unfold descend in (descend_loop-Removes sha256 bits t (n + 1) root n 0 [] is (omega arith)))
