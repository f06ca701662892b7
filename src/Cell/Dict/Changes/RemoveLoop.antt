-- ===== src/Cell/Dict/Changes/RemoveLoop.antt =====
-- The walk of `remove`, over the cells of a tree.
use mathlib.Core.Path.{subst}
use ton_net.Base.{
  ℕ, zero, suc, ◌+◌, ◌-◌, ◌<◌, ◌≡◌, refl, sym, ◌∙◌, ap, inl, Bool, true, false, Option, none, some,
  List, [], ◌∷◌, ◌==◌, length, drop, drop-drop, if◌then◌else◌, arith,
}
use ton_net.Base.Result.{Result}
use ton_net.Cell.Error.{CellError}
use ton_net.Cell.Identity.{Hash}
use ton_net.Cell.Types.{Cell}
use ton_net.Cell.Slice.{Slice}
use ton_net.Cell.Assemble.Copies.{Views}
use ton_net.Cell.Dict.Key.{diverges}
use ton_net.Cell.Dict.Shape.{plain, Step}
use ton_net.Cell.Dict.Walk.{read_of, is_some, branch_bit, Walk, descend_at, descend_loop}
use ton_net.Cell.Dict.Trie.{Trie, hidden, tip, branching}
use ton_net.Cell.Dict.Trie.Delete.{Removal, missing, emptied, over_right, over_left, delete}
use ton_net.Cell.Dict.Node.{Node, Node-NodeRead, Node-ordinary, Is}
use ton_net.Cell.Dict.Lookups.{branch_bit-drop}
use ton_net.Cell.Dict.Changes.Past.{descend_at-past, past-then}
use ton_net.Cell.Dict.Changes.Removes.{Removes, lifted}

module _ (sha256 : List ℕ → Hash) (bits : List Bool) where
  either :
      (side : Bool) (left right : Removal) (next : Cell → Result CellError Walk) (x y : Cell)
      (path : List Step) (m : ℕ)
      → Removes sha256 left (next x) path m
      → Removes sha256 right (next y) path m
      → Removes sha256 (if side then right else left) (next (if side then y else x)) path m
  either true left right next x y path m l r = r
  either false left right next x y path m l r = l

  over_if :
      (side : Bool) (label : List Bool) (left right : Trie) (l r : Removal)
      → (if side
          then over_right label left (if side then r else l)
          else over_left label right (if side then r else l))
        ≡ (if side then over_right label left r else over_left label right l)
  over_if true label left right l r = refl
  over_if false label left right l r = refl

  module _ (rounds : ℕ) (c : Cell) (n consumed : ℕ) (label : List Bool) (path : List Step)
      (behind : Slice) where
    abbrev next : List Step → Cell → ℕ → ℕ → Result CellError Walk
    next = descend_loop plain rounds bits

    abbrev key : List Bool
    key = drop consumed bits

    ended_apart :
        (at : ℕ) (n' : ℕ)
        → diverges label key ≡ some at
        → Removes sha256 missing
            (descend_at plain next path c n consumed bits (label, behind))
            path
            n'
    unfolding Removes descend_at is_some
    ended_apart at n' e = rw (e) (_, refl, refl)

    ended_along :
        diverges label key ≡ none
        → length label ≡ n
        → Removes sha256 emptied
            (descend_at plain next path c n consumed bits (label, behind))
            path
            n
    unfolding Removes descend_at is_some
    ended_along e len =
        let full : (length label == n) ≡ true = ground arith in rw (e, full) (_, refl, refl, refl)

    at_tip :
        (held : List Bool) (cells : List Cell) (d : Option ℕ)
        → diverges label key ≡ d
        → length label ≡ n
        → Removes sha256
            (delete (tip label held cells) key)
            (descend_at plain next path c n consumed bits (label, behind))
            path
            n
    unfolding delete is_some
    at_tip held cells (some at) e len =
        let apart : is_some (diverges label key) ≡ true = rw (e) refl in
        rw (delete, apart) (ended_apart at n e)
    at_tip held cells none e len = rw (delete, e) (ended_along e len)

    at_fork :
        (left right : Trie) (x y : Cell) (d : Option ℕ)
        → diverges label key ≡ d
        → Node c n label [] (x ∷ y ∷ [])
        → length label < n
        → Views behind [] (x ∷ y ∷ [])
        → Is x (n - length label - 1) left
        → Is y (n - length label - 1) right
        → ((path' : List Step)
            → Removes sha256
                (delete left (drop (consumed + length label + 1) bits))
                (next path' x (n - length label - 1) (consumed + length label + 1))
                path'
                (n - length label - 1))
        → ((path' : List Step)
            → Removes sha256
                (delete right (drop (consumed + length label + 1) bits))
                (next path' y (n - length label - 1) (consumed + length label + 1))
                path'
                (n - length label - 1))
        → Removes sha256
            (delete (branching label left right) key)
            (descend_at plain next path c n consumed bits (label, behind))
            path
            n
    unfolding delete is_some
    at_fork left right x y (some at) e is short v l r ih_left ih_right =
        let apart : is_some (diverges label key) ≡ true = rw (e) refl in
        rw (delete, apart) (ended_apart at n e)
    at_fork left right x y none e is short v l r ih_left ih_right =
        let side = branch_bit bits (consumed + length label) in
        let below : drop (length label + 1) key ≡ drop (consumed + length label + 1) bits =
          drop-drop consumed (length label + 1) bits ∙ ap (λ i. drop i bits) (omega arith) in
        let m = n - length label - 1 in
        let at = consumed + length label + 1 in
        let step : Step = record { node = c; label = label; remaining = n; branch = side } in
        let z = if side then y else x in
        let out =
          descend_at-past bits c n consumed label x y path is short next behind v e
          ∙ past-then bits c n consumed label x y path is short next z refl in
        let dl = delete left (drop at bits) in
        let dr = delete right (drop at bits) in
        let inner =
          either side dl dr (λ z. next (step ∷ path) z m at) x y (step ∷ path) m
            (ih_left (step ∷ path)) (ih_right (step ∷ path)) in
        let up =
          lifted sha256 c n label x y path (next (step ∷ path) z m at) is short side left right
            (if side then dr else dl) l r inner in
        rw (delete, e, below, branch_bit-drop bits consumed (length label))
          (subst
            (λ w.
              Removes sha256 (if side then over_right label left dr else over_left label right dl) w
                path n)
            (sym out)
            (subst (λ o. Removes sha256 o (next (step ∷ path) z m at) path n)
              (over_if side label left right dl dr) up))

  pub descend_loop-Removes :
      (t : Trie) (rounds : ℕ) (c : Cell) (n consumed : ℕ) (path : List Step)
      → Is c n t
      → n < rounds
      → Removes sha256
          (delete t (drop consumed bits))
          (descend_loop plain rounds bits path c n consumed)
          path
          n
  unfolding descend_loop Is read_of descend_at
  descend_loop-Removes t zero c n consumed path is enough = absurd (omega arith)
  descend_loop-Removes hidden (suc rounds) c n consumed path is enough =
      unfold delete Removes in rw (is) (inl refl)
  descend_loop-Removes (tip label held cells) (suc rounds) c n consumed path (node, len) enough =
      let r = Node-NodeRead c n label held cells node in
      rw (Node-ordinary node, r.read)
        (at_tip rounds c n consumed label path r.behind held cells
          (diverges label (drop consumed bits)) refl len)
  descend_loop-Removes (branching label left right) (suc rounds) c n consumed path
        (x, y, node, short, l, r) enough =
      let read = Node-NodeRead c n label [] (x ∷ y ∷ []) node in
      let at = consumed + length label + 1 in
      let m = n - length label - 1 in
      rw (Node-ordinary node, read.read)
        (at_fork rounds c n consumed label path read.behind left right x y
          (diverges label (drop consumed bits)) refl node short read.views l r
          (λ path'. descend_loop-Removes left rounds x m at path' l (omega arith))
          (λ path'. descend_loop-Removes right rounds y m at path' r (omega arith)))
