-- ===== src/Cell/Dict/Changes/Sets.antt =====
-- `set` over the cells of a dictionary is an insertion in its tree.
use mathlib.Core.Path.{subst}
use ton_net.Base.{
  ℕ, zero, suc, ◌+◌, ◌-◌, ◌<◌, ◌≡◌, refl, sym, ◌∙◌, ap, Bool, true, false, Option, none, some, List,
  [], ◌∷◌, length, drop, drop-drop, if◌then◌else◌, arith, Bool-cases, inl, inr,
}
use ton_net.Base.Result.{Result, >>=-eq-ok}
use ton_net.Cell.Error.{CellError}
use ton_net.Cell.Identity.{Hash}
use ton_net.Cell.Types.{Cell, as_slice}
use ton_net.Cell.Builder.{Builder}
use ton_net.Cell.Builder.Invariant.{contents}
use ton_net.Cell.Slice.{Slice}
use ton_net.Cell.Assemble.Copies.{Views}
use ton_net.Cell.Dict.Key.{diverges}
use ton_net.Cell.Dict.Shape.{plain, Step, rebuild_step}
use ton_net.Cell.Dict.Walk.{read_of, branch_bit, Walk, descend_at, descend_loop, rebuild}
use ton_net.Cell.Dict.Trie.{Trie, hidden, tip, branching, insert, with_left, with_right}
use ton_net.Cell.Dict.Node.{Node, Node-NodeRead, Node-ordinary, Is}
use ton_net.Cell.Dict.Lookups.{branch_bit-drop}
use ton_net.Cell.Dict.Builds.{rebuild_step-Is}
use ton_net.Cell.Dict.Changes.Past.{descend_at-past, past-then}
use ton_net.Cell.Dict.Changes.{Sets, tip-Sets, branching-Sets}

module _ (sha256 : List ℕ → Hash) (bits : List Bool) (value : Builder) where
  abbrev added : Trie → List Bool → Option Trie
  added t key = insert t key (contents value) (as_slice value.refs)

  -- The change below a fork.
  module _ (c : Cell) (n consumed : ℕ) (label : List Bool) (x y : Cell) (path : List Step)
      (is : Node c n label [] (x ∷ y ∷ [])) (short : length label < n) where
    abbrev side : Bool
    side = branch_bit bits (consumed + length label)

    abbrev step : Step
    step = record { node = c; label = label; remaining = n; branch = side }

    abbrev m : ℕ
    m = n - length label - 1

    abbrev at : ℕ
    at = consumed + length label + 1

    -- What was built below is put under the fork.
    lifted :
        (left right new : Trie) (out : Result CellError Walk)
        → Is x (n - length label - 1) left
        → Is y (n - length label - 1) right
        → Sets sha256 bits value out (step ∷ path) (n - length label - 1) new
        → Sets sha256 bits value out path n
            (if side then branching label left new else branching label new right)
    unfolding rebuild
    lifted left right new out l r (walk, e, f) = (
      walk,
      e,
      λ top h.
          let below = f top h in
          let up =
            >>=-eq-ok (rebuild_step sha256 plain step (below.0)) (rebuild sha256 plain path)
              (below.2) in
          (
            up.0,
            rebuild_step-Is sha256 c (up.0) x y (below.0) n label left right new side is short l r
                (below.1) (up.1),
            up.2,
          ),
    )

    on_right :
        (next : List Step → Cell → ℕ → ℕ → Result CellError Walk) (behind : Slice)
        (left right new : Trie) (o : Option Trie)
        → Views behind [] (x ∷ y ∷ [])
        → diverges label (drop consumed bits) ≡ none
        → side ≡ true
        → Is x m left
        → Is y m right
        → with_right label left o ≡ some new
        → ((new' : Trie)
            → o ≡ some new'
            → Sets sha256 bits value (next (step ∷ path) y m at) (step ∷ path) m new')
        → Sets sha256 bits value
            (descend_at plain next path c n consumed bits (label, behind))
            path
            n
            new
    unfolding with_right
    on_right next behind left right new none v e s l r h ih = absurd (cc h)
    on_right next behind left right new (some new') v e s l r h ih =
        let same : branching label left new' ≡ new = cc h in
        let up = lifted left right new' (next (step ∷ path) y m at) l r (ih new' refl) in
        let out =
          descend_at-past bits c n consumed label x y path is short next behind v e
          ∙ past-then bits c n consumed label x y path is short next y
              (ap (λ b. if b then y else x) s) in
        let up' =
          subst
            (λ b.
              Sets sha256 bits value (next (step ∷ path) y m at) path n
                (if b then branching label left new' else branching label new' right))
            s up in
        subst (λ w. Sets sha256 bits value w path n new) (sym out)
          (subst (Sets sha256 bits value (next (step ∷ path) y m at) path n) same up')

    on_left :
        (next : List Step → Cell → ℕ → ℕ → Result CellError Walk) (behind : Slice)
        (left right new : Trie) (o : Option Trie)
        → Views behind [] (x ∷ y ∷ [])
        → diverges label (drop consumed bits) ≡ none
        → side ≡ false
        → Is x m left
        → Is y m right
        → with_left label right o ≡ some new
        → ((new' : Trie)
            → o ≡ some new'
            → Sets sha256 bits value (next (step ∷ path) x m at) (step ∷ path) m new')
        → Sets sha256 bits value
            (descend_at plain next path c n consumed bits (label, behind))
            path
            n
            new
    unfolding with_left
    on_left next behind left right new none v e s l r h ih = absurd (cc h)
    on_left next behind left right new (some new') v e s l r h ih =
        let same : branching label new' right ≡ new = cc h in
        let up = lifted left right new' (next (step ∷ path) x m at) l r (ih new' refl) in
        let out =
          descend_at-past bits c n consumed label x y path is short next behind v e
          ∙ past-then bits c n consumed label x y path is short next x
              (ap (λ b. if b then y else x) s) in
        let up' =
          subst
            (λ b.
              Sets sha256 bits value (next (step ∷ path) x m at) path n
                (if b then branching label left new' else branching label new' right))
            s up in
        subst (λ w. Sets sha256 bits value w path n new) (sym out)
          (subst (Sets sha256 bits value (next (step ∷ path) x m at) path n) same up')

  key_below : (consumed k : ℕ) → drop (k + 1) (drop consumed bits) ≡ drop (consumed + k + 1) bits
  key_below consumed k = drop-drop consumed (k + 1) bits ∙ ap (λ i. drop i bits) (omega arith)

  at_fork :
      (rounds : ℕ) (c : Cell) (n consumed : ℕ) (label : List Bool) (x y : Cell) (path : List Step)
      (left right new : Trie) (behind : Slice) (d : Option ℕ)
      → diverges label (drop consumed bits) ≡ d
      → Node c n label [] (x ∷ y ∷ [])
      → length label < n
      → length bits ≡ consumed + n
      → Views behind [] (x ∷ y ∷ [])
      → Is x (n - length label - 1) left
      → Is y (n - length label - 1) right
      → ((path' : List Step) (new' : Trie)
          → added left (drop (consumed + length label + 1) bits) ≡ some new'
          → Sets sha256 bits value
              (descend_loop plain rounds bits path' x
                (n - length label - 1)
                (consumed + length label + 1))
              path'
              (n - length label - 1)
              new')
      → ((path' : List Step) (new' : Trie)
          → added right (drop (consumed + length label + 1) bits) ≡ some new'
          → Sets sha256 bits value
              (descend_loop plain rounds bits path' y
                (n - length label - 1)
                (consumed + length label + 1))
              path'
              (n - length label - 1)
              new')
      → added (branching label left right) (drop consumed bits) ≡ some new
      → Sets sha256 bits value
          (descend_at plain (descend_loop plain rounds bits) path c n consumed bits (label, behind))
          path
          n
          new
  unfolding insert
  at_fork rounds c n consumed label x y path left right new behind (some at) e is short size v l r
        ih_left ih_right h =
      branching-Sets sha256 bits value c n consumed label [] (x ∷ y ∷ []) path is size
        (descend_loop plain rounds bits) behind left right new x y at refl refl short l r e h
  at_fork rounds c n consumed label x y path left right new behind none e is short size v l r
        ih_left ih_right h =
      let h' =
        rw (key_below consumed (length label), branch_bit-drop bits consumed (length label)) at
          (rw (insert, e) at h) in
      elim (Bool-cases (branch_bit bits (consumed + length label))) [
        | inl s ↦
            on_right c n consumed label x y path is short (descend_loop plain rounds bits) behind
              left right new (added right (drop (consumed + length label + 1) bits)) v e s l r
              (rw (s) at h') (ih_right (step c n consumed label x y path is short ∷ path))
        | inr s ↦
            on_left c n consumed label x y path is short (descend_loop plain rounds bits) behind
              left right new (added left (drop (consumed + length label + 1) bits)) v e s l r
              (rw (s) at h') (ih_left (step c n consumed label x y path is short ∷ path))
      ]

  pub descend_loop-Sets :
      (t new : Trie) (rounds : ℕ) (c : Cell) (n consumed : ℕ) (path : List Step)
      → Is c n t
      → n < rounds
      → length bits ≡ consumed + n
      → added t (drop consumed bits) ≡ some new
      → Sets sha256 bits value (descend_loop plain rounds bits path c n consumed) path n new
  unfolding descend_loop Is read_of descend_at
  descend_loop-Sets t new zero c n consumed path is enough size h = absurd (omega arith)
  descend_loop-Sets hidden new (suc rounds) c n consumed path is enough size h =
      absurd (unfold insert in cc h)
  descend_loop-Sets (tip label held cells) new (suc rounds) c n consumed path (node, len) enough
        size h =
      let r = Node-NodeRead c n label held cells node in
      rw (Node-ordinary node, r.read)
        (tip-Sets sha256 bits value c n consumed label held cells path node size
          (descend_loop plain rounds bits) r.behind new (diverges label (drop consumed bits)) refl
          len h)
  descend_loop-Sets (branching label left right) new (suc rounds) c n consumed path
        (x, y, node, short, l, r) enough size h =
      let read = Node-NodeRead c n label [] (x ∷ y ∷ []) node in
      let at = consumed + length label + 1 in
      let m = n - length label - 1 in
      rw (Node-ordinary node, read.read)
        (at_fork rounds c n consumed label x y path left right new read.behind
          (diverges label (drop consumed bits)) refl node short size read.views l r
          (λ path' new'.
            descend_loop-Sets left new' rounds x m at path' l (omega arith) (omega arith))
          (λ path' new'.
            descend_loop-Sets right new' rounds y m at path' r (omega arith) (omega arith))
          h)
