-- ===== src/Cell/Dict/Changes/Pruned.antt =====
-- A walk that meets a pruned branch.
use ton_net.Base.{
  ℕ, zero, suc, ◌+◌, ◌-◌, ◌<◌, ◌≡◌, refl, ◌∙◌, ap, Bool, Option, none, some, List, [], ◌∷◌, length,
  drop, drop-drop, if◌then◌else◌, arith, Bool-cases, inl, inr,
}
use ton_net.Base.Result.{err}
use ton_net.Cell.Error.{pruned}
use ton_net.Cell.Types.{Cell}
use ton_net.Cell.Slice.{Slice}
use ton_net.Cell.Assemble.Copies.{Views}
use ton_net.Cell.Dict.Key.{diverges}
use ton_net.Cell.Dict.Shape.{plain, Step}
use ton_net.Cell.Dict.Walk.{read_of, branch_bit, descend_at, descend_loop}
use ton_net.Cell.Dict.Trie.{Trie, hidden, tip, branching, insert, with_left, with_right}
use ton_net.Cell.Dict.Node.{Node, Node-NodeRead, Node-ordinary, Is}
use ton_net.Cell.Dict.Lookups.{branch_bit-drop}
use ton_net.Cell.Dict.Changes.Past.{descend_at-past, past-then}

with_left-none :
    (label : List Bool) (right : Trie) (o : Option Trie) → with_left label right o ≡ none → o ≡ none
unfolding with_left
with_left-none label right none h = refl
with_left-none label right (some t) h = absurd (cc h)

with_right-none :
    (label : List Bool) (left : Trie) (o : Option Trie) → with_right label left o ≡ none → o ≡ none
unfolding with_right
with_right-none label left none h = refl
with_right-none label left (some t) h = absurd (cc h)

module _ (bits held : List Bool) (cells : List Cell) where
  tip_never :
      (label own : List Bool) (refs : List Cell) (key : List Bool) (d : Option ℕ)
      → diverges label key ≡ d
      → insert (tip label own refs) key held cells ≡ none
      → ⊥
  unfolding insert
  tip_never label own refs key none e h = cc (rw (insert, e) at h)
  tip_never label own refs key (some at) e h = cc (rw (insert, e) at h)

  stuck_at :
      (rounds : ℕ) (c : Cell) (n consumed : ℕ) (label : List Bool) (x y : Cell) (path : List Step)
      (left right : Trie) (behind : Slice) (d : Option ℕ)
      → diverges label (drop consumed bits) ≡ d
      → Node c n label [] (x ∷ y ∷ [])
      → length label < n
      → Views behind [] (x ∷ y ∷ [])
      → ((path' : List Step)
          → insert left (drop (consumed + length label + 1) bits) held cells ≡ none
          → descend_loop plain rounds bits path' x
              (n - length label - 1)
              (consumed + length label + 1)
            ≡ err pruned)
      → ((path' : List Step)
          → insert right (drop (consumed + length label + 1) bits) held cells ≡ none
          → descend_loop plain rounds bits path' y
              (n - length label - 1)
              (consumed + length label + 1)
            ≡ err pruned)
      → insert (branching label left right) (drop consumed bits) held cells ≡ none
      → descend_at plain (descend_loop plain rounds bits) path c n consumed bits (label, behind)
        ≡ err pruned
  unfolding insert
  stuck_at rounds c n consumed label x y path left right behind (some at) e is short v ih_left
        ih_right h =
      absurd (cc (rw (insert, e) at h))
  stuck_at rounds c n consumed label x y path left right behind none e is short v ih_left ih_right
        h =
      let below : drop (length label + 1) (drop consumed bits)
          ≡ drop (consumed + length label + 1) bits =
        drop-drop consumed (length label + 1) bits ∙ ap (λ i. drop i bits) (omega arith) in
      let h' = rw (below, branch_bit-drop bits consumed (length label)) at (rw (insert, e) at h) in
      let next = descend_loop plain rounds bits in
      let step : Step = record {
        node = c;
        label = label;
        remaining = n;
        branch = branch_bit bits (consumed + length label);
      } in
      let past = descend_at-past bits c n consumed label x y path is short next behind v e in
      elim (Bool-cases (branch_bit bits (consumed + length label))) [
        | inl s ↦
            past
            ∙ past-then bits c n consumed label x y path is short next y
                (ap (λ b. if b then y else x) s)
            ∙ ih_right (step ∷ path) (with_right-none label left _ (rw (s) at h'))
        | inr s ↦
            past
            ∙ past-then bits c n consumed label x y path is short next x
                (ap (λ b. if b then y else x) s)
            ∙ ih_left (step ∷ path) (with_left-none label right _ (rw (s) at h'))
      ]

  pub descend_loop-pruned :
      (t : Trie) (rounds : ℕ) (c : Cell) (n consumed : ℕ) (path : List Step)
      → Is c n t
      → n < rounds
      → insert t (drop consumed bits) held cells ≡ none
      → descend_loop plain rounds bits path c n consumed ≡ err pruned
  unfolding descend_loop Is read_of descend_at
  descend_loop-pruned t zero c n consumed path is enough h = absurd (omega arith)
  descend_loop-pruned hidden (suc rounds) c n consumed path is enough h = rw (is)
  descend_loop-pruned (tip label own refs) (suc rounds) c n consumed path is enough h =
      absurd
        (tip_never label own refs (drop consumed bits) (diverges label (drop consumed bits)) refl h)
  descend_loop-pruned (branching label left right) (suc rounds) c n consumed path
        (x, y, node, short, l, r) enough h =
      let read = Node-NodeRead c n label [] (x ∷ y ∷ []) node in
      let at = consumed + length label + 1 in
      let m = n - length label - 1 in
      rw (Node-ordinary node, read.read)
        (stuck_at rounds c n consumed label x y path left right read.behind
          (diverges label (drop consumed bits)) refl node short read.views
          (λ path'. descend_loop-pruned left rounds x m at path' l (omega arith))
          (λ path'. descend_loop-pruned right rounds y m at path' r (omega arith)) h)
