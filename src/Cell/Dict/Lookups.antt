-- ===== src/Cell/Dict/Lookups.antt =====
-- A lookup over the cells of a dictionary is a lookup in its tree.
use ton_net.Base.{
  ℕ, zero, suc, ◌+◌, ◌-◌, ◌<◌, ◌≡◌, refl, ◌∙◌, ap, Bool, true, false, some, List, [], ◌∷◌, ◌==◌,
  length, drop, drop-drop, get_elem?-drop, if◌then◌else◌, arith, Bool-cases, inl, inr,
}
use ton_net.Base.Result.{Result, ok}
use ton_net.Cell.Error.{CellError}
use ton_net.Cell.Types.{Cell, bit_len, reference}
use ton_net.Cell.Slice.{Slice, remaining_bits}
use ton_net.Cell.Assemble.Copies.{Views}
use ton_net.Cell.Dict.Key.{diverges, bit_or_false}
use ton_net.Cell.Dict.Shape.{
  Lookup, found, absent, pruned_here, DictEntry, entry_slice, plain, branch_of,
}
use ton_net.Cell.Dict.Walk.{read_of, is_some, branch_bit, lookup_at, lookup_loop, lookup}
use ton_net.Cell.Dict.Trie.{Trie, hidden, tip, branching, find}
use ton_net.Cell.Dict.Node.{Node, NodeRead, Node-NodeRead, Node-ordinary, Is}

-- The answer of the program says what the answer of the tree does: the entry it returns opens at
-- exactly the bits and references of the value.
unfoldable pub Answers : Lookup (Unit {0} × DictEntry) → Lookup (List Bool × List Cell) → Type 0
Answers (found (extra, entry)) (found (bits, cells)) =
    (s : Slice) × (entry_slice entry ≡ ok s) × Views s bits cells
Answers absent absent = Unit {0}
Answers pruned_here pruned_here = Unit {0}
Answers _ _ = ⊥

-- A lookup that returned that.
abbrev pub Finds :
    Result CellError (Lookup (Unit {0} × DictEntry)) → Lookup (List Bool × List Cell) → Type 0
Finds out want = (answer : Lookup (Unit {0} × DictEntry)) × (out ≡ ok answer) × Answers answer want

pub branch_bit-drop :
    (bits : List Bool) (consumed at : ℕ)
    → branch_bit (drop consumed bits) at ≡ branch_bit bits (consumed + at)
unfolding branch_bit
branch_bit-drop bits consumed at = ap bit_or_false (get_elem?-drop consumed bits at)

-- The two references of a fork.
pub Node-branch_of :
    {c : Cell} {n : ℕ} {label bits : List Bool} {x y : Cell}
    → Node c n label bits (x ∷ y ∷ [])
    → (side : Bool) → branch_of c side ≡ ok (if side then y else x)
unfolding branch_of reference
Node-branch_of node true = rw (node.holds.refs_of) refl
Node-branch_of node false = rw (node.holds.refs_of) refl

module _ (bits : List Bool) where
  abbrev round : ℕ → Cell → ℕ → ℕ → Result CellError (Lookup (Unit {0} × DictEntry))
  round rounds = lookup_loop plain rounds bits

  at_tip :
      (rounds : ℕ) (c : Cell) (n consumed : ℕ) (label held : List Bool) (cells : List Cell)
      → length label ≡ n
      → (r : NodeRead c n label held cells)
      → Finds
          (lookup_at plain (round rounds) c n consumed bits (label, r.behind))
          (find (tip label held cells) (drop consumed bits))
  unfolding lookup_at find read_of
  at_tip rounds c n consumed label held cells len r =
      elim (Bool-cases (is_some (diverges label (drop consumed bits)))) [
        | inl apart ↦ rw (apart) (absent, refl, unfold Answers in tt)
        | inr along ↦
            let over : (n - length label == 0) ≡ true = ground arith in
            rw (along, over)
              (
                found (tt, record { cell = c; bit_offset = bit_len c - remaining_bits r.behind }),
                refl,
                unfold Answers in (r.behind, r.opens, r.views),
              )
      ]

  at_fork :
      (rounds : ℕ) (c : Cell) (n consumed : ℕ) (label : List Bool) (left right : Trie) (x y : Cell)
      → length label < n
      → Node c n label [] (x ∷ y ∷ [])
      → Finds
          (round rounds x (n - length label - 1) (consumed + length label + 1))
          (find left (drop (length label + 1) (drop consumed bits)))
      → Finds
          (round rounds y (n - length label - 1) (consumed + length label + 1))
          (find right (drop (length label + 1) (drop consumed bits)))
      → (behind : Slice)
      → Finds
          (lookup_at plain (round rounds) c n consumed bits (label, behind))
          (find (branching label left right) (drop consumed bits))
  unfolding lookup_at find
  at_fork rounds c n consumed label left right x y short node on_left on_right behind =
      elim (Bool-cases (is_some (diverges label (drop consumed bits)))) [
        | inl apart ↦ rw (apart) (absent, refl, unfold Answers in tt)
        | inr along ↦
            let more : (n - length label == 0) ≡ false = ground arith in
            let side = branch_bit bits (consumed + length label) in
            rw (along, more, Node-branch_of node side, branch_bit-drop bits consumed (length label))
              (elim (Bool-cases side) [
                | inl one ↦ rw (one) on_right
                | inr zero_bit ↦ rw (zero_bit) on_left
              ])
      ]

  -- Over the cells of a tree, with more rounds than bits to go.
  pub lookup_loop-find :
      (t : Trie) (rounds : ℕ) (c : Cell) (n consumed : ℕ)
      → Is c n t
      → n < rounds
      → Finds (round rounds c n consumed) (find t (drop consumed bits))
  unfolding lookup_loop Is read_of lookup_at
  lookup_loop-find t zero c n consumed is enough = absurd (omega arith)
  lookup_loop-find hidden (suc rounds) c n consumed is enough =
      rw (is) (pruned_here, refl, unfold Answers find in tt)
  lookup_loop-find (tip label held cells) (suc rounds) c n consumed (node, len) enough =
      let r = Node-NodeRead c n label held cells node in
      rw (Node-ordinary node, r.read) (at_tip rounds c n consumed label held cells len r)
  lookup_loop-find (branching label left right) (suc rounds) c n consumed
        (x, y, node, short, is_left, is_right) enough =
      let r = Node-NodeRead c n label [] (x ∷ y ∷ []) node in
      let at = consumed + length label + 1 in
      let e : drop (length label + 1) (drop consumed bits) ≡ drop at bits =
        drop-drop consumed (length label + 1) bits ∙ ap (λ k. drop k bits) (omega arith) in
      let on_left =
        lookup_loop-find left rounds x (n - length label - 1) at is_left (omega arith) in
      let on_right =
        lookup_loop-find right rounds y (n - length label - 1) at is_right (omega arith) in
      rw (Node-ordinary node, r.read)
        (at_fork rounds c n consumed label left right x y short node (rw (e) on_left)
          (rw (e) on_right) r.behind)

-- On the cells of a tree, with labels in any of their forms, `lookup` returns within the rounds
-- that it is given, and says what the tree says of the key: an entry that opens at exactly the
-- bits and references of the value, that the key is absent, or that its way is pruned.
pub lookup-find :
    (root : Cell) (key_bits : ℕ) (bits : List Bool) (t : Trie)
    → Is root key_bits t
    → Finds (lookup plain (some root) key_bits bits) (find t bits)
unfolding lookup
lookup-find root key_bits bits t is =
    lookup_loop-find bits t (key_bits + 1) root key_bits 0 is (omega arith)
