-- ===== src/Cell/Dict/Changes.antt =====
-- A change of a plain dictionary's cells is an insertion in its tree.
pub mod Past
pub mod Sets
pub mod Pruned
pub mod Removes
pub mod RemoveLoop
use mathlib.Core.Path.{subst}
use ton_net.Base.{
  ℕ, zero, suc, ◌+◌, ◌-◌, ◌≤◌, ◌<◌, ◌≡◌, refl, sym, ◌∙◌, ap, Bool, true, false, not, Option, none,
  some, List, [], ◌∷◌, ◌++◌, ◌==◌, length, take, drop, length-drop, drop-drop, if◌then◌else◌, arith,
  Bool-cases, inl, inr,
}
use ton_net.Base.Result.{Result, ok, err, ◌>>=◌, >>=-eq-ok}
use ton_net.Cell.Error.{CellError, pruned}
use ton_net.Cell.Identity.{Hash}
use ton_net.Cell.Kind.{is_exotic}
use ton_net.Cell.Types.{Cell, as_slice, cell_type}
use ton_net.Cell.Builder.{Builder}
use ton_net.Cell.Builder.Invariant.{IsWf, contents}
use ton_net.Cell.Slice.{Slice, parse, remaining_bits}
use ton_net.Cell.Assemble.Copies.{Views}
use ton_net.Cell.Dict.Key.{label_sink, diverges}
use ton_net.Cell.Dict.Shape.{Shape, plain, plain_check, branch_of, Step, leaf, rebuild_step}
use ton_net.Cell.Dict.Label.{read_label_into}
use ton_net.Cell.Dict.Walk.{
  read_of, is_some, branch_bit, Walk, descend_at, descend_loop, descend, split, rebuild,
}
use ton_net.Cell.Dict.Plain.{bottom_at, set_root}
use ton_net.Cell.Dict.Trie.{
  Trie, hidden, tip, branching, insert, part, under, with_left, with_right,
}
use ton_net.Cell.Dict.Trie.Apart.{diverges-Apart, Apart-inside}
use ton_net.Cell.Dict.Node.{Node, NodeRead, Node-NodeRead, Node-ordinary, Is}
use ton_net.Cell.Dict.Lookups.{Node-branch_of, branch_bit-drop}
use ton_net.Cell.Dict.Builds.{leaf-Node, split-Is, rebuild_step-Is}

-- A fork carries nothing behind its label.
pub plain_check-there :
    (s : Slice) (cells : List Cell) → Views s [] cells → plain_check s ≡ (ok tt, s)
unfolding plain_check remaining_bits
plain_check-there s cells v =
    let none_left : (s.end_bit - s.bit == 0) ≡ true = ground (arith, v.exact) in rw (none_left)

module _ (sha256 : List ℕ → Hash) (bits : List Bool) (value : Builder) where
  -- What a walk's end and its path make of the value.
  abbrev pub finish_set : Walk → Result CellError Cell
  finish_set walk =
      bottom_at sha256 walk (drop walk.consumed bits) value walk.diverged >>= λ bottom.
      rebuild sha256 plain walk.path bottom

  -- The walk returned; where the change is built, it is a cell of the new tree under the path.
  abbrev pub Sets : Result CellError Walk → List Step → ℕ → Trie → Type 0
  Sets out path n new =
      (walk : Walk) × (out ≡ ok walk)
      × ((top : Cell)
          → finish_set walk ≡ ok top
          → (c : Cell) × Is c n new × (rebuild sha256 plain path c ≡ ok top))

  -- Where the key ends at a node, whatever it is without its label.
  module _ (c : Cell) (n consumed : ℕ) (label held : List Bool) (cells : List Cell)
      (path : List Step) (is : Node c n label held cells) (size : length bits ≡ consumed + n) where
    abbrev ended : Walk
    ended = record {
      path = path;
      node = c;
      label = label;
      remaining = n;
      consumed = consumed;
      diverged = diverges label (drop consumed bits);
    }

    key_size : length (drop consumed bits) ≡ n
    key_size = omega (arith, length-drop consumed bits, size)

    parted-Sets :
        (kept : Trie) (at : ℕ)
        → ((x : Cell)
            → Node x (n - at - 1) (drop (at + 1) label) held cells
            → Is x (n - at - 1) kept)
        → diverges label (drop consumed bits) ≡ some at
        → (top : Cell) → finish_set ended ≡ ok top
        → (d : Cell) × Is d n (
            part label at kept
              (tip (under (drop consumed bits) at) (contents value) (as_slice value.refs)))
          × (rebuild sha256 plain path d ≡ ok top)
    unfolding bottom_at
    parted-Sets kept at as_kept e top h =
        let r =
          >>=-eq-ok (split sha256 plain c label at n (drop consumed bits) tt value)
            (rebuild sha256 plain path) (rw (bottom_at, e) at h) in
        (
          r.0,
          split-Is sha256 c (r.0) label (drop consumed bits) held cells at n value kept is as_kept
              (Apart-inside (diverges-Apart label (drop consumed bits) at e)) key_size (r.1),
          r.2,
        )

    ended_apart :
        (next : List Step → Cell → ℕ → ℕ → Result CellError Walk) (behind : Slice) (at : ℕ)
        → diverges label (drop consumed bits) ≡ some at
        → descend_at plain next path c n consumed bits (label, behind) ≡ ok ended
    unfolding descend_at is_some
    ended_apart next behind at e = rw (e)

    ended_tip :
        (next : List Step → Cell → ℕ → ℕ → Result CellError Walk) (behind : Slice)
        → length label ≡ n
        → descend_at plain next path c n consumed bits (label, behind) ≡ ok ended
    unfolding descend_at
    ended_tip next behind len =
        let full : (length label == n) ≡ true = ground arith in
        elim (Bool-cases (is_some (diverges label (drop consumed bits)))) [
          | inl apart ↦ rw (apart)
          | inr along ↦ rw (along, full)
        ]

    pub tip-Sets :
        (next : List Step → Cell → ℕ → ℕ → Result CellError Walk) (behind : Slice) (new : Trie)
        (d : Option ℕ)
        → diverges label (drop consumed bits) ≡ d
        → length label ≡ n
        → insert (tip label held cells) (drop consumed bits) (contents value) (as_slice value.refs)
          ≡ some new
        → Sets (descend_at plain next path c n consumed bits (label, behind)) path n new
    unfolding insert Is bottom_at
    tip-Sets next behind new none e len h = (
      ended,
      ended_tip next behind len,
      λ top k.
          let r =
            >>=-eq-ok (leaf sha256 plain (drop consumed bits) tt value n)
              (rebuild sha256 plain path) (rw (bottom_at, e) at k) in
          let same : tip (drop consumed bits) (contents value) (as_slice value.refs) ≡ new =
            cc (rw (insert, e) at h) in
          (
            r.0,
            subst (Is (r.0) n) same (
              leaf-Node sha256 (drop consumed bits) value n (r.0) (omega (arith, key_size))
                  is.narrow (r.1),
              key_size,
            ),
            r.2,
          ),
    )
    tip-Sets next behind new (some at) e len h = (
      ended,
      ended_tip next behind len,
      λ top k.
          let inside = Apart-inside (diverges-Apart label (drop consumed bits) at e) in
          let r =
            parted-Sets (tip (under label at) held cells) at
              (λ x node. (node, omega (arith, len, length-drop (at + 1) label))) e top k in
          let same : part label at (tip (under label at) held cells)
                (tip (under (drop consumed bits) at) (contents value) (as_slice value.refs))
              ≡ new =
            cc (rw (insert, e) at h) in
          (r.0, subst (Is (r.0) n) same (r.1), r.2),
    )

    -- A fork where the key parts from the label.
    pub branching-Sets :
        (next : List Step → Cell → ℕ → ℕ → Result CellError Walk) (behind : Slice)
        (left right new : Trie) (x y : Cell) (at : ℕ)
        → held ≡ []
        → cells ≡ x ∷ y ∷ []
        → length label < n
        → Is x (n - length label - 1) left
        → Is y (n - length label - 1) right
        → diverges label (drop consumed bits) ≡ some at
        → insert
            (branching label left right)
            (drop consumed bits)
            (contents value)
            (as_slice value.refs)
          ≡ some new
        → Sets (descend_at plain next path c n consumed bits (label, behind)) path n new
    unfolding insert Is
    branching-Sets next behind left right new x y at no_bits two short l r e h = (
      ended,
      ended_apart next behind at e,
      λ top k.
          let inside = Apart-inside (diverges-Apart label (drop consumed bits) at e) in
          let len : length (drop (at + 1) label) ≡ length label - (at + 1) =
            length-drop (at + 1) label in
          let m : n - length label - 1 ≡ n - at - 1 - length (drop (at + 1) label) - 1 =
            omega (arith, len) in
          let made =
            parted-Sets (branching (under label at) left right) at
              (λ z node.
                (x, y, rw (no_bits, two) at node, omega (arith, len), rw (m) at l, rw (m) at r))
              e top k in
          let same : part label at (branching (under label at) left right)
                (tip (under (drop consumed bits) at) (contents value) (as_slice value.refs))
              ≡ new =
            cc (rw (insert, e) at h) in
          (made.0, subst (Is (made.0) n) same (made.1), made.2),
    )
