-- ===== src/Cell/Dict/Node.antt =====
-- A node of a dictionary as its cell holds it: a label in any of its forms, the bits behind it and
-- the references; and what the reads of core/src/cell/dict/label.rs make of it.
use ton_net.Base.{
  ℕ, zero, suc, ◌+◌, ◌-◌, ◌≤◌, ◌<◌, ◌≡◌, refl, ◌∙◌, ap, Bool, true, false, List, [], ◌∷◌, ◌++◌,
  length, length-append, arith,
}
use ton_net.Base.Result.{ok}
use ton_net.Cell.Kind.{is_exotic}
use ton_net.Cell.Types.{Cell, cell_type, bit_len}
use ton_net.Cell.Slice.{Slice, parse, skip_bits, remaining_bits}
use ton_net.Cell.Slice.Reads.{past, advance-ok}
use ton_net.Cell.Assemble.Copies.{Views}
use ton_net.Cell.Assemble.Held.{Holds, Holds-Views}
use ton_net.Cell.Dict.Key.{label_sink}
use ton_net.Cell.Dict.Shape.{entry_slice}
use ton_net.Cell.Dict.Trie.{Trie, hidden, tip, branching}
use ton_net.Cell.Dict.Label.{
  bounded_width, bool_run, bool_at, Form, vec_sink, read_label_into, skip_label,
}
use ton_net.Cell.Dict.Label.Forms.{run_bits, bits_of, encoding, Allowed}
use ton_net.Cell.Dict.Label.Read.{read_label-skip_label}
use ton_net.Cell.Dict.Label.Decode.{read_label-encoding}
use ton_net.Cell.Dict.Label.Kept.{read_label-kept}

-- A node that has `n` bits of the key to go.
pub record Node (c : Cell) (n : ℕ) (label bits : List Bool) (cells : List Cell) : Type 0 where
  pub form : Form
  pub allowed : Allowed (bool_run label) form
  pub fits : length label ≤ n
  pub narrow : n ≤ 1023
  pub holds : Holds c (encoding (bool_run label) (bounded_width n) form ++ bits) cells

-- The cell is the root of the tree, under keys that have `n` bits to go.
unfoldable pub Is : Cell → ℕ → Trie → Type 0
Is c n hidden = is_exotic (cell_type c) ≡ true
Is c n (tip label bits cells) = Node c n label bits cells × (length label ≡ n)
Is c n (branching label left right) =
    (x : Cell) × (y : Cell) × Node c n label [] (x ∷ y ∷ [])
    × (length label < n)
    × Is x (n - length label - 1) left
    × Is y (n - length label - 1) right

later_bits :
    (x : Bool) (l : List Bool) (i n : ℕ)
    → run_bits (bool_run (x ∷ l)) (i + 1) n ≡ run_bits (bool_run l) i n
unfolding run_bits bool_run bool_at
later_bits x l i zero = refl
later_bits x l i (suc n) =
    let e : i + 1 ≡ suc i = omega arith in
    let here : bool_at (x ∷ l) (i + 1) ≡ bool_at l i = rw (e) refl in
    cc (here, later_bits x l (i + 1) n)

-- A run of bits spells itself.
pub bits_of-bool_run : (l : List Bool) → bits_of (bool_run l) ≡ l
unfolding run_bits bool_run bool_at
bits_of-bool_run [] = refl
bits_of-bool_run (x ∷ l) = ap (λ t. x ∷ t) (later_bits x l 0 (length l) ∙ bits_of-bool_run l)

-- What the reads make of a node.
pub record NodeRead (c : Cell) (n : ℕ) (label bits : List Bool) (cells : List Cell) : Type 0 where
  pub behind : Slice
  pub read : read_label_into label_sink n [] (parse c) ≡ (ok label, behind)
  pub skipped : skip_label n (parse c) ≡ (ok tt, behind)
  pub views : Views behind bits cells
  -- an entry there opens there
  pub opens :
      entry_slice (record { cell = c; bit_offset = bit_len c - remaining_bits behind }) ≡ ok behind

pub Node-ordinary :
    {c : Cell} {n : ℕ} {label bits : List Bool} {cells : List Cell}
    → Node c n label bits cells
    → is_exotic (cell_type c) ≡ false
unfolding is_exotic
Node-ordinary node = rw (node.holds.kind) refl

skipped_to : (n : ℕ) (s : Slice) → s.bit + n ≤ s.end_bit → skip_bits n s ≡ (ok tt, past n s)
unfolding skip_bits
skipped_to n s h = rw (advance-ok n s h)

opens_at :
    (n : ℕ) (c : Cell)
    → n ≤ bit_len c
    → entry_slice (record { cell = c; bit_offset = n }) ≡ ok (past n (parse c))
unfolding entry_slice parse
opens_at n c h =
    let there = skipped_to n (parse c) (omega arith) in
    rw (entry_slice, there) (ap (λ r. ok (r.1)) there)

pub Node-NodeRead :
    (c : Cell) (n : ℕ) (label bits : List Bool) (cells : List Cell)
    → Node c n label bits cells
    → NodeRead c n label bits cells
unfolding parse entry_slice skip_bits remaining_bits bool_run
Node-NodeRead c n label bits cells node =
    let run = bool_run label in
    let code = encoding run (bounded_width n) node.form in
    let small = node.narrow in
    let r =
      read_label-encoding run n (omega arith) node.fits node.form [] (parse c) bits node.allowed
        node.holds.spells in
    let e : read_label_into vec_sink n [] (parse c) ≡ (ok label, past (length code) (parse c)) =
      r.result ∙ ap (λ l. (ok l, past (length code) (parse c))) (bits_of-bool_run label) in
    let inside : 0 + length (code ++ bits) ≤ bit_len c = node.holds.spells.inside in
    let there : bit_len c - (bit_len c - (0 + length code)) ≡ length code =
      omega (arith, inside, length-append code bits) in
    let fits = node.fits in
    record {
      behind = past (length code) (parse c);
      read = read_label-kept n [] (parse c) (past (length code) (parse c)) label (omega arith) e;
      skipped = (read_label-skip_label n [] (parse c) (past (length code) (parse c))).0 label e;
      views = Holds-Views c code bits cells node.holds;
      opens =
          rw (there) (opens_at (length code) c (omega (arith, inside, length-append code bits)));
    }
