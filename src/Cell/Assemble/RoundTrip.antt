-- ===== src/Cell/Assemble/RoundTrip.antt =====
-- A builder with sound references becomes a cell, and the cell reads back what was stored.
use ton_net.Base.{
  ℕ, ◌+◌, ◌/◌, ◌%◌, ◌^◌, ◌≤◌, ◌<◌, ◌≡◌, refl, Bool, true, List, [], ◌∷◌, ◌++◌, arith, ltb, ◌==◌,
  length, map, All, Bool-cases, inl, inr, bit_or, ==_iff,
}
use ton_net.Base.Bits.{all_below, all_below_sound}
use ton_net.Base.Words.{bits_of_word}
use ton_net.Base.Result.{Result, ok}
use ton_net.Cell.Error.{CellError}
use ton_net.Cell.Kind.{ordinary, is_pruned}
use ton_net.Cell.Identity.{Identity, Hash}
use ton_net.Cell.Hash.{compute, summarize}
use ton_net.Cell.Hash.Laws.{compute-lowest}
use ton_net.Cell.Types.{Cell, as_slice, cell_of, from_parts, identity, cell_data, bit_len, refs}
use ton_net.Cell.Data.{bit_at}
use ton_net.Cell.Data.Runs.{bits_from, bits_from-cong}
use ton_net.Cell.Builder.{Builder, store_uint, store_word}
use ton_net.Cell.Builder.Invariant.{IsWf, contents, length-contents, set_last}
use ton_net.Cell.Builder.Stores.{Stored, store_word-Stored}
use ton_net.Cell.Slice.{Slice, parse, load_uint}
use ton_net.Cell.Slice.Reads.{Spells, past, Spells-back, load_word-Spells}
use ton_net.Cell.Assemble.{tagged, finish, build}
use mathlib.Core.List.{foldl, append-nil}

-- The completion tag is behind the data bits.
bit_at-tagged :
    (b : Builder) → IsWf b → (i : ℕ) → i < b.bits → bit_at (tagged b) i ≡ bit_at b.content i
unfolding tagged
bit_at-tagged b w i h = elim (Bool-cases (b.bits % 8 == 0)) [
  | inl whole ↦ rw whole
  | inr part ↦ rw part (
      ground (
        arith,
        set_last (b.bits % 8) (b.bits / 8) b.content (omega arith) (ground (arith, w.len)) w.bytes
            i,
      ))
]

pub bits_from-tagged : (b : Builder) → IsWf b → bits_from (tagged b) 0 b.bits ≡ contents b
unfolding contents
bits_from-tagged b w = bits_from-cong _ _ 0 b.bits (λ i h. bit_at-tagged b w i (omega arith))

-- The masks that the cell model defines.
abbrev pub IsMask : Identity → Type 0
IsMask i = i.level_mask < 8

or_table : all_below 8 (λ a. all_below 8 (λ b. ltb (bit_or a b) 8)) ≡ true
unfolding all_below
or_table = refl

bit_or-lt_eight : (a b : ℕ) → a < 8 → b < 8 → bit_or a b < 8
bit_or-lt_eight a b ha hb = ground (
  arith,
  all_below_sound 8 (λ b. ltb (bit_or a b) 8) b
      (all_below_sound 8 (λ a. all_below 8 (λ b. ltb (bit_or a b) 8)) a or_table ha) hb,
)

masks-lt_eight :
    (xs : List Identity) (acc : ℕ)
    → acc < 8
    → All IsMask xs
    → foldl (λ acc child. bit_or acc child.level_mask) acc xs < 8
masks-lt_eight [] acc h all = h
masks-lt_eight (x ∷ xs) acc h all =
    masks-lt_eight xs (bit_or acc x.level_mask) (bit_or-lt_eight acc x.level_mask h all.0) all.1

foldl-identity :
    (cells : List Cell) (acc : ℕ)
    → foldl (λ mask child. bit_or mask (Identity.level_mask (identity child))) acc cells
      ≡ foldl (λ acc child. bit_or acc child.level_mask) acc (map identity cells)
foldl-identity [] acc = refl
foldl-identity (c ∷ cs) acc = foldl-identity cs _

-- What a cell that `build` returned has of its builder.
pub record IsBuilt (b : Builder) (cell : Cell) : Type 0 where
  pub spells : Spells (parse cell) (contents b)
  pub bit_len_eq : bit_len cell ≡ b.bits
  pub refs_eq : refs cell ≡ as_slice b.refs
  pub mask : IsMask (identity cell)

abbrev built : Builder → Identity → Cell
built b ident = cell_of (tagged b) b.bits b.refs ordinary ident

built-IsBuilt : (b : Builder) (ident : Identity) → IsWf b → IsMask ident → IsBuilt b (built b ident)
unfolding parse cell_data bit_len refs identity
built-IsBuilt b ident w m = record {
  spells = record {
    inside = omega (arith, length-contents b);
    spelled = rw (length-contents b) (bits_from-tagged b w);
  };
  bit_len_eq = refl;
  refs_eq = refl;
  mask = m;
}

-- What was stored behind `n` bits is at the cursor once they are read.
pub Spells-behind :
    (s : Slice) (whole xs ys : List Bool) (n : ℕ)
    → whole ≡ xs ++ ys
    → length xs ≡ n
    → Spells s whole
    → Spells (past n s) (ys ++ [])
Spells-behind s whole xs ys n e l h = rw append-nil (rw l at (Spells-back s xs ys (rw e at h)))

module _ (sha256 : List ℕ → Hash) where
  build-eq :
      (b : Builder) (ident : Identity)
      → compute sha256
          (tagged b)
          b.bits
          (map identity (as_slice b.refs))
          ordinary
          (foldl (λ acc child. bit_or acc child.level_mask) 0 (map identity (as_slice b.refs)))
        ≡ ok ident
      → build sha256 b ≡ ok (built b ident)
  unfolding build finish from_parts summarize
  build-eq b ident e =
      let children = map identity (as_slice b.refs) in
      let same = (==_iff (foldl (λ acc child. bit_or acc child.level_mask) 0 children) _).1 refl in
      rw (foldl-identity (as_slice b.refs) 0) (rw (same, e))

  -- `build` returns a cell for every sound builder whose references have masks below 8. The
  -- cell reads the bits of the builder, has as many, holds its references in order, and has a
  -- mask below 8 again.
  pub build_total :
      (b : Builder)
      → IsWf b
      → All IsMask (map identity (as_slice b.refs))
      → (cell : Cell) × (build sha256 b ≡ ok cell) × IsBuilt b cell
  build_total b w masks =
      let children = map identity (as_slice b.refs) in
      let mask = foldl (λ acc child. bit_or acc child.level_mask) 0 children in
      let small : mask < 8 = masks-lt_eight children 0 (omega arith) masks in
      let (ident, e, m, _, _) =
        compute-lowest sha256 (tagged b) b.bits children ordinary mask (unfold is_pruned in refl)
          small in
      (built b ident, build-eq b ident e, built-IsBuilt b ident w (rw m small))

  -- What a store appended is at its place in the built cell.
  pub build-Stored :
      (b : Builder) (run : List Bool) (out : Result CellError (Unit {0}) × Builder)
      → Stored b run out
      → All IsMask (map identity (as_slice b.refs))
      → (cell : Cell) × (build sha256 out.1 ≡ ok cell)
        × Spells (past b.bits (parse cell)) (run ++ [])
  build-Stored b run out s masks =
      let (cell, e, built) = build_total out.1 s.wf (rw (s.refs) masks) in
      (
        cell,
        e,
        Spells-behind (parse cell) (contents out.1) (contents b) run b.bits s.holds
            (length-contents b) built.spells,
      )

  -- A number of at most 64 bits stored with `store_uint` behind what a sound builder holds,
  -- where there is room and the references have masks below 8, is what `load_uint` reads at
  -- that place of the built cell, and the cursor is then past it.
  pub store_uint-load_uint :
      (b : Builder) (value n : ℕ)
      → IsWf b
      → n ≤ 64
      → value < 2 ^ n
      → b.bits + n ≤ 1023
      → All IsMask (map identity (as_slice b.refs))
      → (cell : Cell) × (build sha256 (store_uint value n b).1 ≡ ok cell)
        × (load_uint n (past b.bits (parse cell)) ≡ (ok value, past n (past b.bits (parse cell))))
  unfolding store_uint load_uint
  store_uint-load_uint b value n w narrow small room masks =
      let out = store_word 64 value n b in
      let s = store_word-Stored 64 value n b narrow (omega arith) small w room in
      let (cell, e, back) = build-Stored b (bits_of_word n value) out s masks in
      (cell, e, (load_word-Spells 64 n value (past b.bits (parse cell)) [] narrow small back).0)
