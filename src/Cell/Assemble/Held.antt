-- ===== src/Cell/Assemble/Held.antt =====
-- What a cell holds once it is built: the bits and references of its builder.
use Prim.Native.Nat.{ℕ}
use mathlib.Core.Path.{subst}
use ton_net.Base.{◌≡◌, refl, sym, Bool, List, ◌++◌, length, length-append, arith, map}
use ton_net.Base.Result.{Result, ok, err, ◌>>=◌, >>=-eq-ok}
use ton_net.Cell.Error.{CellError}
use ton_net.Cell.Kind.{CellType, ordinary}
use ton_net.Cell.Identity.{Hash, Identity}
use ton_net.Cell.Hash.{summarize}
use ton_net.Cell.Types.{
  Cell, cell_of, cell_type, bit_len, cell_data, refs, as_slice, identity, from_parts,
}
use ton_net.Cell.Data.Runs.{bits_from}
use ton_net.Cell.Builder.{Builder, empty}
use ton_net.Cell.Builder.Invariant.{IsWf, contents, length-contents}
use ton_net.Cell.Slice.{parse}
use ton_net.Cell.Slice.Reads.{Spells, past, Spells-back}
use ton_net.Cell.Assemble.{tagged, finish, build, built_by}
use ton_net.Cell.Assemble.RoundTrip.{bits_from-tagged}
use ton_net.Cell.Assemble.Grown.{Grows}
use ton_net.Cell.Assemble.Copies.{Views}

-- An ordinary cell with exactly those bits and references.
pub record Holds (cell : Cell) (bits : List Bool) (cells : List Cell) : Type 0 where
  pub kind : cell_type cell ≡ ordinary
  pub spells : Spells (parse cell) bits
  pub exact : bit_len cell ≡ length bits
  pub refs_of : refs cell ≡ cells

-- The cursor of such a cell, past the front of its bits.
pub Holds-Views :
    (cell : Cell) (xs ys : List Bool) (cells : List Cell)
    → Holds cell (xs ++ ys) cells
    → Views (past (length xs) (parse cell)) ys cells
unfolding parse
Holds-Views cell xs ys cells h = record {
  spells = Spells-back (parse cell) xs ys h.spells;
  exact = omega (arith, h.exact, length-append xs ys);
  refs_left = h.refs_of;
  refs_exact = rw (h.refs_of) (omega arith);
}

built-Holds :
    (b : Builder) (kind : CellType) (ident : Identity)
    → kind ≡ ordinary
    → IsWf b
    → Holds (cell_of (tagged b) b.bits b.refs kind ident) (contents b) (as_slice b.refs)
unfolding parse cell_data bit_len refs cell_type
built-Holds b kind ident k w = record {
  kind = k;
  spells = record {
    inside = omega (arith, length-contents b);
    spelled = rw (length-contents b) (bits_from-tagged b w);
  };
  exact = sym (length-contents b);
  refs_of = refl;
}

same_cell : (c d : Cell) → ◌≡◌ {A = Result CellError Cell} (ok c) (ok d) → c ≡ d
same_cell c d h = cc

module _ (sha256 : List ℕ → Hash) where
  -- A cell that was built holds what its builder did.
  pub build-Holds :
      (b : Builder) (cell : Cell)
      → IsWf b
      → build sha256 b ≡ ok cell
      → Holds cell (contents b) (as_slice b.refs)
  unfolding build finish from_parts
  build-Holds b cell w h =
      let r =
        >>=-eq-ok (summarize sha256 (tagged b) b.bits (map identity (as_slice b.refs)) ordinary _) _
          h in
      subst (λ c. Holds c (contents b) (as_slice b.refs)) (same_cell _ cell (r.2))
        (built-Holds b ordinary (r.0) refl w)

  pub built_by-Holds :
      (run : List Bool) (cells : List Cell) (out : Result CellError (Unit {0}) × Builder)
      (cell : Cell)
      → Grows tt empty run cells out
      → (built_by out >>= build sha256) ≡ ok cell
      → Holds cell run cells
  unfolding built_by contents bits_from as_slice
  built_by-Holds run cells (ok u, b) cell g h =
      let grown = (g u refl).1 in
      subst (λ cs. Holds cell run cs) grown.refs
        (subst (λ bs. Holds cell bs (as_slice b.refs)) grown.holds (build-Holds b cell grown.wf h))
  built_by-Holds run cells (err e, b) cell g h = absurd (cc h)
