-- ===== src/Cell/Types.antt =====
-- The cell and the references it holds (core/src/cell/cell.rs, core/src/cell/cell/refs.rs).
-- A cell is an `Arc`; it is never written after it is built, so the model holds it by value. Its
-- payload is the bytes that the payload's span covers.
use ton_net.Base.{ℕ, map, List, [], ◌∷◌, Option, leb, length, get_elem?, if◌then◌else◌}
use ton_net.Base.Result.{Result, ok, err, ◌>>=◌}
use ton_net.Cell.Error.{CellError, no_room_for_refs}
use ton_net.Cell.Kind.{CellType}
use ton_net.Cell.Identity.{Identity, Hash}
use ton_net.Cell.Hash.{summarize}

abbrev pub max_bits : ℕ
max_bits = 1023

abbrev pub max_refs : ℕ
max_refs = 4

mutual
  pub data Cell : Type 0 where
    -- data, bits, refs, cell_type, identity
    cell_of : List ℕ → ℕ → Refs → CellType → Identity → Cell

  pub data Refs : Type 0 where
    no_refs : Refs
    one : Cell → Refs
    two : Cell → Cell → Refs
    three : Cell → Cell → Cell → Refs
    four : Cell → Cell → Cell → Cell → Refs

unfoldable pub as_slice : Refs → List Cell
as_slice no_refs = []
as_slice (one a) = a ∷ []
as_slice (two a b) = a ∷ b ∷ []
as_slice (three a b c) = a ∷ b ∷ c ∷ []
as_slice (four a b c d) = a ∷ b ∷ c ∷ d ∷ []

unfoldable pub push : Refs → Cell → Result CellError Refs
push no_refs cell = ok (one cell)
push (one a) cell = ok (two a cell)
push (two a b) cell = ok (three a b cell)
push (three a b c) cell = ok (four a b c cell)
push (four a b c d) cell = err (no_room_for_refs max_refs)

-- The match on the variant and the length; what no arm names is `None`.
truncate_to : Refs → ℕ → Refs
truncate_to (four a b c d) (ℕ.suc (ℕ.suc (ℕ.suc ℕ.zero))) = three a b c
truncate_to (four a b c d) (ℕ.suc (ℕ.suc ℕ.zero)) = two a b
truncate_to (four a b c d) (ℕ.suc ℕ.zero) = one a
truncate_to (three a b c) (ℕ.suc (ℕ.suc ℕ.zero)) = two a b
truncate_to (three a b c) (ℕ.suc ℕ.zero) = one a
truncate_to (two a b) (ℕ.suc ℕ.zero) = one a
truncate_to _ _ = no_refs

unfoldable pub truncate : Refs → ℕ → Refs
unfolding as_slice truncate_to
truncate refs len = if leb (length (as_slice refs)) len then refs else truncate_to refs len

unfoldable pub cell_data : Cell → List ℕ
cell_data (cell_of content bits children kind ident) = content

unfoldable pub bit_len : Cell → ℕ
bit_len (cell_of content bits children kind ident) = bits

unfoldable pub refs : Cell → List Cell
unfolding as_slice
refs (cell_of content bits children kind ident) = as_slice children

unfoldable pub cell_type : Cell → CellType
cell_type (cell_of content bits children kind ident) = kind

unfoldable pub identity : Cell → Identity
identity (cell_of content bits children kind ident) = ident

unfoldable pub reference : Cell → ℕ → Option Cell
unfolding refs
reference cell index = get_elem? (refs cell) index

-- `from_parts`: the identity is derived from the parts, never supplied. `Refs` holds four at most,
-- so the source's check of their number cannot fail.
module _ (sha256 : List ℕ → Hash) where
  unfoldable pub from_parts : List ℕ → ℕ → Refs → CellType → ℕ → Result CellError Cell
  from_parts content bits children kind level_mask = do
    ident ← summarize sha256 content bits (map identity (as_slice children)) kind level_mask
    ok (cell_of content bits children kind ident)
