-- ===== src/Cell/Error.antt =====
-- The errors of the cell engine (core/src/cell/error.rs). A message is kept as text.
use ton_net.Base.{ℕ, String}

pub data CellError : Type 0 where
  not_a_bag_of_cells truncated checksum bad_reference : CellError
  header malformed encoding : String → CellError
  too_many_cells too_deep : ℕ → CellError
  -- requested and available
  not_enough_bits : ℕ → ℕ → CellError
  not_enough_refs : CellError
  -- requested and width
  too_wide : ℕ → ℕ → CellError
  -- requested and available
  no_room_for_bits : ℕ → ℕ → CellError
  no_room_for_refs : ℕ → CellError
  -- given and expected
  key_length : ℕ → ℕ → CellError
  label_too_long pruned : CellError
