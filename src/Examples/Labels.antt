-- ===== src/Examples/Labels.antt =====
-- The label 1111, in every form.
use ton_net.Base.{◌+◌, ◌≤◌, ◌≡◌, refl, Bool, true, List, [], ◌∷◌, ◌++◌, length, arith}
use ton_net.Base.Result.{ok}
use ton_net.Base.Words.{bits_of_word}
use ton_net.Cell.Data.{bit_at}
use ton_net.Cell.Data.Runs.{bits_from}
use ton_net.Cell.Level.{leading_zeros}
use ton_net.Cell.Kind.{ordinary}
use ton_net.Cell.Identity.{unfilled}
use ton_net.Cell.Types.{Cell, cell_of, no_refs, cell_data}
use ton_net.Cell.Builder.{empty}
use ton_net.Cell.Builder.Invariant.{empty-IsWf}
use ton_net.Cell.Builder.Stores.{Stored}
use ton_net.Cell.Slice.{Slice}
use ton_net.Cell.Slice.Reads.{Spells, past}
use ton_net.Cell.Dict.Label.{
  BitRun, bounded_width, vec_sink, read_label_into, skip_label, store_label, choose, same,
}
use ton_net.Cell.Dict.Label.Forms.{run_bits, Allowed, Before, encoding, rank, bits_of, choose-first}
use ton_net.Cell.Dict.Label.RoundTrip.{store_label-Stored}
use ton_net.Cell.Dict.Label.Decode.{Reads, read_label-encoding}
use ton_net.Cell.Dict.Label.Read.{read_label-skip_label}

abbrev four_ones : BitRun
four_ones = record { len = 4; bit = λ index. true }

same-Allowed : Allowed four_ones same
unfolding run_bits
same-Allowed = refl

short_room :
    0 + length (encoding four_ones (bounded_width 30) (choose four_ones 4 (bounded_width 30)))
    ≤ 1023
unfolding encoding choose bounded_width leading_zeros bits_of_word
short_room = omega arith

choose-first_example :
    Allowed four_ones (choose four_ones 4 5)
    × Before
        (length (encoding four_ones 5 (choose four_ones 4 5)))
        (length (encoding four_ones 5 same))
        (rank (choose four_ones 4 5))
        (rank same)
choose-first_example = choose-first four_ones 5 same (omega arith) (omega arith) same-Allowed

store_label-Stored_example :
    Stored empty
      (encoding four_ones (bounded_width 30) (choose four_ones 4 (bounded_width 30)))
      (store_label four_ones 30 empty)
store_label-Stored_example =
    store_label-Stored four_ones 30 empty empty-IsWf (omega arith) (omega arith) short_room

-- 11, 1, 00100: the repeated form under the five bits of a limit of 30, then one more bit.
abbrev label_cell : Cell
label_cell = cell_of (228 ∷ 128 ∷ []) 9 no_refs ordinary unfilled

abbrev at_label : Slice
at_label = record { cell = label_cell; bit = 0; end_bit = 9; next_ref = 0; end_ref = 0 }

spells_label : Spells at_label (encoding four_ones (bounded_width 30) same ++ (true ∷ []))
unfolding encoding bounded_width leading_zeros bits_of_word cell_data bits_from bit_at
spells_label = record { inside = omega arith; spelled = refl }

read_label-encoding_example :
    Reads at_label
      (length (encoding four_ones (bounded_width 30) same))
      (true ∷ [])
      (bits_of four_ones)
      (read_label_into vec_sink 30 [] at_label)
read_label-encoding_example =
    read_label-encoding four_ones 30 (omega arith) (omega arith) same [] at_label (true ∷ [])
      same-Allowed spells_label

read_label-skip_label_example :
    ((held : List Bool)
      → read_label_into vec_sink 30 [] at_label ≡ (ok held, past 8 at_label)
      → skip_label 30 at_label ≡ (ok tt, past 8 at_label))
    × (skip_label 30 at_label ≡ (ok tt, past 8 at_label)
        → (held : List Bool) × (read_label_into vec_sink 30 [] at_label
            ≡ (ok held, past 8 at_label)))
read_label-skip_label_example = read_label-skip_label 30 [] at_label (past 8 at_label)
