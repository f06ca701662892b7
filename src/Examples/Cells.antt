-- ===== src/Examples/Cells.antt =====
-- Cells under a hash that writes down the length of what it hashes.
use ton_net.Base.{
  ℕ, ◌+◌, ◌-◌, ◌*◌, ◌^◌, ◌%◌, ◌≤◌, ◌<◌, ◌≡◌, refl, Bool, true, false, none, some, List, [], ◌∷◌,
  ◌++◌, length, replicate, take, drop, map, All, arith,
}
use ton_net.Base.Result.{ok, err}
use ton_net.Base.Words.{bits_of_word, word_from}
use ton_net.Cell.Error.{malformed, too_wide, not_enough_bits, no_room_for_bits}
use ton_net.Cell.Kind.{ordinary, pruned_branch, is_pruned, is_exotic, is_merkle}
use ton_net.Cell.Level.{count_ones, level_of, bits_descriptor, refs_descriptor}
use ton_net.Cell.Identity
use ton_net.Cell.Identity.{Hash, Identity, unfilled}
use ton_net.Cell.Hash.{compute, depth_over, children_bytes}
use ton_net.Cell.Hash.Laws.{
  SameAt, child_level, representation, height, depth_from, depth_in, compute_total,
  compute-substitution, compute-pruned,
}
use ton_net.Cell.Types.{Cell, cell_of, no_refs, one, as_slice, identity, cell_data, bit_len, refs}
use ton_net.Cell.Data.{update_last}
use ton_net.Cell.Data.Runs.{bits_from}
use ton_net.Cell.Builder.{
  Builder, empty, store_word, store_uint, store_coins, store_bits, store_same_bit,
  unsigned_byte_len, does_not_fit, as_u16_or_max, room_for, can_extend_by, bits_left, refs_left,
  refs_used, store_low, put_bit, pushed, store_bit,
}
use ton_net.Cell.Builder.Invariant.{IsWf, empty-IsWf}
use ton_net.Cell.Builder.Stores.{Stored, store_word_total, store_bits_total, store_same_bit_total}
use ton_net.Cell.Slice.{Slice, parse, load_word, load_uint, load_coins}
use ton_net.Cell.Slice.Reads.{IsWf as IsWindow, past, load_word_total}
use ton_net.Cell.Assemble.{build}
use ton_net.Cell.Assemble.RoundTrip.{IsMask, IsBuilt, build_total, store_uint-load_uint}
use ton_net.Cell.Assemble.Coins.{store_coins-load_coins}

abbrev toy_hash : List ℕ → Hash
toy_hash bytes = replicate 32 (length bytes % 256)

abbrev leaf : Cell
leaf = cell_of [] 0 no_refs ordinary unfilled

-- Three bits, and a reference to a leaf.
abbrev started : Builder
started = record { content = 160 ∷ []; bits = 3; refs = one leaf }

three_bits : Stored empty (bits_of_word 3 5) (store_word 64 5 3 empty)
three_bits =
    (store_word_total 64 5 3 empty (omega arith) (omega arith) empty-IsWf).3 (omega arith)
      (omega arith) (omega arith)

started-same : (store_word 64 5 3 empty).1 ≡ record { content = 160 ∷ []; bits = 3; refs = no_refs }
unfolding store_word room_for can_extend_by bits_left refs_left refs_used store_low put_bit pushed
    update_last as_slice store_bit
started-same = refl

started-IsWf : IsWf started
started-IsWf =
    let w = rw (started-same) at three_bits.wf in
    record { len = w.len; bytes = w.bytes; clear = w.clear; cap = w.cap }

abbrev low_child : Identity
low_child = record { level_mask = 0; hash0 = replicate 32 9; depth0 = 2; extra = none }

-- The same child behind a pruned branch.
abbrev cut_child : Identity
cut_child = record {
  level_mask = 1;
  hash0 = replicate 32 9;
  depth0 = 2;
  extra = some (record {
    hashes = replicate 32 7 ∷ replicate 32 0 ∷ replicate 32 0 ∷ [];
    depths = 0 ∷ 0 ∷ 0 ∷ [];
  });
}

abbrev full_parent : Identity
full_parent = record { level_mask = 0; hash0 = replicate 32 37; depth0 = 3; extra = none }

abbrev cut_parent : Identity
cut_parent = record {
  level_mask = 1;
  hash0 = replicate 32 37;
  depth0 = 3;
  extra = some (record {
    hashes = replicate 32 68 ∷ replicate 32 0 ∷ replicate 32 0 ∷ [];
    depths = 1 ∷ 0 ∷ 0 ∷ [];
  });
}

full_computed : compute toy_hash (1 ∷ []) 8 (low_child ∷ []) ordinary 0 ≡ ok full_parent
unfolding compute Identity.blank Identity.set Identity.hash_at Identity.depth_at refs_descriptor
    is_pruned level_of children_bytes depth_over is_merkle
full_computed = refl

cut_computed : compute toy_hash (1 ∷ []) 8 (cut_child ∷ []) ordinary 1 ≡ ok cut_parent
unfolding compute Identity.blank Identity.set Identity.hash_at Identity.depth_at refs_descriptor
    is_pruned level_of children_bytes depth_over is_merkle
cut_computed = refl

ordinary_kind : is_pruned ordinary ≡ false
unfolding is_pruned
ordinary_kind = refl

same_low : SameAt (child_level 0 ordinary) (low_child ∷ []) (cut_child ∷ [])
unfolding Identity.hash_at Identity.depth_at is_merkle
same_low = (refl, refl, tt)

compute-substitution_example :
    (Identity.hash_at full_parent 0 ≡ Identity.hash_at cut_parent 0)
    × (Identity.depth_at full_parent 0 ≡ Identity.depth_at cut_parent 0)
compute-substitution_example =
    compute-substitution toy_hash (1 ∷ []) 8 (low_child ∷ []) (cut_child ∷ []) ordinary 0 1
      full_parent cut_parent ordinary_kind (omega arith) (omega arith) same_low full_computed
      cut_computed

compute_total_example :
    (ident : Identity) × (compute toy_hash (1 ∷ []) 8 (cut_child ∷ []) ordinary 5 ≡ ok ident)
    × (ident.level_mask ≡ 5)
    × (Identity.hash_at ident 0
        ≡ toy_hash (
            representation
              (child_level 0 ordinary)
              (is_exotic ordinary)
              (1 ∷ [])
              8
              (cut_child ∷ [])))
    × (Identity.depth_at ident 0
        ≡ height (map (depth_from (child_level 0 ordinary)) (cut_child ∷ [])))
compute_total_example =
    compute_total toy_hash (1 ∷ []) 8 (cut_child ∷ []) ordinary 5 ordinary_kind (omega arith)
      (omega arith) (omega arith)

abbrev pruned_data : List ℕ
pruned_data = 1 ∷ 1 ∷ (replicate 32 9 ++ (0 ∷ 2 ∷ []))

pruned_long : 2 + 34 * count_ones 8 1 ≤ length pruned_data
unfolding count_ones
pruned_long = omega arith

compute-pruned_example :
    (ident : Identity) × (compute toy_hash pruned_data 288 [] pruned_branch 1 ≡ ok ident)
    × (Identity.hash_at ident 0 ≡ take 32 (drop 2 pruned_data))
    × (Identity.depth_at ident 0 ≡ depth_in (drop (2 + 32 * count_ones 8 1) pruned_data))
    × (Identity.repr_hash ident
        ≡ toy_hash (refs_descriptor 0 true 1 (level_of 1) ∷ bits_descriptor 288 ∷ pruned_data))
compute-pruned_example =
    compute-pruned toy_hash pruned_data 288 [] 1 (omega arith) (omega arith) pruned_long

leaf-IsMask : All IsMask (map identity (as_slice (one leaf)))
unfolding as_slice identity
leaf-IsMask = (omega arith, tt)

build_total_example : (cell : Cell) × (build toy_hash started ≡ ok cell) × IsBuilt started cell
build_total_example = build_total toy_hash started started-IsWf leaf-IsMask

store_uint-load_uint_example :
    (cell : Cell) × (build toy_hash (store_uint 1000 10 started).1 ≡ ok cell)
    × (load_uint 10 (past 3 (parse cell)) ≡ (ok 1000, past 10 (past 3 (parse cell))))
store_uint-load_uint_example =
    store_uint-load_uint toy_hash started 1000 10 started-IsWf (omega arith) (omega arith)
      (omega arith) leaf-IsMask

coin_bytes : 3 + (4 + unsigned_byte_len 1000 * 8) ≤ 1023
unfolding unsigned_byte_len
coin_bytes = omega arith

store_coins-load_coins_example :
    (1000 < 2 ^ 120
      → (cell : Cell) × (build toy_hash (store_coins 1000 started).1 ≡ ok cell)
        × (load_coins (past 3 (parse cell))
            ≡ (ok 1000, past (unsigned_byte_len 1000 * 8) (past 4 (past 3 (parse cell))))))
    × (2 ^ 120 ≤ 1000
        → store_coins 1000 started
          ≡ (err (malformed "value is too wide for this VarUInteger"), started))
store_coins-load_coins_example =
    store_coins-load_coins toy_hash started 1000 started-IsWf (omega arith) coin_bytes leaf-IsMask

store_word_total_example :
    (64 < 10 → store_word 64 1000 10 started ≡ (err (too_wide 10 64), started))
    × (10 ≤ 64 → 2 ^ 10 ≤ 1000 → store_word 64 1000 10 started ≡ (err does_not_fit, started))
    × (10 ≤ 64
        → 1000 < 2 ^ 10
        → 1023 < 3 + 10
        → store_word 64 1000 10 started ≡ (err (no_room_for_bits 10 (1023 - 3)), started))
    × (10 ≤ 64
        → 1000 < 2 ^ 10
        → 3 + 10 ≤ 1023
        → Stored started (bits_of_word 10 1000) (store_word 64 1000 10 started))
store_word_total_example =
    store_word_total 64 1000 10 started (omega arith) (omega arith) started-IsWf

abbrev two_bits : List Bool
two_bits = true ∷ false ∷ []

store_bits_total_example :
    (3 + 2 ≤ 1023 → Stored started two_bits (store_bits two_bits started))
    × (1023 < 3 + 2
        → store_bits two_bits started
          ≡ (err (no_room_for_bits (as_u16_or_max 2) (1023 - 3)), started))
store_bits_total_example = store_bits_total two_bits started started-IsWf

store_same_bit_total_example :
    (3 + 2000 ≤ 1023 → Stored started (replicate 2000 true) (store_same_bit true 2000 started))
    × (1023 < 3 + 2000
        → store_same_bit true 2000 started ≡ (err (no_room_for_bits 2000 (1023 - 3)), started))
store_same_bit_total_example = store_same_bit_total true 2000 started started-IsWf

-- Two bytes, read from the fourth bit on.
abbrev byte_cell : Cell
byte_cell = cell_of (165 ∷ 240 ∷ []) 16 no_refs ordinary unfilled

abbrev midway : Slice
midway = record { cell = byte_cell; bit = 3; end_bit = 12; next_ref = 0; end_ref = 0 }

midway-IsWf : IsWindow midway
unfolding bit_len refs as_slice
midway-IsWf = record {
  bits = omega arith;
  end_bits = omega arith;
  refs_in = omega arith;
  end_refs = omega arith;
}

load_word_total_example :
    (64 < 8 → load_word 64 8 midway ≡ (err (too_wide 8 64), midway))
    × (8 ≤ 64 → 12 < 3 + 8 → load_word 64 8 midway ≡ (err (not_enough_bits 8 (12 - 3)), midway))
    × (8 ≤ 64
        → 3 + 8 ≤ 12
        → (load_word 64 8 midway
            ≡ (ok (word_from 0 (bits_from (165 ∷ 240 ∷ []) 3 8)), past 8 midway))
          × (word_from 0 (bits_from (165 ∷ 240 ∷ []) 3 8) < 2 ^ 8))
unfolding cell_data
load_word_total_example = load_word_total 64 8 midway midway-IsWf
