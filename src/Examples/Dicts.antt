-- ===== src/Examples/Dicts.antt =====
-- A dictionary of two-bit keys.
use ton_net.Base.{
  Option, ℕ, ◌≡◌, ◌≢◌, refl, Bool, true, false, none, some, List, [], ◌∷◌, length, replicate, ◌%◌,
  arith,
}
use ton_net.Base.Result.{ok, err}
use ton_net.Cell.Error.{pruned}
use ton_net.Cell.Kind.{ordinary}
use ton_net.Cell.Identity.{Hash, unfilled}
use ton_net.Cell.Types.{Cell, cell_of, no_refs, two, as_slice}
use ton_net.Cell.Builder.{Builder}
use ton_net.Cell.Builder.Invariant.{contents}
use ton_net.Cell.Dict.Key.{key_of, pack}
use ton_net.Cell.Dict.Packed.{key_of-pack}
use ton_net.Cell.Dict.Shape.{plain, leaf, found, absent, Lookup}
use ton_net.Cell.Dict.Walk.{lookup}
use ton_net.Cell.Dict.Plain.{Dict, set_root, set, remove_root, remove}
use ton_net.Cell.Dict.Trie.{Trie, tip, find}
use ton_net.Cell.Dict.Node.{Is}
use ton_net.Cell.Dict.Lookups.{Finds, lookup-find}
use ton_net.Cell.Dict.Builds.{leaf-Node}
use ton_net.Cell.Dict.Maps.{IsRoot, insert_in, set_root-insert}
use ton_net.Cell.Dict.Trie.Delete.{delete}
use ton_net.Cell.Dict.Maps.SetGet.{IsMap, Gets, Kept, set-get}
use ton_net.Cell.Dict.Iter.{Pending, walk_step}
use ton_net.Cell.Dict.Iters.{Waits, Yields, all_leaves, walk_step-Yields}
use ton_net.Cell.Dict.Maps.Removing.{Returns, remove_root-delete}
use ton_net.Cell.Dict.Maps.RemoveGet.{remove-get}

abbrev toy_hash : List ℕ → Hash
toy_hash bytes = replicate 32 (length bytes % 256)

-- The value 1 under the key 01.
abbrev one : Builder
one = record { content = 128 ∷ []; bits = 1; refs = no_refs }

abbrev key_01 : List Bool
key_01 = false ∷ true ∷ []

abbrev one_leaf : Cell
one_leaf =
    cell_of (103 ∷ []) 7 no_refs ordinary
      (record { level_mask = 0; hash0 = replicate 32 3; depth0 = 0; extra = none })

one_leaf-built : leaf toy_hash plain key_01 tt one 2 ≡ ok one_leaf
unfolding ton_net.Cell.Identity.blank ton_net.Cell.Assemble.bit_at ton_net.Cell.Assemble.finish
    ton_net.Cell.Assemble.store_ref ton_net.Cell.Assemble.tagged ton_net.Cell.Builder.bits_left
    ton_net.Cell.Builder.can_extend_by ton_net.Cell.Builder.pushed ton_net.Cell.Builder.refs_left
    ton_net.Cell.Builder.refs_used ton_net.Cell.Builder.store_low ton_net.Cell.Builder.store_uint
    ton_net.Cell.Builder.store_word ton_net.Cell.Data.bit_at ton_net.Cell.Data.update_last
    ton_net.Cell.Dict.Label.bool_at ton_net.Cell.Dict.Label.choose ton_net.Cell.Dict.Label.pick
    ton_net.Cell.Dict.Label.store_form ton_net.Cell.Hash.children_bytes ton_net.Cell.Hash.compute
    ton_net.Cell.Hash.depth_over ton_net.Cell.Hash.implied_mask ton_net.Cell.Hash.read_depth
    ton_net.Cell.Hash.read_hash ton_net.Cell.Identity.count ton_net.Cell.Identity.depth
    ton_net.Cell.Identity.depth_at ton_net.Cell.Identity.hash ton_net.Cell.Identity.hash_at
    ton_net.Cell.Identity.set ton_net.Cell.Kind.is_exotic ton_net.Cell.Kind.is_merkle
    ton_net.Cell.Kind.is_pruned ton_net.Cell.Level.applied_mask ton_net.Cell.Level.bits_descriptor
    ton_net.Cell.Level.count_ones ton_net.Cell.Level.hash_index ton_net.Cell.Level.level_of
    ton_net.Cell.Level.refs_descriptor as_slice ton_net.Cell.Types.identity ton_net.Cell.Types.push
    leaf ton_net.Cell.Dict.Shape.assemble ton_net.Cell.Assemble.built_by
    ton_net.Cell.Dict.Label.store_label ton_net.Cell.Dict.Label.bool_run
    ton_net.Cell.Dict.Label.bounded_width ton_net.Cell.Level.leading_zeros
    ton_net.Cell.Builder.store_bit ton_net.Cell.Builder.room_for ton_net.Cell.Builder.store_same_bit
    ton_net.Cell.Builder.put_bit ton_net.Cell.Dict.Label.store_run
    ton_net.Cell.Assemble.store_builder ton_net.Cell.Assemble.build ton_net.Cell.Types.from_parts
    ton_net.Cell.Hash.summarize
one_leaf-built = refl

abbrev one_key : Trie
one_key = tip key_01 (true ∷ []) []

one_key-Is : Is one_leaf 2 one_key
unfolding Is contents as_slice ton_net.Cell.Data.Runs.bits_from ton_net.Cell.Data.bit_at
one_key-Is =
    (leaf-Node toy_hash key_01 one 2 one_leaf (omega arith) (omega arith) one_leaf-built, refl)

lookup-find_example : Finds (lookup plain (some one_leaf) 2 key_01) (find one_key key_01)
lookup-find_example = lookup-find one_leaf 2 key_01 one_key one_key-Is

-- The value 0 under the key 11.
abbrev nought : Builder
nought = record { content = 0 ∷ []; bits = 1; refs = no_refs }

abbrev key_11 : List Bool
key_11 = true ∷ true ∷ []

one_key-IsRoot : IsRoot (some one_leaf) (length key_11) (some one_key)
unfolding IsRoot
one_key-IsRoot = one_key-Is

abbrev small : Dict
small = record { root = some one_leaf; key_bits = 2 }

abbrev fork_root : Cell
fork_root =
    cell_of (32 ∷ []) 2
      (two
        (cell_of (92 ∷ []) 5 no_refs ordinary
          (record { level_mask = 0; hash0 = replicate 32 3; depth0 = 0; extra = none }))
        (cell_of (84 ∷ []) 5 no_refs ordinary
          (record { level_mask = 0; hash0 = replicate 32 3; depth0 = 0; extra = none })))
      ordinary (record { level_mask = 0; hash0 = replicate 32 71; depth0 = 1; extra = none })

abbrev larger : Dict
larger = record { root = some fork_root; key_bits = 2 }

larger-set : set toy_hash (192 ∷ []) nought small ≡ (ok tt, larger)
unfolding ton_net.Cell.Identity.blank ton_net.Cell.Assemble.bit_at ton_net.Cell.Assemble.finish
    ton_net.Cell.Assemble.store_ref ton_net.Cell.Assemble.tagged ton_net.Cell.Builder.bits_left
    ton_net.Cell.Builder.can_extend_by ton_net.Cell.Builder.pushed ton_net.Cell.Builder.refs_left
    ton_net.Cell.Builder.refs_used ton_net.Cell.Builder.store_low ton_net.Cell.Builder.store_uint
    ton_net.Cell.Builder.store_word ton_net.Cell.Data.bit_at ton_net.Cell.Data.update_last
    ton_net.Cell.Dict.Label.bool_at ton_net.Cell.Dict.Label.choose ton_net.Cell.Dict.Label.pick
    ton_net.Cell.Dict.Label.store_form ton_net.Cell.Hash.children_bytes ton_net.Cell.Hash.compute
    ton_net.Cell.Hash.depth_over ton_net.Cell.Hash.implied_mask ton_net.Cell.Hash.read_depth
    ton_net.Cell.Hash.read_hash ton_net.Cell.Identity.count ton_net.Cell.Identity.depth
    ton_net.Cell.Identity.depth_at ton_net.Cell.Identity.hash ton_net.Cell.Identity.hash_at
    ton_net.Cell.Identity.set ton_net.Cell.Kind.is_exotic ton_net.Cell.Kind.is_merkle
    ton_net.Cell.Kind.is_pruned ton_net.Cell.Level.applied_mask ton_net.Cell.Level.bits_descriptor
    ton_net.Cell.Level.count_ones ton_net.Cell.Level.hash_index ton_net.Cell.Level.level_of
    ton_net.Cell.Level.refs_descriptor as_slice ton_net.Cell.Types.identity ton_net.Cell.Types.push
    leaf ton_net.Cell.Dict.Shape.assemble ton_net.Cell.Assemble.built_by
    ton_net.Cell.Dict.Label.store_label ton_net.Cell.Dict.Label.bool_run
    ton_net.Cell.Dict.Label.bounded_width ton_net.Cell.Level.leading_zeros
    ton_net.Cell.Builder.store_bit ton_net.Cell.Builder.room_for ton_net.Cell.Builder.store_same_bit
    ton_net.Cell.Builder.put_bit ton_net.Cell.Dict.Label.store_run
    ton_net.Cell.Assemble.store_builder ton_net.Cell.Assemble.build ton_net.Cell.Types.from_parts
    ton_net.Cell.Hash.summarize set key_of ton_net.Cell.Dict.Walk.descend
    ton_net.Cell.Dict.Walk.descend_loop ton_net.Cell.Types.cell_type ton_net.Cell.Dict.Walk.read_of
    ton_net.Cell.Dict.Label.read_label_into ton_net.Cell.Dict.Label.read_run
    ton_net.Cell.Slice.load_bit ton_net.Cell.Slice.advance ton_net.Cell.Slice.parse
    ton_net.Cell.Types.bit_len ton_net.Cell.Types.cell_data ton_net.Cell.Dict.Label.unary_loop
    ton_net.Cell.Dict.Label.spelled_loop ton_net.Cell.Dict.Key.push
    ton_net.Cell.Dict.Walk.descend_at ton_net.Cell.Dict.Walk.is_some ton_net.Cell.Assemble.carry
    ton_net.Cell.Assemble.copy_bits ton_net.Cell.Assemble.copy_refs
    ton_net.Cell.Assemble.store_slice ton_net.Cell.Data.Runs.read_loop
    ton_net.Cell.Dict.Key.bit_or_false ton_net.Cell.Dict.Key.diverges ton_net.Cell.Dict.Key.key_bit
    ton_net.Cell.Dict.Key.key_bits_from ton_net.Cell.Dict.Key.one_later
    ton_net.Cell.Dict.Label.explicit_len ton_net.Cell.Dict.Label.fill
    ton_net.Cell.Dict.Label.repeated_loop ton_net.Cell.Dict.Label.skip_label
    ton_net.Cell.Dict.Label.skip_run ton_net.Cell.Dict.Plain.bottom_at
    ton_net.Cell.Dict.Plain.put_root set_root ton_net.Cell.Dict.Shape.below
    ton_net.Cell.Dict.Shape.branch_of ton_net.Cell.Dict.Shape.write_fork_extra
    ton_net.Cell.Dict.Shape.fork_over ton_net.Cell.Dict.Shape.plain_check
    ton_net.Cell.Dict.Shape.rebuild_step ton_net.Cell.Dict.Walk.branch_bit
    ton_net.Cell.Dict.Walk.rebuild ton_net.Cell.Dict.Walk.store_rest
    ton_net.Cell.Dict.Walk.relabelled ton_net.Cell.Dict.Walk.split ton_net.Cell.Slice.load_ref
    ton_net.Cell.Slice.load_uint ton_net.Cell.Slice.load_word ton_net.Cell.Slice.peek_ref
    ton_net.Cell.Slice.remaining_bits ton_net.Cell.Slice.remaining_refs ton_net.Cell.Slice.skip_bits
    ton_net.Cell.Types.reference ton_net.Cell.Types.refs
larger-set = refl

key_11-read : key_of (192 ∷ []) 2 ≡ ok key_11
unfolding key_of ton_net.Cell.Data.bit_at
key_11-read = refl

small-IsMap : IsMap small (some one_key)
small-IsMap = record { cells = one_key-IsRoot; narrow = omega arith }

set_root-insert_example :
    (insert_in (some one_key) key_11 (contents nought) [] ≡ none
      → set_root toy_hash (some one_leaf) 2 key_11 nought ≡ err pruned)
    × ((top : Cell)
        → set_root toy_hash (some one_leaf) 2 key_11 nought ≡ ok top
        → (new : Trie) × (insert_in (some one_key) key_11 (contents nought) [] ≡ some new)
          × Is top 2 new)
unfolding as_slice
set_root-insert_example =
    set_root-insert toy_hash key_11 nought (some one_leaf) (some one_key) (omega arith)
      one_key-IsRoot

set-get_example :
    (new : Trie) × IsMap larger (some new)
    × (larger.key_bits ≡ small.key_bits)
    × Gets larger (192 ∷ []) (found (contents nought, []))
    × ((other : List ℕ) (other_bits : List Bool)
        → key_of other 2 ≡ ok other_bits
        → other_bits ≢ key_11
        → (want : Lookup (List Bool × List Cell)) × Gets small other want × Gets larger other want)
unfolding as_slice
set-get_example =
    set-get toy_hash small larger (some one_key) (192 ∷ []) key_11 nought small-IsMap key_11-read
      larger-set

-- What `set` put in, `remove` takes out.
larger-removed : remove toy_hash (192 ∷ []) larger ≡ (ok true, small)
unfolding ton_net.Cell.Identity.blank ton_net.Cell.Assemble.bit_at ton_net.Cell.Assemble.finish
    ton_net.Cell.Assemble.store_ref ton_net.Cell.Assemble.tagged ton_net.Cell.Builder.bits_left
    ton_net.Cell.Builder.can_extend_by ton_net.Cell.Builder.pushed ton_net.Cell.Builder.refs_left
    ton_net.Cell.Builder.refs_used ton_net.Cell.Builder.store_low ton_net.Cell.Builder.store_uint
    ton_net.Cell.Builder.store_word ton_net.Cell.Data.bit_at ton_net.Cell.Data.update_last
    ton_net.Cell.Dict.Label.bool_at ton_net.Cell.Dict.Label.choose ton_net.Cell.Dict.Label.pick
    ton_net.Cell.Dict.Label.store_form ton_net.Cell.Hash.children_bytes ton_net.Cell.Hash.compute
    ton_net.Cell.Hash.depth_over ton_net.Cell.Hash.implied_mask ton_net.Cell.Hash.read_depth
    ton_net.Cell.Hash.read_hash ton_net.Cell.Identity.count ton_net.Cell.Identity.depth
    ton_net.Cell.Identity.depth_at ton_net.Cell.Identity.hash ton_net.Cell.Identity.hash_at
    ton_net.Cell.Identity.set ton_net.Cell.Kind.is_exotic ton_net.Cell.Kind.is_merkle
    ton_net.Cell.Kind.is_pruned ton_net.Cell.Level.applied_mask ton_net.Cell.Level.bits_descriptor
    ton_net.Cell.Level.count_ones ton_net.Cell.Level.hash_index ton_net.Cell.Level.level_of
    ton_net.Cell.Level.refs_descriptor as_slice ton_net.Cell.Types.identity ton_net.Cell.Types.push
    leaf ton_net.Cell.Dict.Shape.assemble ton_net.Cell.Assemble.built_by
    ton_net.Cell.Dict.Label.store_label ton_net.Cell.Dict.Label.bool_run
    ton_net.Cell.Dict.Label.bounded_width ton_net.Cell.Level.leading_zeros
    ton_net.Cell.Builder.store_bit ton_net.Cell.Builder.room_for ton_net.Cell.Builder.store_same_bit
    ton_net.Cell.Builder.put_bit ton_net.Cell.Dict.Label.store_run
    ton_net.Cell.Assemble.store_builder ton_net.Cell.Assemble.build ton_net.Cell.Types.from_parts
    ton_net.Cell.Hash.summarize remove key_of ton_net.Cell.Dict.Walk.descend
    ton_net.Cell.Dict.Walk.descend_loop ton_net.Cell.Types.cell_type ton_net.Cell.Dict.Walk.read_of
    ton_net.Cell.Dict.Label.read_label_into ton_net.Cell.Dict.Label.read_run
    ton_net.Cell.Slice.load_bit ton_net.Cell.Slice.advance ton_net.Cell.Slice.parse
    ton_net.Cell.Types.bit_len ton_net.Cell.Types.cell_data ton_net.Cell.Dict.Label.unary_loop
    ton_net.Cell.Dict.Label.spelled_loop ton_net.Cell.Dict.Key.push
    ton_net.Cell.Dict.Walk.descend_at ton_net.Cell.Dict.Walk.is_some ton_net.Cell.Assemble.carry
    ton_net.Cell.Assemble.copy_bits ton_net.Cell.Assemble.copy_refs
    ton_net.Cell.Assemble.store_slice ton_net.Cell.Data.Runs.read_loop
    ton_net.Cell.Dict.Key.bit_or_false ton_net.Cell.Dict.Key.diverges ton_net.Cell.Dict.Key.key_bit
    ton_net.Cell.Dict.Key.key_bits_from ton_net.Cell.Dict.Key.one_later
    ton_net.Cell.Dict.Label.explicit_len ton_net.Cell.Dict.Label.fill
    ton_net.Cell.Dict.Label.repeated_loop ton_net.Cell.Dict.Label.skip_label
    ton_net.Cell.Dict.Label.skip_run ton_net.Cell.Dict.Plain.bottom_at
    ton_net.Cell.Dict.Plain.put_root set_root ton_net.Cell.Dict.Shape.below
    ton_net.Cell.Dict.Shape.branch_of ton_net.Cell.Dict.Shape.write_fork_extra
    ton_net.Cell.Dict.Shape.fork_over ton_net.Cell.Dict.Shape.plain_check
    ton_net.Cell.Dict.Shape.rebuild_step ton_net.Cell.Dict.Walk.branch_bit
    ton_net.Cell.Dict.Walk.rebuild ton_net.Cell.Dict.Walk.store_rest
    ton_net.Cell.Dict.Walk.relabelled ton_net.Cell.Dict.Walk.split ton_net.Cell.Slice.load_ref
    ton_net.Cell.Slice.load_uint ton_net.Cell.Slice.load_word ton_net.Cell.Slice.peek_ref
    ton_net.Cell.Slice.remaining_bits ton_net.Cell.Slice.remaining_refs ton_net.Cell.Slice.skip_bits
    ton_net.Cell.Types.reference ton_net.Cell.Types.refs ton_net.Cell.Dict.Walk.collapse
    ton_net.Cell.Dict.Key.extend ton_net.Cell.Dict.Plain.remove_root
    ton_net.Cell.Dict.Plain.remove_at ton_net.Cell.Dict.Plain.remove_leaf
larger-removed = refl

remove-get_example :
    (new : Option Trie) × IsMap small new
    × (small.key_bits ≡ larger.key_bits)
    × Gets small (192 ∷ []) absent
    × Kept larger small key_11
    × (true ≡ false → small ≡ larger)
remove-get_example =
    remove-get toy_hash larger small
      (some
        (set-get toy_hash small larger (some one_key) (192 ∷ []) key_11 nought small-IsMap
          key_11-read larger-set).0)
      (192 ∷ []) key_11 true
      (set-get toy_hash small larger (some one_key) (192 ∷ []) key_11 nought small-IsMap key_11-read
        larger-set).1
      key_11-read larger-removed

remove_root-delete_example :
    Returns (delete one_key key_01) one_leaf 2 (remove_root toy_hash (some one_leaf) 2 key_01)
remove_root-delete_example = remove_root-delete toy_hash one_leaf 2 key_01 one_key one_key-Is

abbrev waiting : List Pending
waiting = record { node = one_leaf; prefix = []; remaining = 2 } ∷ []

waiting-Waits : Waits waiting (one_key ∷ [])
unfolding Waits
waiting-Waits = (one_key-Is, omega arith, tt)

walk_step-Yields_example : Yields (walk_step plain waiting) (all_leaves waiting (one_key ∷ []))
walk_step-Yields_example = walk_step-Yields waiting (one_key ∷ []) waiting-Waits

key_of-pack_example : key_of (pack key_11) 2 ≡ ok key_11
key_of-pack_example = key_of-pack key_11
