-- ===== src/Cell/Hash.antt =====
-- How a cell's representation hashes and depths are computed: `compute` and its readers in
-- core/src/cell/cell/hash.rs, `summarize` and `implied_mask` in core/src/cell/cell.rs.
-- SHA-256 is a parameter. The source feeds it piece by piece; here it takes the pieces joined.
pub mod Laws
use ton_net.Base.{
  ℕ, zero, suc, ◌+◌, ◌-◌, ◌*◌, ◌/◌, ◌%◌, ◌≤◌, ◌<◌, ◌≡◌, refl, Bool, true, false, Option, none, some,
  List, [], ◌∷◌, ◌++◌, map, not, bit_or, max, min, ltb, ◌==◌, if◌then◌else◌, length, take, drop,
  arith,
}
use ton_net.Base.Result.{Result, ok, err, ◌>>=◌}
use ton_net.Cell.Error.{CellError, malformed}
use ton_net.Cell.Kind.{
  CellType, ordinary, pruned_branch, library_reference, merkle_proof, merkle_update,
}
use ton_net.Cell.Kind.{is_merkle, is_exotic, is_pruned}
use ton_net.Cell.Level.{count_ones, level_of, hash_index, bits_descriptor, refs_descriptor}
use ton_net.Cell.Identity
use ton_net.Cell.Identity.{Identity, Hash, be_bytes16}
use mathlib.Core.List.{foldl}

-- `data.get(at..at + len)`
abbrev pub get_range : List ℕ → ℕ → ℕ → Option (List ℕ)
get_range content at len =
    if ltb (length content) (at + len) then none else some (take len (drop at content))

unfoldable pub read_hash : List ℕ → ℕ → Result CellError Hash
read_hash content at = elim (get_range content at 32) [
  | none ↦ err (malformed "exotic cell is too short for its hash")
  | some bytes ↦ ok bytes
]

unfoldable pub read_depth : List ℕ → ℕ → Result CellError ℕ
read_depth content at = elim (get_range content at 2) [
  | some (a ∷ b ∷ []) ↦ ok (a * 256 + b)
  | _ ↦ err (malformed "exotic cell is too short for its depth")
]

-- `depth.max(child_depth.saturating_add(1))` over the references, in `u16`
unfoldable pub depth_over : ℕ → List Identity → ℕ
depth_over level =
    foldl (λ depth child. max depth (min (Identity.depth_at child level + 1) 65535)) 0

-- Every child's depth precedes every child's hash.
unfoldable pub children_bytes : ℕ → List Identity → List ℕ
children_bytes level refs =
    foldl (λ bytes child. bytes ++ be_bytes16 (Identity.depth_at child level)) [] refs
    ++ foldl (λ bytes child. bytes ++ Identity.hash_at child level) [] refs

-- The lowest hash is taken over the cell's data, a higher one over the hash below it.
body_of : Identity → ℕ → List ℕ → List ℕ
body_of identity zero content = content
body_of identity (suc below) content = elim (Identity.hash identity below) [
  | none ↦ content
  | some previous ↦ previous
]

module _ (sha256 : List ℕ → Hash) where
  -- The stored hashes and depths of a pruned branch, from the lowest level.
  pruned_loop : List ℕ → ℕ → ℕ → ℕ → Identity → Result CellError Identity
  pruned_loop content stored index zero identity = ok identity
  pruned_loop content stored index (suc n) identity = do
    hash ← read_hash content (2 + 32 * index)
    depth ← read_depth content (2 + 32 * stored + 2 * index)
    identity' ← Identity.set identity index hash depth
    pruned_loop content stored (index + 1) n identity'

  -- One round of the loop over the levels.
  level_step :
      List ℕ → ℕ → List Identity → CellType → ℕ → ℕ → Identity × ℕ → Result CellError (Identity × ℕ)
  unfolding body_of
  level_step content bits refs cell_type mask this_level (identity, written) =
      if not (hash_index mask this_level == written) then ok (identity, written) else do
        let child_level = this_level + (if is_merkle cell_type then 1 else 0)
        let d1 = refs_descriptor (length refs) (is_exotic cell_type) mask this_level
        let d2 = bits_descriptor bits
        let bytes = d1 ∷ d2 ∷ (body_of identity written content ++ children_bytes child_level refs)
        identity' ← Identity.set identity written (sha256 bytes) (depth_over child_level refs)
        ok (identity', written + 1)

  -- `for this_level in 0..=level`, with the rounds that are left
  levels_loop :
      List ℕ
      → ℕ
      → List Identity
      → CellType
      → ℕ
      → ℕ
      → ℕ
      → Identity × ℕ
      → Result CellError (Identity × ℕ)
  levels_loop content bits refs cell_type mask this_level zero state = ok state
  levels_loop content bits refs cell_type mask this_level (suc rounds) state = do
    state' ← level_step content bits refs cell_type mask this_level state
    levels_loop content bits refs cell_type mask (this_level + 1) rounds state'

  compute_pruned : List ℕ → ℕ → ℕ → Identity → Result CellError (Identity × ℕ)
  unfolding pruned_loop
  compute_pruned content bits mask blank = do
    let stored = count_ones 8 mask
    identity ← pruned_loop content stored 0 stored blank
    let d1 = refs_descriptor 0 true mask (level_of mask)
    identity' ← Identity.set identity stored (sha256 (d1 ∷ bits_descriptor bits ∷ content)) 0
    ok (identity', stored + 1)

  unfoldable pub compute : List ℕ → ℕ → List Identity → CellType → ℕ → Result CellError Identity
  unfolding compute_pruned levels_loop level_step
  compute content bits refs cell_type mask = do
    blank ← Identity.blank mask
    (identity, written) ←
        (if is_pruned cell_type
          then compute_pruned content bits mask blank
          else levels_loop content bits refs cell_type mask 0 (level_of mask + 1) (blank, 0))
    if written == Identity.count identity
        then ok identity
        else err (malformed "cell has fewer hashes than its level mask calls for")

  unfoldable pub implied_mask : CellType → ℕ → ℕ → ℕ
  implied_mask pruned_branch children_mask stored = stored
  implied_mask library_reference children_mask stored = 0
  implied_mask merkle_proof children_mask stored = children_mask / 2
  implied_mask merkle_update children_mask stored = children_mask / 2
  implied_mask ordinary children_mask stored = children_mask

  unfoldable pub summarize : List ℕ → ℕ → List Identity → CellType → ℕ → Result CellError Identity
  unfolding implied_mask compute
  summarize content bits refs cell_type mask =
      let children_mask = foldl (λ acc child. bit_or acc child.level_mask) 0 refs in
      if mask == implied_mask cell_type children_mask mask
      then compute content bits refs cell_type mask
      else err (malformed "cell level mask is not the one its children imply")
