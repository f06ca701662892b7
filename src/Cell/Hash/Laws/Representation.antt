-- ===== src/Cell/Hash/Laws/Representation.antt =====
-- A cell's representation and depth, described apart from the loops that compute them.
use mathlib.Core.List.{foldl, append_assoc, append-nil}
use ton_net.Base.{
  ℕ, ◌+◌, ◌/◌, ◌%◌, ◌≤◌, ◌≡◌, sym, ◌∙◌, Bool, true, false, List, [], ◌∷◌, ◌++◌, map, max, min,
  if◌then◌else◌, length, arith,
}
use ton_net.Cell.Kind.{CellType, is_exotic}
use ton_net.Cell.Level.{bits_descriptor, refs_descriptor}
use ton_net.Cell.Identity
use ton_net.Cell.Identity.{Identity, Hash, be_bytes16}
use ton_net.Cell.Hash.{depth_over, children_bytes}
use ton_net.Cell.Hash.Laws.Lowest.{lowest_bytes, child_level}

-- The greatest of the numbers, 0 where there is none.
unfoldable pub greatest : List ℕ → ℕ
greatest [] = 0
greatest (d ∷ ds) = max d (greatest ds)

-- The depth of a cell over references of those depths.
unfoldable pub height : List ℕ → ℕ
unfolding greatest
height [] = 0
height (d ∷ ds) = min (greatest (d ∷ ds) + 1) 65535

unfoldable pub joined : List (List ℕ) → List ℕ
joined [] = []
joined (bytes ∷ rest) = bytes ++ joined rest

abbrev pub depth_from : ℕ → Identity → ℕ
depth_from level child = Identity.depth_at child level

abbrev pub hash_from : ℕ → Identity → Hash
hash_from level child = Identity.hash_at child level

-- The number of references with the mark of an exotic cell, the length of the data in bytes
-- rounded down and rounded up, the data, and of the references every depth and then every hash.
unfoldable pub representation : ℕ → Bool → List ℕ → ℕ → List Identity → List ℕ
unfolding joined
representation level exotic content bits refs =
    (length refs + (if exotic then 8 else 0))
    ∷ (bits / 8 + (bits + 7) / 8)
    ∷ (content
        ++ (joined (map (λ child. be_bytes16 (depth_from level child)) refs)
            ++ joined (map (hash_from level) refs)))

height-cons : (d : ℕ) (ds : List ℕ) → height (d ∷ ds) ≡ max (min (d + 1) 65535) (height ds)
unfolding height
height-cons d [] = ground arith
height-cons d (e ∷ ds) = ground arith

foldl-height :
    (level acc : ℕ) (refs : List Identity)
    → foldl (λ depth child. max depth (min (Identity.depth_at child level + 1) 65535)) acc refs
      ≡ max acc (height (map (depth_from level) refs))
unfolding height
foldl-height level acc [] = ground arith
foldl-height level acc (c ∷ refs) =
    foldl-height level (max acc (min (Identity.depth_at c level + 1) 65535)) refs
    ∙ omega (arith, height-cons (Identity.depth_at c level) (map (depth_from level) refs))

pub depth_over-height :
    (level : ℕ) (refs : List Identity)
    → depth_over level refs ≡ height (map (depth_from level) refs)
unfolding depth_over
depth_over-height level refs = omega (arith, foldl-height level 0 refs)

foldl-joined :
    (piece : Identity → List ℕ) (acc : List ℕ) (refs : List Identity)
    → foldl (λ bytes child. bytes ++ piece child) acc refs ≡ acc ++ joined (map piece refs)
unfolding joined
foldl-joined piece acc [] = sym (append-nil acc)
foldl-joined piece acc (c ∷ refs) =
    foldl-joined piece (acc ++ piece c) refs ∙ append_assoc acc (piece c) (joined (map piece refs))

marked :
    (n : ℕ) (exotic : Bool)
    → n ≤ 4
    → (n % 256 + (if exotic then 8 else 0) + 0) % 256 ≡ n + (if exotic then 8 else 0)
marked n true h = omega arith
marked n false h = omega arith

sized : (bits : ℕ) → bits ≤ 1023 → (bits / 8 + (bits + 7) / 8) % 256 ≡ bits / 8 + (bits + 7) / 8
sized bits h = omega arith

pub lowest_bytes-representation :
    (content : List ℕ) (bits : ℕ) (refs : List Identity) (kind : CellType)
    → length refs ≤ 4
    → bits ≤ 1023
    → lowest_bytes content bits refs kind
      ≡ representation (child_level 0 kind) (is_exotic kind) content bits refs
unfolding lowest_bytes representation children_bytes refs_descriptor bits_descriptor
lowest_bytes-representation content bits refs kind few short =
    let level = child_level 0 kind in
    cc (
      marked (length refs) (is_exotic kind) few,
      sized bits short,
      foldl-joined (λ child. be_bytes16 (depth_from level child)) [] refs,
      foldl-joined (hash_from level) [] refs,
    )
