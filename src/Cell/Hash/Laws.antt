-- ===== src/Cell/Hash/Laws.antt =====
-- What `compute` returns: a full set of hashes for every mask of the cell model, and a lowest hash
-- that sees the children only through their own hash and depth.
mod Range
mod Lowest
mod Representation
use Range.{read_hash-ok, read_depth-ok}
use Lowest.{lowest_bytes}
use Representation.{lowest_bytes-representation, depth_over-height}
pub use Range.{depth_in}
pub use Lowest.{child_level, compute-lowest}
pub use Representation.{representation, height, depth_from}
use ton_net.Base.{
  ℕ, zero, suc, ◌+◌, ◌-◌, ◌*◌, ◌/◌, ◌%◌, ◌≤◌, ◌<◌, ◌≡◌, refl, ap, sym, ◌∙◌, Bool, true, false,
  Option, none, some, List, [], ◌∷◌, ◌++◌, map, not, max, min, ltb, ◌==◌, if◌then◌else◌, length,
  take, drop, arith,
}
use ton_net.Base.Result.{Result, ok, err, ◌>>=◌}
use ton_net.Cell.Error.{CellError, malformed}
use ton_net.Cell.Kind.{CellType, is_pruned, is_exotic, is_merkle, ordinary, pruned_branch}
use ton_net.Cell.Level.{count_ones, level_of, hash_index, bits_descriptor, refs_descriptor}
use ton_net.Cell.Identity
use ton_net.Cell.Identity.{Identity, Hash, be_bytes16}
use ton_net.Cell.Hash.{compute, depth_over, children_bytes, levels_loop, level_step}
use mathlib.Core.List.{foldl}

module _ (sha256 : List ℕ → Hash) where
  -- A cell that is not of the pruned kind, with at most four references and 1023 bits, has an
  -- identity at every mask below 8, which keeps the mask. Its lowest hash is that of the two
  -- descriptors, the data, the depths of the references and then their hashes, and its lowest
  -- depth is zero without references and otherwise one more than the greatest of theirs, at most
  -- 65535, where the references answer for the lowest level, and under a Merkle cell one higher.
  pub compute_total :
      (content : List ℕ) (bits : ℕ) (refs : List Identity) (kind : CellType) (mask : ℕ)
      → is_pruned kind ≡ false
      → mask < 8
      → length refs ≤ 4
      → bits ≤ 1023
      → (identity : Identity) × (compute sha256 content bits refs kind mask ≡ ok identity)
        × (identity.level_mask ≡ mask)
        × (Identity.hash_at identity 0
            ≡ sha256 (representation (child_level 0 kind) (is_exotic kind) content bits refs))
        × (Identity.depth_at identity 0 ≡ height (map (depth_from (child_level 0 kind)) refs))
  compute_total content bits refs kind mask np h few short =
      let (identity, computed, keeps, hash, depth) =
        compute-lowest sha256 content bits refs kind mask np h in
      (
        identity,
        computed,
        keeps,
        hash ∙ ap sha256 (lowest_bytes-representation content bits refs kind few short),
        depth ∙ depth_over-height (child_level 0 kind) refs,
      )

-- The children agree, one by one, on the hash and the depth that answer for a level.
abbrev pub SameAt : ℕ → List Identity → List Identity → Type 0
SameAt level [] [] = Unit {0}
SameAt level [] (b ∷ ys) = ⊥
SameAt level (a ∷ xs) [] = ⊥
SameAt level (a ∷ xs) (b ∷ ys) =
    (Identity.hash_at a level ≡ Identity.hash_at b level)
    × (Identity.depth_at a level ≡ Identity.depth_at b level)
    × SameAt level xs ys

SameAt-length : (level : ℕ) (xs ys : List Identity) → SameAt level xs ys → length xs ≡ length ys
SameAt-length level [] [] h = refl
SameAt-length level [] (b ∷ ys) h = absurd h
SameAt-length level (a ∷ xs) [] h = absurd h
SameAt-length level (a ∷ xs) (b ∷ ys) h = ap suc (SameAt-length level xs ys h.2)

SameAt-foldl :
    {A : Type 0} (level : ℕ) (f : A → Hash → ℕ → A) (xs ys : List Identity) (acc : A)
    → SameAt level xs ys
    → foldl (λ x c. f x (Identity.hash_at c level) (Identity.depth_at c level)) acc xs
      ≡ foldl (λ x c. f x (Identity.hash_at c level) (Identity.depth_at c level)) acc ys
SameAt-foldl level f [] [] acc h = refl
SameAt-foldl level f [] (b ∷ ys) acc h = absurd h
SameAt-foldl level f (a ∷ xs) [] acc h = absurd h
SameAt-foldl level f (a ∷ xs) (b ∷ ys) acc h = rw (h.0, h.1) (SameAt-foldl level f xs ys _ h.2)

children_bytes-cong :
    (level : ℕ) (xs ys : List Identity)
    → SameAt level xs ys
    → children_bytes level xs ≡ children_bytes level ys
unfolding children_bytes
children_bytes-cong level xs ys h = cc (
  SameAt-foldl level (λ bytes hash depth. bytes ++ be_bytes16 depth) xs ys [] h,
  SameAt-foldl level (λ bytes hash depth. bytes ++ hash) xs ys [] h,
)

depth_over-cong :
    (level : ℕ) (xs ys : List Identity)
    → SameAt level xs ys
    → depth_over level xs ≡ depth_over level ys
unfolding depth_over
depth_over-cong level xs ys h =
    SameAt-foldl level (λ depth hash d. max depth (min (d + 1) 65535)) xs ys 0 h

lowest_bytes-cong :
    (content : List ℕ) (bits : ℕ) (xs ys : List Identity) (kind : CellType)
    → SameAt (child_level 0 kind) xs ys
    → lowest_bytes content bits xs kind ≡ lowest_bytes content bits ys kind
unfolding lowest_bytes
lowest_bytes-cong content bits xs ys kind h =
    cc
      (SameAt-length (child_level 0 kind) xs ys h, children_bytes-cong (child_level 0 kind) xs ys h)

ok-injective : {a b : Identity} → ◌≡◌ {A = Result CellError Identity} (ok a) (ok b) → a ≡ b
ok-injective h = cc

module _ (sha256 : List ℕ → Hash) where
  pub lowest_of :
      (content : List ℕ) (bits : ℕ) (refs : List Identity) (kind : CellType) (mask : ℕ)
      (identity : Identity)
      → is_pruned kind ≡ false
      → mask < 8
      → compute sha256 content bits refs kind mask ≡ ok identity
      → (Identity.hash_at identity 0 ≡ sha256 (lowest_bytes content bits refs kind))
        × (Identity.depth_at identity 0 ≡ depth_over (child_level 0 kind) refs)
  lowest_of content bits refs kind mask identity np h e =
      let (i, ei, m, eh, ed) = compute-lowest sha256 content bits refs kind mask np h in
      let same : i ≡ identity = ok-injective (sym ei ∙ e) in
      (
        ap (λ x. Identity.hash_at x 0) (sym same) ∙ eh,
        ap (λ x. Identity.depth_at x 0) (sym same) ∙ ed,
      )

  -- Two cells with the same data and kind, not of the pruned kind and with masks below 8, whose
  -- references agree in hash and depth at the level that the cells read them at, have the same
  -- lowest hash and depth, though their masks may differ.
  pub compute-substitution :
      (content : List ℕ) (bits : ℕ) (xs ys : List Identity) (kind : CellType) (mask mask' : ℕ)
      (full cut : Identity)
      → is_pruned kind ≡ false
      → mask < 8
      → mask' < 8
      → SameAt (child_level 0 kind) xs ys
      → compute sha256 content bits xs kind mask ≡ ok full
      → compute sha256 content bits ys kind mask' ≡ ok cut
      → (Identity.hash_at full 0 ≡ Identity.hash_at cut 0)
        × (Identity.depth_at full 0 ≡ Identity.depth_at cut 0)
  compute-substitution content bits xs ys kind mask mask' full cut np h h' same e e' =
      let (a, b) = lowest_of content bits xs kind mask full np h e in
      let (c, d) = lowest_of content bits ys kind mask' cut np h' e' in
      (
        a ∙ ap sha256 (lowest_bytes-cong content bits xs ys kind same) ∙ sym c,
        b ∙ depth_over-cong (child_level 0 kind) xs ys same ∙ sym d,
      )

  -- A pruned branch with a mask above 0 and below 8 whose data is long enough for the hashes
  -- and depths that its mask calls for has an identity, whose lowest hash and depth are the
  -- first that the data stores and whose representation hash is the hash of the cell as it
  -- stands.
  pub compute-pruned :
      (content : List ℕ) (bits : ℕ) (refs : List Identity) (mask : ℕ)
      → 0 < mask
      → mask < 8
      → 2 + 34 * count_ones 8 mask ≤ length content
      → (identity : Identity) × (compute sha256 content bits refs pruned_branch mask ≡ ok identity)
        × (Identity.hash_at identity 0 ≡ take 32 (drop 2 content))
        × (Identity.depth_at identity 0 ≡ depth_in (drop (2 + 32 * count_ones 8 mask) content))
        × (Identity.repr_hash identity
            ≡ sha256 (refs_descriptor 0 true mask (level_of mask) ∷ bits_descriptor bits ∷ content))
  unfolding compute Identity.blank Identity.set Identity.count hash_index level_of Identity.hash_at
      Identity.depth_at Identity.repr_hash is_pruned
  compute-pruned content bits refs zero pos h long = absurd (omega arith)
  compute-pruned content bits refs (suc zero) pos h long =
      rw (read_hash-ok content 2 (omega arith), read_depth-ok content 34 (omega arith))
        (_, refl, refl, refl, refl)
  compute-pruned content bits refs (suc (suc zero)) pos h long =
      rw (read_hash-ok content 2 (omega arith), read_depth-ok content 34 (omega arith))
        (_, refl, refl, refl, refl)
  compute-pruned content bits refs (suc (suc (suc zero))) pos h long =
      rw
        (
          read_hash-ok content 2 (omega arith),
          read_hash-ok content 34 (omega arith),
          read_depth-ok content 66 (omega arith),
          read_depth-ok content 68 (omega arith),
        )
        (_, refl, refl, refl, refl)
  compute-pruned content bits refs (suc (suc (suc (suc zero)))) pos h long =
      rw (read_hash-ok content 2 (omega arith), read_depth-ok content 34 (omega arith))
        (_, refl, refl, refl, refl)
  compute-pruned content bits refs (suc (suc (suc (suc (suc zero))))) pos h long =
      rw
        (
          read_hash-ok content 2 (omega arith),
          read_hash-ok content 34 (omega arith),
          read_depth-ok content 66 (omega arith),
          read_depth-ok content 68 (omega arith),
        )
        (_, refl, refl, refl, refl)
  compute-pruned content bits refs (suc (suc (suc (suc (suc (suc zero)))))) pos h long =
      rw
        (
          read_hash-ok content 2 (omega arith),
          read_hash-ok content 34 (omega arith),
          read_depth-ok content 66 (omega arith),
          read_depth-ok content 68 (omega arith),
        )
        (_, refl, refl, refl, refl)
  compute-pruned content bits refs (suc (suc (suc (suc (suc (suc (suc zero))))))) pos h long =
      rw
        (
          read_hash-ok content 2 (omega arith),
          read_hash-ok content 34 (omega arith),
          read_hash-ok content 66 (omega arith),
          read_depth-ok content 98 (omega arith),
          read_depth-ok content 100 (omega arith),
          read_depth-ok content 102 (omega arith),
        )
        (_, refl, refl, refl, refl)
  compute-pruned content bits refs (suc (suc (suc (suc (suc (suc (suc (suc m)))))))) pos h long =
      absurd (omega arith)
