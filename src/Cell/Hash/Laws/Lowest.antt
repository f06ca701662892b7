-- ===== src/Cell/Hash/Laws/Lowest.antt =====
-- The lowest hash and depth that `compute` gives a cell that is not of the pruned kind.
use ton_net.Base.{
  ℕ, zero, suc, ◌+◌, ◌<◌, ◌≡◌, refl, false, List, ◌∷◌, ◌++◌, if◌then◌else◌, length, arith,
}
use ton_net.Base.Result.{ok}
use ton_net.Cell.Kind.{CellType, is_pruned, is_exotic, is_merkle}
use ton_net.Cell.Level.{level_of, hash_index, bits_descriptor, refs_descriptor}
use ton_net.Cell.Identity
use ton_net.Cell.Identity.{Identity, Hash}
use ton_net.Cell.Hash.{compute, depth_over, children_bytes}

-- A Merkle cell's references answer one level up.
abbrev pub child_level : ℕ → CellType → ℕ
child_level level kind = level + (if is_merkle kind then 1 else 0)

-- The representation at the lowest level, where no mask shows.
unfoldable pub lowest_bytes : List ℕ → ℕ → List Identity → CellType → List ℕ
lowest_bytes content bits refs kind =
    refs_descriptor (length refs) (is_exotic kind) 0 0
    ∷ bits_descriptor bits
    ∷ (content ++ children_bytes (child_level 0 kind) refs)

module _ (sha256 : List ℕ → Hash) where
  -- The lowest hash and depth of a cell, as `compute` puts them together.
  pub compute-lowest :
      (content : List ℕ) (bits : ℕ) (refs : List Identity) (kind : CellType) (mask : ℕ)
      → is_pruned kind ≡ false
      → mask < 8
      → (identity : Identity) × (compute sha256 content bits refs kind mask ≡ ok identity)
        × (identity.level_mask ≡ mask)
        × (Identity.hash_at identity 0 ≡ sha256 (lowest_bytes content bits refs kind))
        × (Identity.depth_at identity 0 ≡ depth_over (child_level 0 kind) refs)
  unfolding compute Identity.blank Identity.set Identity.count hash_index level_of Identity.hash_at
      Identity.depth_at lowest_bytes refs_descriptor
  compute-lowest content bits refs kind zero np h = rw np (_, refl, refl, refl, refl)
  compute-lowest content bits refs kind (suc zero) np h = rw np (_, refl, refl, refl, refl)
  compute-lowest content bits refs kind (suc (suc zero)) np h = rw np (_, refl, refl, refl, refl)
  compute-lowest content bits refs kind (suc (suc (suc zero))) np h =
      rw np (_, refl, refl, refl, refl)
  compute-lowest content bits refs kind (suc (suc (suc (suc zero)))) np h =
      rw np (_, refl, refl, refl, refl)
  compute-lowest content bits refs kind (suc (suc (suc (suc (suc zero))))) np h =
      rw np (_, refl, refl, refl, refl)
  compute-lowest content bits refs kind (suc (suc (suc (suc (suc (suc zero)))))) np h =
      rw np (_, refl, refl, refl, refl)
  compute-lowest content bits refs kind (suc (suc (suc (suc (suc (suc (suc zero))))))) np h =
      rw np (_, refl, refl, refl, refl)
  compute-lowest content bits refs kind (suc (suc (suc (suc (suc (suc (suc (suc m)))))))) np h =
      absurd (omega arith)
