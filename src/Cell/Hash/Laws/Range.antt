-- ===== src/Cell/Hash/Laws/Range.antt =====
-- Reads of a hash and of a depth inside the data.
use ton_net.Base.{ℕ, zero, suc, ◌+◌, ◌*◌, ◌≤◌, ◌≡◌, refl, List, [], ◌∷◌, length, take, drop, arith}
use ton_net.Base.Result.{ok}
use ton_net.Cell.Hash.{read_hash, read_depth}

pub read_hash-ok :
    (content : List ℕ) (at : ℕ)
    → at + 32 ≤ length content
    → read_hash content at ≡ ok (take 32 (drop at content))
unfolding read_hash
read_hash-ok content at h = ground arith

-- The two bytes at a place, most significant first.
unfoldable pub depth_in : List ℕ → ℕ
depth_in [] = 0
depth_in (a ∷ []) = 0
depth_in (a ∷ b ∷ rest) = a * 256 + b

two_there :
    (content : List ℕ) (at : ℕ)
    → at + 2 ≤ length content
    → (a b : ℕ) × (take 2 (drop at content) ≡ a ∷ b ∷ [])
      × (depth_in (drop at content) ≡ a * 256 + b)
unfolding depth_in
two_there [] zero h = elim h [ ]
two_there [] (suc at) h = absurd (omega arith)
two_there (x ∷ []) zero h = absurd (omega arith)
two_there (x ∷ y ∷ xs) zero h = (x, y, refl, refl)
two_there (x ∷ xs) (suc at) h = two_there xs at (omega arith)

pub read_depth-ok :
    (content : List ℕ) (at : ℕ)
    → at + 2 ≤ length content
    → read_depth content at ≡ ok (depth_in (drop at content))
unfolding read_depth
read_depth-ok content at h = let (a, b, e, d) = two_there content at h in ground arith
