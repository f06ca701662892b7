-- ===== src/Base/Compare.antt =====
-- Comparing byte strings and booleans.
use Prim.Native.Nat.{ℕ, compare, Ordering}
use mathlib.Core.Path.{◌≡◌, refl}
use mathlib.Core.Bool.{Bool, true, false, ◌&&◌}
use mathlib.Core.List.{List, [], ◌∷◌}
use native.Mathlib.Omega.{arith}
use ton_net.Base.Tests.{◌==◌}

-- The order of byte strings, as `Ord` derives it.
unfoldable pub cmp_bytes : List ℕ → List ℕ → Ordering
cmp_bytes [] [] = Ordering.eq
cmp_bytes [] (y ∷ ys) = Ordering.lt
cmp_bytes (x ∷ xs) [] = Ordering.gt
cmp_bytes (x ∷ xs) (y ∷ ys) =
    let rest = cmp_bytes xs ys in
    elim (compare x y) [
      | Ordering.lt ↦ Ordering.lt
      | Ordering.eq ↦ rest
      | Ordering.gt ↦ Ordering.gt
    ]

unfoldable pub eq_bytes : List ℕ → List ℕ → Bool
eq_bytes [] [] = true
eq_bytes [] (y ∷ ys) = false
eq_bytes (x ∷ xs) [] = false
eq_bytes (x ∷ xs) (y ∷ ys) = x == y && eq_bytes xs ys

pub eq_bytes→eq : (xs ys : List ℕ) → eq_bytes xs ys ≡ true → xs ≡ ys
unfolding eq_bytes
eq_bytes→eq [] [] h = refl
eq_bytes→eq [] (y ∷ ys) h = cc
eq_bytes→eq (x ∷ xs) [] h = cc
eq_bytes→eq (x ∷ xs) (y ∷ ys) h = ground (arith, eq_bytes→eq xs ys)

pub eq_bytes_refl : (xs : List ℕ) → eq_bytes xs xs ≡ true
unfolding eq_bytes
eq_bytes_refl [] = refl
eq_bytes_refl (x ∷ xs) = ground (arith, eq_bytes_refl xs)

pub cmp_bytes→eq : (xs ys : List ℕ) → cmp_bytes xs ys ≡ Ordering.eq → xs ≡ ys
unfolding cmp_bytes
cmp_bytes→eq [] [] h = refl
cmp_bytes→eq [] (y ∷ ys) h = cc
cmp_bytes→eq (x ∷ xs) [] h = cc
cmp_bytes→eq (x ∷ xs) (y ∷ ys) h = ground (arith, cmp_bytes→eq xs ys)

pub cmp_bytes_refl : (xs : List ℕ) → cmp_bytes xs xs ≡ Ordering.eq
unfolding cmp_bytes
cmp_bytes_refl [] = refl
cmp_bytes_refl (x ∷ xs) = ground (arith, cmp_bytes_refl xs)

-- `xs` comes before `ys`.
abbrev pub Less : List ℕ → List ℕ → Type 0
Less xs ys = cmp_bytes xs ys ≡ Ordering.lt

pub cmp_bytes-gt : (xs ys : List ℕ) → cmp_bytes xs ys ≡ Ordering.gt → Less ys xs
unfolding cmp_bytes
cmp_bytes-gt [] [] h = cc
cmp_bytes-gt [] (y ∷ ys) h = cc
cmp_bytes-gt (x ∷ xs) [] h = refl
cmp_bytes-gt (x ∷ xs) (y ∷ ys) h = ground (arith, cmp_bytes-gt xs ys)

pub Less-trans : (xs ys zs : List ℕ) → Less xs ys → Less ys zs → Less xs zs
unfolding cmp_bytes
Less-trans [] [] zs h k = cc
Less-trans [] (y ∷ ys) [] h k = cc
Less-trans [] (y ∷ ys) (z ∷ zs) h k = refl
Less-trans (x ∷ xs) [] zs h k = cc
Less-trans (x ∷ xs) (y ∷ ys) [] h k = cc
Less-trans (x ∷ xs) (y ∷ ys) (z ∷ zs) h k = ground (arith, Less-trans xs ys zs)

pub not-Less_self : (xs : List ℕ) → ¬ Less xs xs
not-Less_self xs h = cc (h, cmp_bytes_refl xs)
