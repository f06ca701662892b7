-- ===== src/Cell/Level/Bounds.antt =====
-- What `leading_zeros` says of a word: the bits that are left hold it, and no fewer do.
use ton_net.Base.{ℕ, zero, suc, ◌-◌, ◌*◌, ◌^◌, ◌≤◌, ◌<◌, ◌≡◌, arith, ltb, Bool-cases, inl, inr}
use native.Mathlib.Nat.{pow-suc}
use ton_net.Cell.Level.{leading_zeros}

pub leading_zeros-le : (width x : ℕ) → leading_zeros width x ≤ width
unfolding leading_zeros
leading_zeros-le zero x = omega arith
leading_zeros-le (suc width) x = ground (arith, leading_zeros-le width x)

pub leading_zeros-fits : (width x : ℕ) → x < 2 ^ width → x < 2 ^ (width - leading_zeros width x)
unfolding leading_zeros
leading_zeros-fits zero x h = h
leading_zeros-fits (suc width) x h = elim (Bool-cases (ltb x (2 ^ width))) [
  | inl small ↦
      let e : suc width - suc (leading_zeros width x) ≡ width - leading_zeros width x =
        omega arith in
      rw (small, e) (leading_zeros-fits width x (ground arith))
  | inr big ↦ let e : suc width - 0 ≡ suc width = omega arith in rw (big, e) h
]

pub leading_zeros-tight :
    (width x : ℕ) → 0 < x → x < 2 ^ width → 2 ^ (width - leading_zeros width x) ≤ 2 * x
unfolding leading_zeros
leading_zeros-tight zero x pos h = omega (arith, h)
leading_zeros-tight (suc width) x pos h = elim (Bool-cases (ltb x (2 ^ width))) [
  | inl small ↦
      let e : suc width - suc (leading_zeros width x) ≡ width - leading_zeros width x =
        omega arith in
      rw (small, e) (leading_zeros-tight width x pos (ground arith))
  | inr big ↦
      let e : suc width - 0 ≡ suc width = omega arith in
      rw (big, e) (ground (arith, pow-suc 2 width))
]
