-- ===== src/Cell/Dict/Changes/Past.antt =====
-- A walk past a fork.
use ton_net.Base.{
  ℕ, ◌+◌, ◌-◌, ◌<◌, ◌≡◌, ◌∙◌, ap, Bool, false, none, List, [], ◌∷◌, ◌==◌, length, drop,
  if◌then◌else◌, arith,
}
use ton_net.Base.Result.{Result}
use ton_net.Cell.Error.{CellError}
use ton_net.Cell.Types.{Cell}
use ton_net.Cell.Slice.{Slice}
use ton_net.Cell.Assemble.Copies.{Views}
use ton_net.Cell.Dict.Key.{diverges}
use ton_net.Cell.Dict.Shape.{plain, Step}
use ton_net.Cell.Dict.Walk.{read_of, is_some, branch_bit, Walk, descend_at}
use ton_net.Cell.Dict.Node.{Node}
use ton_net.Cell.Dict.Lookups.{Node-branch_of}
use ton_net.Cell.Dict.Changes.{plain_check-there}

module _ (bits : List Bool) (c : Cell) (n consumed : ℕ) (label : List Bool) (x y : Cell)
    (path : List Step) (is : Node c n label [] (x ∷ y ∷ [])) (short : length label < n) where
  abbrev pub side : Bool
  side = branch_bit bits (consumed + length label)

  abbrev pub step : Step
  step = record { node = c; label = label; remaining = n; branch = side }

  pub descend_at-past :
      (next : List Step → Cell → ℕ → ℕ → Result CellError Walk) (behind : Slice)
      → Views behind [] (x ∷ y ∷ [])
      → diverges label (drop consumed bits) ≡ none
      → descend_at plain next path c n consumed bits (label, behind)
        ≡ next
            (step ∷ path)
            (if side then y else x)
            (n - (length label + 1))
            (consumed + (length label + 1))
  unfolding descend_at is_some read_of
  descend_at-past next behind v e =
      let more : (length label == n) ≡ false = ground arith in
      rw (e, more, plain_check-there behind (x ∷ y ∷ []) v, Node-branch_of is side)

  abbrev pub m : ℕ
  m = n - length label - 1

  abbrev pub at : ℕ
  at = consumed + length label + 1

  pub past-then :
      (next : List Step → Cell → ℕ → ℕ → Result CellError Walk) (z : Cell)
      → (if side then y else x) ≡ z
      → next
          (step ∷ path)
          (if side then y else x)
          (n - (length label + 1))
          (consumed + (length label + 1))
        ≡ next (step ∷ path) z m at
  past-then next z e =
      let e1 : n - (length label + 1) ≡ m = omega arith in
      let e2 : consumed + (length label + 1) ≡ at = omega arith in
      ap (λ w. next (step ∷ path) w (n - (length label + 1)) (consumed + (length label + 1))) e
      ∙ ap (λ k. next (step ∷ path) z k (consumed + (length label + 1))) e1
      ∙ ap (next (step ∷ path) z m) e2
