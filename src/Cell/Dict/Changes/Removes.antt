-- ===== src/Cell/Dict/Changes/Removes.antt =====
-- `remove` over the cells of a dictionary is a deletion in its tree.
use ton_net.Base.{
  ℕ, ◌-◌, ◌<◌, ◌≡◌, ◌⊎◌, inr, Bool, true, false, not, Option, none, some, List, [], ◌∷◌, ◌++◌,
  length, length-append, if◌then◌else◌, arith,
}
use ton_net.Base.Result.{Result, ok, err, ◌>>=◌, >>=-eq-ok}
use ton_net.Cell.Error.{CellError, pruned}
use ton_net.Cell.Identity.{Hash}
use ton_net.Cell.Types.{Cell}
use ton_net.Cell.Dict.Shape.{plain, branch_of, Step, rebuild_step}
use ton_net.Cell.Dict.Walk.{is_some, Walk, collapse, rebuild}
use ton_net.Cell.Dict.Plain.{remove_leaf}
use ton_net.Cell.Dict.Trie.{Trie, hidden, tip, branching}
use ton_net.Cell.Dict.Trie.Delete.{
  Removal, refused, missing, emptied, left_over, merge, over_right, over_left,
}
use ton_net.Cell.Dict.Node.{Node, Is}
use ton_net.Cell.Dict.Lookups.{Node-branch_of}
use ton_net.Cell.Dict.Builds.{rebuild_step-Is}
use ton_net.Cell.Dict.Builds.Collapse.{collapse-pruned, collapse-Node}

module _ (sha256 : List ℕ → Hash) where
  -- What `remove` does once its walk is over, when the key was there.
  abbrev Leaves : Walk → Result CellError (Option Cell) → Type 0
  Leaves walk end = (walk.diverged ≡ none) × (remove_leaf sha256 walk.path ≡ end)

  -- The walk's end, and what is left under the path, for each outcome.
  unfoldable pub Removes : Removal → Result CellError Walk → List Step → ℕ → Type 0
  Removes refused out path n =
      (out ≡ err pruned) ⊎ ((walk : Walk) × (out ≡ ok walk) × Leaves walk (err pruned))
  Removes missing out path n = (walk : Walk) × (out ≡ ok walk) × (is_some walk.diverged ≡ true)
  Removes emptied out path n =
      (walk : Walk) × (out ≡ ok walk) × (walk.diverged ≡ none) × (walk.path ≡ path)
  Removes (left_over new) out path n =
      (walk : Walk) × (out ≡ ok walk)
      × (walk.diverged ≡ none)
      × ((left : Option Cell)
          → remove_leaf sha256 walk.path ≡ ok left
          → (c : Cell) × Is c n new
            × ((rebuild sha256 plain path c >>= λ root. ok (some root)) ≡ ok left))

  -- Above a fork.
  module _ (c : Cell) (n : ℕ) (label : List Bool) (x y : Cell) (path : List Step)
      (out : Result CellError Walk) (is : Node c n label [] (x ∷ y ∷ []))
      (short : length label < n) where
    abbrev m : ℕ
    m = n - length label - 1

    abbrev step : Bool → Step
    step side = record { node = c; label = label; remaining = n; branch = side }

    -- The other branch takes the place of the fork.
    joined :
        (side : Bool) (walk : Walk) (new : Trie)
        → out ≡ ok walk
        → walk.diverged ≡ none
        → walk.path ≡ step side ∷ path
        → ((d : Cell) → collapse sha256 (step side) ≡ ok d → Is d n new)
        → Removes (left_over new) out path n
    unfolding Removes remove_leaf
    joined side walk new o d p built = (
      walk,
      o,
      d,
      λ left h.
          let r =
            >>=-eq-ok (collapse sha256 (step side))
              (λ merged. rebuild sha256 plain path merged >>= λ root. ok (some root))
              (rw (p) at h) in
          (r.0, built (r.0) (r.1), r.2),
    )

    merged :
        (side : Bool) (z : Cell) (kept : Trie) (walk : Walk)
        → branch_of c (not side) ≡ ok z
        → Is z m kept
        → out ≡ ok walk
        → walk.diverged ≡ none
        → walk.path ≡ step side ∷ path
        → Removes (merge label (not side) kept) out path n
    unfolding merge Is
    merged side z hidden walk there k o d p =
        unfold Removes remove_leaf in
        (inr (walk, o, (d, rw (p, collapse-pruned sha256 c z n label side there k))))
    merged side z (tip own bits cells) walk there (node, len) o d p =
        joined side walk (tip (label ++ (not side ∷ own)) bits cells) o d p (λ e h. (
          collapse-Node sha256 c z n label side e own bits cells there node short is.narrow h,
          omega (arith, len, length-append label (not side ∷ own)),
        ))
    merged side z (branching own left right) walk there (v, w, node, inside, l, r) o d p =
        let total = length-append label (not side ∷ own) in
        let e : n - length label - 1 - length own - 1 ≡ n - length (label ++ (not side ∷ own)) - 1 =
          omega (arith, total) in
        joined side walk (branching (label ++ (not side ∷ own)) left right) o d p (λ f h. (
          v,
          w,
          collapse-Node sha256 c z n label side f own [] (v ∷ w ∷ []) there node short is.narrow h,
          omega (arith, inside, total),
          rw (e) at l,
          rw (e) at r,
        ))

    raised :
        (side : Bool) (left right new : Trie)
        → Is x m left
        → Is y m right
        → Removes (left_over new) out (step side ∷ path) m
        → Removes
            (left_over (if side then branching label left new else branching label new right))
            out
            path
            n
    unfolding Removes rebuild
    raised side left right new l r (walk, o, d, f) = (
      walk,
      o,
      d,
      λ left_root h.
          let below = f left_root h in
          let top =
            >>=-eq-ok (rebuild sha256 plain (step side ∷ path) (below.0)) (λ root. ok (some root))
              (below.2) in
          let up =
            >>=-eq-ok (rebuild_step sha256 plain (step side) (below.0)) (rebuild sha256 plain path)
              (top.1) in
          (
            up.0,
            rebuild_step-Is sha256 c (up.0) x y (below.0) n label left right new side is short l r
                (below.1) (up.1),
            rw (up.2) (top.2),
          ),
    )

    -- The outcome below a fork, seen from above it.
    pub lifted :
        (side : Bool) (left right : Trie) (r : Removal)
        → Is x m left
        → Is y m right
        → Removes r out (step side ∷ path) m
        → Removes (if side then over_right label left r else over_left label right r) out path n
    unfolding Removes over_right over_left
    lifted true left right refused l r h = h
    lifted false left right refused l r h = h
    lifted true left right missing l r h = h
    lifted false left right missing l r h = h
    lifted true left right emptied l r (walk, o, d, p) =
        merged true x left walk (Node-branch_of is false) l o d p
    lifted false left right emptied l r (walk, o, d, p) =
        merged false y right walk (Node-branch_of is true) r o d p
    lifted true left right (left_over new) l r h = raised true left right new l r h
    lifted false left right (left_over new) l r h = raised false left right new l r h
