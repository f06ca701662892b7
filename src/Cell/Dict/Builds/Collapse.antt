-- ===== src/Cell/Dict/Builds/Collapse.antt =====
-- The merge of a fork with its surviving branch.
use mathlib.Core.List.{append-nil, append_assoc}
use ton_net.Base.{
  ℕ, ◌+◌, ◌-◌, ◌≤◌, ◌<◌, ◌≡◌, sym, ◌∙◌, ap, Bool, true, not, List, [], ◌∷◌, ◌++◌, length,
  length-append, arith,
}
use ton_net.Base.Result.{ok, err}
use ton_net.Cell.Error.{pruned}
use ton_net.Cell.Identity.{Hash}
use ton_net.Cell.Kind.{is_exotic}
use ton_net.Cell.Types.{Cell, cell_type}
use ton_net.Cell.Assemble.{store_slice}
use ton_net.Cell.Assemble.Copies.{store_slice-Grows}
use ton_net.Cell.Dict.Key.{extend}
use ton_net.Cell.Dict.Label.Kept.{push-room, one_longer}
use ton_net.Cell.Dict.Shape.{branch_of, Step, below}
use ton_net.Cell.Dict.Walk.{read_of, collapse}
use ton_net.Cell.Dict.Node.{Node, Node-NodeRead, Node-ordinary}
use ton_net.Cell.Dict.Builds.{assembled-Node}

pub extend-room :
    (label run : List Bool)
    → length label + length run ≤ 1023
    → extend label run ≡ ok (label ++ run)
unfolding extend
extend-room label [] h = ap ok (sym (append-nil label))
extend-room label (bit ∷ run) h =
    rw (extend, push-room bit label (omega arith))
      (extend-room (label ++ (bit ∷ [])) run (omega (arith, one_longer bit label))
        ∙ ap ok (append_assoc label (bit ∷ []) run))

module _ (sha256 : List ℕ → Hash) (node sibling : Cell) (n : ℕ) (label : List Bool)
    (side : Bool) where
  abbrev parent : Step
  parent = record { node = node; label = label; remaining = n; branch = side }

  -- Nothing can be read from a pruned branch.
  pub collapse-pruned :
      branch_of node (not side) ≡ ok sibling
      → is_exotic (cell_type sibling) ≡ true
      → collapse sha256 parent ≡ err pruned
  unfolding collapse
  collapse-pruned there exotic = rw (there, exotic)

  -- The surviving branch keeps what stands behind its label.
  pub collapse-Node :
      (c : Cell) (own bits : List Bool) (cells : List Cell)
      → branch_of node (not side) ≡ ok sibling
      → Node sibling (n - length label - 1) own bits cells
      → length label < n
      → n ≤ 1023
      → collapse sha256 parent ≡ ok c
      → Node c n (label ++ (not side ∷ own)) bits cells
  unfolding collapse below read_of
  collapse-Node c own bits cells there is short narrow h =
      let r = Node-NodeRead sibling (n - length label - 1) own bits cells is in
      let fits = is.fits in
      let room = push-room (not side) label (omega arith) in
      let longer = one_longer (not side) label in
      let whole : extend (label ++ (not side ∷ [])) own ≡ ok (label ++ (not side ∷ own)) =
        extend-room (label ++ (not side ∷ [])) own (omega (arith, longer))
        ∙ ap ok (append_assoc label (not side ∷ []) own) in
      assembled-Node sha256 (label ++ (not side ∷ own)) bits cells n (store_slice r.behind) c
        (omega (arith, length-append label (not side ∷ own))) narrow
        (λ b w. store_slice-Grows bits cells r.behind b r.views w)
        (rw (there, Node-ordinary is, room, r.read, whole) at h)
