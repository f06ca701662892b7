-- ===== src/Cell/Dict/Builds.antt =====
-- The nodes that a change of a plain dictionary builds: the leaf, the fork, the old node under a
-- shorter label, the split and the fork of a path.
pub mod Collapse
use ton_net.Base.{
  ℕ, ◌+◌, ◌-◌, ◌≤◌, ◌<◌, ◌≡◌, Bool, true, false, List, [], ◌∷◌, ◌++◌, length, take, drop,
  length-take, length-drop, if◌then◌else◌, arith,
}
use ton_net.Base.Result.{ok, >>=-eq-ok}
use ton_net.Base.Exec.{◌>>◌}
use ton_net.Cell.Identity.{Hash}
use ton_net.Cell.Types.{Cell, as_slice}
use ton_net.Cell.Builder.{Builder, Store, empty}
use ton_net.Cell.Builder.Invariant.{IsWf, contents, empty-IsWf}
use ton_net.Cell.Assemble.{store_builder, store_ref}
use ton_net.Cell.Assemble.Grown.{Grows, Grows-bind, store_ref-Grows, store_builder-Grows}
use ton_net.Cell.Assemble.Copies.{store_slice-Grows}
use ton_net.Cell.Assemble.Held.{built_by-Holds}
use ton_net.Cell.Dict.Key.{head, rest}
use ton_net.Cell.Dict.Shape.{
  plain, below, assemble, leaf, write_fork_extra, fork_over, rebuild_step,
}
use ton_net.Cell.Dict.Label.{bounded_width, bool_run, choose, store_label}
use ton_net.Cell.Dict.Label.Forms.{encoding}
use ton_net.Cell.Dict.Label.Written.{store_label-Grows, chosen-Allowed}
use ton_net.Cell.Dict.Label.RoundTrip.{bounded_width-fits}
use ton_net.Cell.Dict.Walk.{read_of, branch_bit, store_rest, relabelled, split}
use ton_net.Cell.Dict.Trie.{Trie, tip, branching, part, under}
use ton_net.Cell.Dict.Node.{Node, Node-NodeRead, Is}
use ton_net.Cell.Dict.Lookups.{Node-branch_of}

store_rest-Grows :
    (node : Cell) (remaining : ℕ) (old bits : List Bool) (cells : List Cell)
    → Node node remaining old bits cells
    → (b : Builder) → IsWf b
    → Grows tt b bits cells (store_rest node remaining b)
unfolding store_rest read_of
store_rest-Grows node remaining old bits cells is b w =
    let r = Node-NodeRead node remaining old bits cells is in
    rw (r.skipped) (store_slice-Grows bits cells r.behind b r.views w)

module _ (sha256 : List ℕ → Hash) where
  -- A label and what is stored behind it.
  pub assembled-Node :
      (label bits : List Bool) (cells : List Cell) (max : ℕ) (rest : Store (Unit {0})) (c : Cell)
      → length label ≤ max
      → max ≤ 1023
      → ((b : Builder) → IsWf b → Grows tt b bits cells (rest b))
      → assemble sha256 (store_label (bool_run label) max >> rest) ≡ ok c
      → Node c max label bits cells
  unfolding assemble bool_run
  assembled-Node label bits cells max rest c fits narrow behind h =
      let run = bool_run label in
      let width = bounded_width max in
      let (top, thin) = bounded_width-fits max (omega arith) in
      record {
        form = choose run run.len width;
        allowed = chosen-Allowed run width (omega arith) thin;
        fits = fits;
        narrow = narrow;
        holds =
            built_by-Holds sha256 (encoding run width (choose run run.len width) ++ bits) cells _ c
              (Grows-bind tt tt (store_label run max empty) (λ _. rest)
                (store_label-Grows run max empty empty-IsWf narrow fits) (λ b' g. behind b' g.wf))
              h;
      }

  pub leaf-Node :
      (key : List Bool) (value : Builder) (max : ℕ) (c : Cell)
      → length key ≤ max
      → max ≤ 1023
      → leaf sha256 plain key tt value max ≡ ok c
      → Node c max key (contents value) (as_slice value.refs)
  unfolding leaf
  leaf-Node key value max c fits narrow h =
      assembled-Node key (contents value) (as_slice value.refs) max (store_builder value) c fits
        narrow (store_builder-Grows value) h

  pub fork-Node :
      (label : List Bool) (max below : ℕ) (left right c : Cell)
      → length label ≤ max
      → max ≤ 1023
      → fork_over sha256 plain label max below left right ≡ ok c
      → Node c max label [] (left ∷ right ∷ [])
  unfolding fork_over write_fork_extra
  fork-Node label max below left right c fits narrow h =
      assembled-Node label [] (left ∷ right ∷ []) max (store_ref left >> store_ref right) c fits
        narrow
        (λ b w.
          Grows-bind tt tt (store_ref left b) (λ _. store_ref right) (store_ref-Grows left b w)
            (λ b' g. store_ref-Grows right b' g.wf))
        h

  -- The old node keeps what stands behind its label.
  pub relabelled-Node :
      (node c : Cell) (old label bits : List Bool) (cells : List Cell) (max remaining : ℕ)
      → Node node remaining old bits cells
      → length label ≤ max
      → max ≤ 1023
      → relabelled sha256 node label max remaining ≡ ok c
      → Node c max label bits cells
  unfolding relabelled
  relabelled-Node node c old label bits cells max remaining is fits narrow h =
      assembled-Node label bits cells max (store_rest node remaining) c fits narrow
        (store_rest-Grows node remaining old bits cells is) h

  sides-Is :
      (side : Bool) (label : List Bool) (at n : ℕ) (kept fresh : Trie) (x y c : Cell)
      → at < length label
      → length label ≤ n
      → n ≤ 1023
      → Is x (n - at - 1) kept
      → Is y (n - at - 1) fresh
      → (if side
          then fork_over sha256 plain (head label at) n (n - at - 1) y x
          else fork_over sha256 plain (head label at) n (n - at - 1) x y)
        ≡ ok c
      → Is c n (
          if side
          then branching (take at label) fresh kept
          else branching (take at label) kept fresh)
  unfolding Is
  sides-Is true label at n kept fresh x y c inside fits narrow k f h =
      let len : length (take at label) ≡ at = omega (arith, length-take at label) in
      (
        y,
        x,
        fork-Node (take at label) n (n - at - 1) y x c (omega (arith, len)) narrow h,
        omega (arith, len),
        rw (len) f,
        rw (len) k,
      )
  sides-Is false label at n kept fresh x y c inside fits narrow k f h =
      let len : length (take at label) ≡ at = omega (arith, length-take at label) in
      (
        x,
        y,
        fork-Node (take at label) n (n - at - 1) x y c (omega (arith, len)) narrow h,
        omega (arith, len),
        rw (len) k,
        rw (len) f,
      )

  -- The split of a node, whatever it is without its label.
  pub split-Is :
      (node c : Cell) (label key bits : List Bool) (cells : List Cell) (at n : ℕ) (value : Builder)
      (kept : Trie)
      → Node node n label bits cells
      → ((x : Cell) → Node x (n - at - 1) (drop (at + 1) label) bits cells → Is x (n - at - 1) kept)
      → at < length label
      → length key ≡ n
      → split sha256 plain node label at n key tt value ≡ ok c
      → Is c n (part label at kept (tip (under key at) (contents value) (as_slice value.refs)))
  unfolding split part
  split-Is node c label key bits cells at n value kept is as_kept inside size h =
      let fits = is.fits in
      let narrow = is.narrow in
      let m = n - at - 1 in
      let short : length (drop (at + 1) label) ≤ m = omega (arith, length-drop (at + 1) label) in
      let wide : length (drop (at + 1) key) ≡ m = omega (arith, length-drop (at + 1) key) in
      let r1 = >>=-eq-ok (relabelled sha256 node (drop (at + 1) label) m n) _ h in
      let r2 = >>=-eq-ok (leaf sha256 plain (drop (at + 1) key) tt value m) _ (r1.2) in
      let old = as_kept (r1.0) (
        relabelled-Node node (r1.0) label (drop (at + 1) label) bits cells m n is short
          (omega arith) (r1.1)) in
      let new : Is (r2.0) m (tip (drop (at + 1) key) (contents value) (as_slice value.refs)) =
        unfold Is in
        (
          leaf-Node (drop (at + 1) key) value m (r2.0) (omega (arith, wide)) (omega arith) (r2.1),
          wide,
        ) in
      sides-Is (branch_bit label at) label at n kept
        (tip (drop (at + 1) key) (contents value) (as_slice value.refs)) (r1.0) (r2.0) c inside fits
        narrow old new (r2.2)

  -- A fork on the path, over a child that was changed.
  pub rebuild_step-Is :
      (node c x y child : Cell) (n : ℕ) (label : List Bool) (left right new : Trie) (side : Bool)
      → Node node n label [] (x ∷ y ∷ [])
      → length label < n
      → Is x (n - length label - 1) left
      → Is y (n - length label - 1) right
      → Is child (n - length label - 1) new
      → rebuild_step sha256 plain
          (record { node = node; label = label; remaining = n; branch = side })
          child
        ≡ ok c
      → Is c n (if side then branching label left new else branching label new right)
  unfolding rebuild_step below Is
  rebuild_step-Is node c x y child n label left right new true is short l r k h = (
    x,
    child,
    fork-Node label n (n - length label - 1) x child c is.fits is.narrow
        (rw (Node-branch_of is false) at h),
    short,
    l,
    k,
  )
  rebuild_step-Is node c x y child n label left right new false is short l r k h = (
    child,
    y,
    fork-Node label n (n - length label - 1) child y c is.fits is.narrow
        (rw (Node-branch_of is true) at h),
    short,
    k,
    r,
  )
