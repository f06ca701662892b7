-- ===== src/Cell/Dict/Trie/Inserts.antt =====
-- What a new fork makes of a lookup.
use mathlib.Core.Path.{subst}
use ton_net.Base.{
  ℕ, ◌-◌, ◌<◌, ◌≡◌, ◌≢◌, refl, sym, ◌∙◌, ap, Bool, true, false, not, Option, none, some, List, [],
  ◌∷◌, ◌++◌, length, length-append, arith, Bool-cases, ◌⊎◌, inl, inr,
}
use ton_net.Cell.Types.{Cell}
use ton_net.Cell.Dict.Key.{diverges}
use ton_net.Cell.Dict.Shape.{found, absent}
use ton_net.Cell.Dict.Walk.{is_some}
use ton_net.Cell.Dict.Trie.{Trie, tip, branching, Fits, find, part, under, insert}
use ton_net.Cell.Dict.Trie.Apart.{
  diverges-Apart, diverges-along, diverges-equal, diverges_front, take_front, drop_front, bit_front,
}
use ton_net.Cell.Dict.Trie.Laws.{
  find-branching, find-branching_apart, find-tip_apart, find-tip_along, Behind, tip-Behind,
}

-- The new tree has the value under the key, and under each other key of that width what the old
-- one had.
pub record Puts (n : ℕ) (old new : Trie) (key bits : List Bool) (cells : List Cell) : Type 0 where
  pub here : find new key ≡ found (bits, cells)
  pub others :
      (other : List Bool) → length other ≡ n → other ≢ key → find new other ≡ find old other
  pub fits : Fits n new

same_or_not : (x y : Bool) → (y ≡ x) ⊎ (y ≡ not x)
same_or_not true true = inl refl
same_or_not false false = inl refl
same_or_not true false = inr refl
same_or_not false true = inr refl

-- The fork on a front, with the fresh leaf at the side that the old node leaves free.
abbrev pub fork_on : List Bool → Bool → Trie → Trie → Trie
fork_on front true kept fresh = branching front fresh kept
fork_on front false kept fresh = branching front kept fresh

part_is :
    (front : List Bool) (x : Bool) (s : List Bool) (kept fresh : Trie)
    → part (front ++ (x ∷ s)) (length front) kept fresh ≡ fork_on front x kept fresh
unfolding part
part_is front true s kept fresh = rw (bit_front front true s, take_front front (true ∷ s))
part_is front false s kept fresh = rw (bit_front front false s, take_front front (false ∷ s))

find-fork_kept :
    (front : List Bool) (x : Bool) (kept fresh : Trie) (q : List Bool)
    → find (fork_on front x kept fresh) (front ++ (x ∷ q)) ≡ find kept q
find-fork_kept front true kept fresh q = find-branching front fresh kept true q
find-fork_kept front false kept fresh q = find-branching front kept fresh false q

pub find-fork_fresh :
    (front : List Bool) (x : Bool) (kept fresh : Trie) (q : List Bool)
    → find (fork_on front x kept fresh) (front ++ (not x ∷ q)) ≡ find fresh q
find-fork_fresh front true kept fresh q = find-branching front fresh kept false q
find-fork_fresh front false kept fresh q = find-branching front kept fresh true q

find-fork_apart :
    (front : List Bool) (x : Bool) (kept fresh : Trie) (key : List Bool)
    → is_some (diverges front key) ≡ true
    → find (fork_on front x kept fresh) key ≡ absent
find-fork_apart front true kept fresh key h = find-branching_apart front fresh kept key h
find-fork_apart front false kept fresh key h = find-branching_apart front kept fresh key h

-- A leaf answers for its own key alone.
pub find-tip_self :
    (label bits : List Bool) (cells : List Cell)
    → find (tip label bits cells) label ≡ found (bits, cells)
find-tip_self label bits cells = find-tip_along label bits cells label (
    subst (λ l. is_some (diverges label l) ≡ false) (mathlib.Core.List.append-nil label)
      (diverges_front label []))

pub find-tip_other :
    (label bits : List Bool) (cells : List Cell) (other : List Bool)
    → length label ≡ length other
    → other ≢ label
    → find (tip label bits cells) other ≡ absent
find-tip_other label bits cells other len differs =
    elim (Bool-cases (is_some (diverges label other))) [
      | inl apart ↦ find-tip_apart label bits cells other apart
      | inr along ↦ absurd (differs (sym (diverges-equal label other along len)))
    ]

module _ (front : List Bool) (x : Bool) (s : List Bool) (kept old : Trie)
    (behind : Behind front x kept old) (fresh : Trie)
    (alone : (q : List Bool) → length s ≡ length q → q ≢ s → find fresh q ≡ absent) where
  abbrev fork_of : Trie
  fork_of = fork_on front x kept fresh

  other_side :
      (q : List Bool)
      → length s ≡ length q
      → front ++ (not x ∷ q) ≢ front ++ (not x ∷ s)
      → find fork_of (front ++ (not x ∷ q)) ≡ find old (front ++ (not x ∷ q))
  other_side q len differs =
      let q_differs : q ≢ s = λ e. differs (ap (λ t. front ++ (not x ∷ t)) e) in
      find-fork_fresh front x kept fresh q ∙ alone q len q_differs ∙ sym (behind.beside q)

  parted_at :
      (y : Bool) (q : List Bool)
      → (y ≡ x) ⊎ (y ≡ not x)
      → length s ≡ length q
      → front ++ (y ∷ q) ≢ front ++ (not x ∷ s)
      → find fork_of (front ++ (y ∷ q)) ≡ find old (front ++ (y ∷ q))
  parted_at y q (inl e) len differs =
      rw (e) (find-fork_kept front x kept fresh q ∙ sym (behind.below q))
  parted_at y q (inr e) len differs = rw (e) (other_side q len (rw (e) at differs))

  -- A fork on a front, whose other side has at most that key, answers as the node did.
  pub parted-others :
      (other : List Bool)
      → length other ≡ length (front ++ (not x ∷ s))
      → other ≢ front ++ (not x ∷ s)
      → find fork_of other ≡ find old other
  parted-others other len differs = elim (Bool-cases (is_some (diverges front other))) [
    | inl apart ↦
        find-fork_apart front x kept fresh other apart ∙ sym (behind.elsewhere other apart)
    | inr along ↦
        let total = length-append front (not x ∷ s) in
        let r = diverges-along front other along (omega (arith, len, total)) in
        let size : length (front ++ (r.0 ∷ r.1)) ≡ length (front ++ (not x ∷ s)) =
          rw (r.2) at len in
        let tails : length s ≡ length r.1 =
          omega (arith, size, total, length-append front (r.0 ∷ r.1)) in
        rw (r.2) (parted_at r.0 r.1 (same_or_not x r.0) tails (rw (r.2) at differs))
  ]

fork_on-Fits :
    (n : ℕ) (front : List Bool) (x : Bool) (kept fresh : Trie)
    → length front < n
    → Fits (n - length front - 1) kept
    → Fits (n - length front - 1) fresh
    → Fits n (fork_on front x kept fresh)
unfolding Fits
fork_on-Fits n front true kept fresh short k f = (short, f, k)
fork_on-Fits n front false kept fresh short k f = (short, k, f)

module _ (n : ℕ) (bits : List Bool) (cells : List Cell) where
  forked-Puts :
      (front : List Bool) (x : Bool) (s s' : List Bool) (kept old : Trie)
      → Behind front x kept old
      → length (front ++ (not x ∷ s')) ≡ n
      → Fits (n - length front - 1) kept
      → Puts n old (fork_on front x kept (tip s' bits cells)) (front ++ (not x ∷ s')) bits cells
  forked-Puts front x s s' kept old behind len k =
      let total = length-append front (not x ∷ s') in
      let fresh : length s' ≡ n - length front - 1 = omega (arith, len, total) in
      record {
        here = find-fork_fresh front x kept (tip s' bits cells) s' ∙ find-tip_self s' bits cells;
        others = λ other size differs.
            parted-others front x s' kept old behind (tip s' bits cells)
              (λ q. find-tip_other s' bits cells q) other (size ∙ sym len) differs;
        fits =
            fork_on-Fits n front x kept (tip s' bits cells) (omega (arith, len, total)) k
              (unfold Fits in fresh);
      }

  -- A fork where the key parts from the label of a node.
  pub parted-Puts :
      (node : List Bool → Trie) (front : List Bool) (x : Bool) (s s' label key : List Bool) (at : ℕ)
      → Behind front x (node s) (node (front ++ (x ∷ s)))
      → label ≡ front ++ (x ∷ s)
      → key ≡ front ++ (not x ∷ s')
      → at ≡ length front
      → length key ≡ n
      → Fits (n - length front - 1) (node s)
      → Puts n
          (node label)
          (part label at (node (under label at)) (tip (under key at) bits cells))
          key
          bits
          cells
  parted-Puts node front x s s' label key at behind l k a len fits =
      rw
        (
          l,
          k,
          a,
          drop_front front x s,
          drop_front front (not x) s',
          part_is front x s (node s) (tip s' bits cells),
        )
        (forked-Puts front x s s' (node s) (node (front ++ (x ∷ s))) behind (rw (k) at len) fits)

  pub put_some :
      {old new new' : Trie} {key : List Bool}
      → ◌≡◌ {A = Option Trie} (some new) (some new')
      → Puts n old new key bits cells
      → Puts n old new' key bits cells
  put_some {old} {new} {new'} {key} h p =
      let e : new ≡ new' = cc h in subst (λ t. Puts n old t key bits cells) e p

  pub tip-Puts :
      (label key held : List Bool) (refs : List Cell) (new : Trie) (d : Option ℕ)
      → diverges label key ≡ d
      → length label ≡ n
      → length key ≡ n
      → insert (tip label held refs) key bits cells ≡ some new
      → Puts n (tip label held refs) new key bits cells
  unfolding insert is_some
  tip-Puts label key held refs new none e len size h =
      let same : label ≡ key = diverges-equal label key (rw (e) refl) (len ∙ sym size) in
      put_some (rw (insert, e) at h) (record {
        here = find-tip_self key bits cells;
        others = λ other wide differs.
            find-tip_other key bits cells other (size ∙ sym wide) differs
            ∙ sym (find-tip_other label held refs other (len ∙ sym wide) (rw (same) differs));
        fits = unfold Fits in size;
      })
  tip-Puts label key held refs new (some at) e len size h =
      let a = diverges-Apart label key at e in
      let total = length-append a.front (a.bit ∷ a.of_label) in
      let long : length (a.front ++ (a.bit ∷ a.of_label)) ≡ n = sym (ap length a.label_is) ∙ len in
      let shorter : length a.of_label ≡ n - length a.front - 1 = omega (arith, total, long) in
      put_some (rw (insert, e) at h) (
        parted-Puts (λ l. tip l held refs) a.front a.bit a.of_label a.of_key label key at
          (tip-Behind a.front a.bit a.of_label held refs) a.label_is a.key_is a.at_is size
          (unfold Fits in shorter))
