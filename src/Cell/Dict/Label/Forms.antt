-- ===== src/Cell/Dict/Label/Forms.antt =====
-- The three encodings of a label as runs of bits, and which one `store_label` writes.
use ton_net.Base.{
  ℕ, zero, suc, ◌+◌, ◌-◌, ◌*◌, ◌^◌, ◌≤◌, ◌<◌, ◌≡◌, refl, ap, ◌⊎◌, ◌↔◌, Bool, true, false, List, [],
  ◌∷◌, ◌++◌, length, replicate, length-append, length-replicate, arith,
}
use ton_net.Base.Words.{bits_of_word, length-bits_of_word}
use ton_net.Cell.Dict.Label.{BitRun, Form, short, long, same, choose, pick, all_same, eq_bool}

-- The bits that a run holds.
unfoldable pub run_bits : BitRun → ℕ → ℕ → List Bool
run_bits run index zero = []
run_bits run index (suc n) = run.bit index ∷ run_bits run (index + 1) n

abbrev pub bits_of : BitRun → List Bool
bits_of run = run_bits run 0 run.len

pub length-run_bits : (run : BitRun) (index n : ℕ) → length (run_bits run index n) ≡ n
unfolding run_bits
length-run_bits run index zero = refl
length-run_bits run index (suc n) = ap suc (length-run_bits run (index + 1) n)

-- A label in one of its forms, under a length field of that width.
unfoldable pub encoding : BitRun → ℕ → Form → List Bool
encoding run width short = (false ∷ []) ++ (replicate run.len true ++ ((false ∷ []) ++ bits_of run))
encoding run width long = bits_of_word 2 2 ++ (bits_of_word width run.len ++ bits_of run)
encoding run width same = bits_of_word 2 3 ++ ((run.bit 0 ∷ []) ++ bits_of_word width run.len)

-- The repeated form spells only a label whose bits are all the same.
abbrev pub Allowed : BitRun → Form → Type 0
Allowed run short = Unit {0}
Allowed run long = Unit {0}
Allowed run same = bits_of run ≡ replicate run.len (run.bit 0)

pub length-encoding :
    (run : BitRun) (width : ℕ)
    → (length (encoding run width short) ≡ 2 * run.len + 2)
      × (length (encoding run width long) ≡ 2 + width + run.len)
      × (length (encoding run width same) ≡ 3 + width)
unfolding encoding
length-encoding run width = (
  omega (
    arith,
    length-append (replicate run.len true) ((false ∷ []) ++ bits_of run),
    length-replicate run.len true,
    length-run_bits run 0 run.len,
  ),
  omega (
    arith,
    length-append (bits_of_word 2 2) (bits_of_word width run.len ++ bits_of run),
    length-append (bits_of_word width run.len) (bits_of run),
    length-bits_of_word 2 2,
    length-bits_of_word width run.len,
    length-run_bits run 0 run.len,
  ),
  omega (
    arith,
    length-append (bits_of_word 2 3) ((run.bit 0 ∷ []) ++ bits_of_word width run.len),
    length-bits_of_word 2 3,
    length-bits_of_word width run.len,
  ),
)

eq_bool→eq : (a b : Bool) → eq_bool a b ≡ true → a ≡ b
eq_bool→eq a b h = ground arith

eq→eq_bool : (a b : Bool) → a ≡ b → eq_bool a b ≡ true
eq→eq_bool a b h = ground arith

all_same→replicate :
    (run : BitRun) (index n : ℕ)
    → all_same run index n ≡ true
    → run_bits run index n ≡ replicate n (run.bit 0)
unfolding all_same run_bits
all_same→replicate run index zero h = refl
all_same→replicate run index (suc n) h =
    let parts : (eq_bool (run.bit index) (run.bit 0) ≡ true) × (all_same run (index + 1) n ≡ true) =
      ground arith in
    cc
      (eq_bool→eq (run.bit index) (run.bit 0) parts.0, all_same→replicate run (index + 1) n parts.1)

replicate→all_same :
    (run : BitRun) (index n : ℕ)
    → run_bits run index n ≡ replicate n (run.bit 0)
    → all_same run index n ≡ true
unfolding all_same run_bits
replicate→all_same run index zero h = refl
replicate→all_same run index (suc n) h =
    let here : run.bit index ≡ run.bit 0 = cc in
    let rest : run_bits run (index + 1) n ≡ replicate n (run.bit 0) = cc in
    rw (eq→eq_bool (run.bit index) (run.bit 0) here) (replicate→all_same run (index + 1) n rest)

-- The test of `store_label` skips the first bit, which is the same as itself.
same_test :
    (run : BitRun) (n : ℕ)
    → (all_same run 1 (n - 1) ≡ true) ↔ (run_bits run 0 n ≡ replicate n (run.bit 0))
unfolding all_same run_bits
same_test run zero = (λ h. refl, λ h. refl)
same_test run (suc n) =
    let e : suc n - 1 ≡ n = omega arith in
    (
      λ h. ap (λ t. run.bit 0 ∷ t) (all_same→replicate run 1 n (rw e at h)),
      λ h.
          let rest : run_bits run (0 + 1) n ≡ replicate n (run.bit 0) = cc in
          rw e (replicate→all_same run 1 n rest),
    )

abbrev cost : ℕ → ℕ → Form → ℕ
cost len width short = 2 * len + 2
cost len width long = 2 + width + len
cost len width same = 3 + width

-- The order of the constructors.
abbrev pub rank : Form → ℕ
rank short = 0
rank long = 1
rank same = 2

abbrev Holds : Form → Bool → Type 0
Holds same all_one = all_one ≡ true
Holds _ all_one = Unit {0}

-- Shorter, or as short and no later.
abbrev pub Before : ℕ → ℕ → ℕ → ℕ → Type 0
Before m n r q = (m < n) ⊎ ((m ≡ n) × (r ≤ q))

pick-first :
    (all_one : Bool) (len width : ℕ) (form : Form)
    → len < 2 ^ 16
    → width ≤ 16
    → Holds form all_one
    → Holds (pick all_one len width) all_one
      × Before
          (cost len width (pick all_one len width))
          (cost len width form)
          (rank (pick all_one len width))
          (rank form)
unfolding pick
pick-first true len width short small narrow h = ground arith
pick-first true len width long small narrow h = ground arith
pick-first true len width same small narrow h = ground arith
pick-first false len width short small narrow h = ground arith
pick-first false len width long small narrow h = ground arith
pick-first false len width same small narrow h = absurd (cc)

length-encoding-eq :
    (run : BitRun) (width : ℕ) (form : Form)
    → length (encoding run width form) ≡ cost run.len width form
length-encoding-eq run width short = (length-encoding run width).0
length-encoding-eq run width long = (length-encoding run width).1
length-encoding-eq run width same = (length-encoding run width).2

Holds-Allowed :
    (run : BitRun) (form : Form) → Holds form (all_same run 1 (run.len - 1)) → Allowed run form
Holds-Allowed run short h = tt
Holds-Allowed run long h = tt
Holds-Allowed run same h = (same_test run run.len).0 h

Allowed-Holds :
    (run : BitRun) (form : Form) → Allowed run form → Holds form (all_same run 1 (run.len - 1))
Allowed-Holds run short h = tt
Allowed-Holds run long h = tt
Allowed-Holds run same h = (same_test run run.len).1 h

-- For a label shorter than 2^16 and a length field of at most 16 bits, the form that
-- `store_label` chooses can spell the label, and any form that can is longer, or is as long and
-- comes no earlier in the order short, long, same.
pub choose-first :
    (run : BitRun) (width : ℕ) (form : Form)
    → run.len < 2 ^ 16
    → width ≤ 16
    → Allowed run form
    → Allowed run (choose run run.len width)
      × Before
          (length (encoding run width (choose run run.len width)))
          (length (encoding run width form))
          (rank (choose run run.len width))
          (rank form)
unfolding choose
choose-first run width form small narrow allowed =
    let all_one = all_same run 1 (run.len - 1) in
    let (holds, first) =
      pick-first all_one run.len width form small narrow (Allowed-Holds run form allowed) in
    (
      Holds-Allowed run (pick all_one run.len width) holds,
      rw
          (
            length-encoding-eq run width (pick all_one run.len width),
            length-encoding-eq run width form,
          )
          first,
    )
