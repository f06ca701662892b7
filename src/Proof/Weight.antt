-- ===== src/Proof/Weight.antt =====
-- How the weight behind a block is counted: `carried_weight` of core/src/proof/chain.rs. The check
-- of an ed25519 signature (core/src/proof/signature.rs) is a parameter.
use ton_net.Base.{
  ℕ, zero, suc, ◌+◌, ◌*◌, ◌^◌, ◌-◌, ◌≤◌, ◌<◌, min, ◌≡◌, refl, Bool, true, false, Option, none, some,
  List, [], ◌∷◌, leb, if◌then◌else◌,
}
use Prim.Native.Nat.{Ordering}
use ton_net.Base.Result.{Result, ok, err}
use ton_net.Base.Compare.{cmp_bytes}
use ton_net.Cell.Identity.{Hash}
use ton_net.Proof.Wire.{Signature, BlockError, malformed}
use ton_net.Proof.Validators.{Validator, ValidatorSet, find, len, carries}
pub mod Tally
pub mod Honest

unfoldable pub later : Result ℕ ℕ → Result ℕ ℕ
later (ok at) = ok (suc at)
later (err at) = err (suc at)

-- What a binary search finds in a sorted list without repeats: the position of the value, or as an
-- error the position that it would be inserted at.
unfoldable pub search : Hash → List Hash → Result ℕ ℕ
unfolding later
search id [] = err 0
search id (c ∷ cs) =
    let rest = later (search id cs) in
    elim (cmp_bytes c id) [ Ordering.lt ↦ rest | Ordering.eq ↦ ok 0 | Ordering.gt ↦ err 0 ]

unfoldable pub insert_at : ℕ → Hash → List Hash → List Hash
insert_at zero id cs = id ∷ cs
insert_at (suc at) id [] = id ∷ []
insert_at (suc at) id (c ∷ cs) = c ∷ insert_at at id cs

-- The variables of the loop.
pub record Count : Type 0 where
  pub attempts : ℕ
  pub counted : List Hash
  pub weight : ℕ

-- How one turn of the loop ends: with the next one, or with the weight that is returned.
pub data Turn : Type 0 where
  go : Count → Turn
  finish : ℕ → Turn

-- `set.len().saturating_mul(2)` on a 64-bit machine
unfoldable pub budget : ValidatorSet → ℕ
budget set = min (len set * 2) (2 ^ 64 - 1)

-- A verified entry is added at its place.
unfoldable pub add_weight : ValidatorSet → Validator → ℕ → Hash → Count → Result BlockError Turn
add_weight set v at id c =
    if leb (2 ^ 64) (c.weight + v.weight)
    then err (malformed "validator weights that overflow")
    else if carries set (c.weight + v.weight)
    then ok (finish (c.weight + v.weight))
    else ok (
        go (record {
          attempts = suc c.attempts;
          counted = insert_at at id c.counted;
          weight = c.weight + v.weight;
        }))

-- The entry of a member that is not counted yet, by whether its signature verifies.
unfoldable pub attempt : ValidatorSet → Validator → ℕ → Hash → Count → Bool → Result BlockError Turn
attempt set v at id c verified =
    if leb (budget set) c.attempts
    then ok (finish c.weight)
    else if verified
    then add_weight set v at id c
    else ok (go (record { attempts = suc c.attempts; counted = c.counted; weight = c.weight }))

-- The rest of the loop after a turn.
unfoldable pub after : (Count → Result BlockError ℕ) → Result BlockError Turn → Result BlockError ℕ
after next (err e) = err e
after next (ok (finish w)) = ok w
after next (ok (go c)) = next c

module _ (verify : List ℕ → List ℕ → List ℕ → Bool) where
  -- One turn, from what the two searches found.
  unfoldable pub turn_on :
      ValidatorSet
      → List ℕ
      → Signature
      → Count
      → Option Validator
      → Result ℕ ℕ
      → Result BlockError Turn
  turn_on set message entry c none found = ok (go c)
  turn_on set message entry c (some v) (ok at) = ok (go c)
  turn_on set message entry c (some v) (err at) =
      attempt set v at entry.node_id_short c (verify v.public_key message entry.signature)

  unfoldable pub turn : ValidatorSet → List ℕ → Signature → Count → Result BlockError Turn
  turn set message entry c =
      turn_on set message entry c (find set entry.node_id_short)
        (search entry.node_id_short c.counted)

  unfoldable pub carried_loop : ValidatorSet → List ℕ → List Signature → Count → Result BlockError ℕ
  carried_loop set message [] c = ok c.weight
  carried_loop set message (entry ∷ rest) c =
      after (carried_loop set message rest) (turn set message entry c)

  unfoldable pub carried_weight : ValidatorSet → List Signature → List ℕ → Result BlockError ℕ
  carried_weight set sigs message =
      carried_loop set message sigs (record { attempts = 0; counted = []; weight = 0 })
