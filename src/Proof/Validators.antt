-- ===== src/Proof/Validators.antt =====
-- The masterchain validator set of core/src/proof/validators.rs: the end of `from_cell`, which
-- weighs, sorts and checks the members, and the questions that are asked of a set.
use Prim.Native.Nat.{Ordering}
use ton_net.Base.{
  ℕ, ◌+◌, ◌*◌, ◌^◌, Bool, true, false, ◌||◌, Option, none, some, List, [], ◌∷◌, ◌++◌, ltb, leb,
  if◌then◌else◌, length,
}
use ton_net.Base.Result.{Result, ok, err}
use ton_net.Base.Compare.{cmp_bytes, eq_bytes}
use ton_net.Cell.Identity.{Hash}
use ton_net.Proof.Wire.{BlockError, malformed}
pub mod Weighed

pub record Validator : Type 0 where
  pub public_key : List ℕ
  pub weight : ℕ

pub record Member : Type 0 where
  pub id : Hash
  pub validator : Validator

pub record ValidatorSet : Type 0 where
  pub utime_since : ℕ
  pub utime_until : ℕ
  pub total : ℕ
  pub main : ℕ
  pub members : List Member
  pub total_weight : ℕ

-- `PUB_ED25519.to_le_bytes()`
abbrev pub pub_ed25519 : List ℕ
pub_ed25519 = 0xc6 ∷ 0xb4 ∷ 0x13 ∷ 0x48 ∷ []

-- What a binary search by id finds in members sorted by id.
unfoldable pub find_member : Hash → List Member → Option Validator
find_member id [] = none
find_member id (m ∷ ms) =
    let later = find_member id ms in
    elim (cmp_bytes m.id id) [
      | Ordering.lt ↦ later
      | Ordering.eq ↦ some m.validator
      | Ordering.gt ↦ none
    ]

unfoldable pub find : ValidatorSet → Hash → Option Validator
unfolding find_member
find set id = find_member id set.members

unfoldable pub len : ValidatorSet → ℕ
len set = length set.members

unfoldable pub is_empty : ValidatorSet → Bool
is_empty set = elim set.members [ [] ↦ true | _ ↦ false ]

-- The products are taken in `u128`, where they cannot overflow.
unfoldable pub carries : ValidatorSet → ℕ → Bool
carries set weight = ltb (set.total_weight * 2) (weight * 3)

-- A sort by id. Members with one id are refused afterwards, so their order does not matter.
unfoldable pub insert_member : Member → List Member → List Member
insert_member m [] = m ∷ []
insert_member m (x ∷ xs) =
    let later = x ∷ insert_member m xs in
    elim (cmp_bytes x.id m.id) [ Ordering.lt ↦ later | _ ↦ m ∷ x ∷ xs ]

unfoldable pub sort_members : List Member → List Member
unfolding insert_member
sort_members [] = []
sort_members (m ∷ ms) = insert_member m (sort_members ms)

unfoldable pub has_repeat : List Member → Bool
has_repeat [] = false
has_repeat (m ∷ []) = false
has_repeat (m ∷ n ∷ ms) = eq_bytes m.id n.id || has_repeat (n ∷ ms)

-- What is made of the entries that were read: they are sorted, and refused if a key repeats.
unfoldable pub weigh_entries :
    ℕ → ℕ → ℕ → ℕ → Result BlockError (List Member × ℕ) → Result BlockError ValidatorSet
weigh_entries utime_since utime_until total main (err e) = err e
weigh_entries utime_since utime_until total main (ok r) =
    if has_repeat (sort_members r.0)
    then err (malformed "a validator set that names the same key twice")
    else ok (record {
      utime_since = utime_since;
      utime_until = utime_until;
      total = total;
      main = main;
      members = sort_members r.0;
      total_weight = r.1;
    })

module _ (sha256 : List ℕ → Hash) where
  unfoldable pub short_id : List ℕ → Hash
  short_id public_key = sha256 (pub_ed25519 ++ public_key)

  -- The loop over the entries of the list, each as its dictionary lookup and decoding ended.
  unfoldable pub members_loop :
      List (Result BlockError Validator) → List Member → ℕ → Result BlockError (List Member × ℕ)
  members_loop [] members total_weight = ok (members, total_weight)
  members_loop (err e ∷ entries) members total_weight = err e
  members_loop (ok v ∷ entries) members total_weight =
      let next =
        members_loop entries
          (members ++ (record { id = short_id v.public_key; validator = v } ∷ []))
          (total_weight + v.weight) in
      if leb (2 ^ 64) (total_weight + v.weight)
      then err (malformed "validator weights that overflow")
      else next

  -- The rest of `from_cell`, from the header's fields and the entries of the list.
  unfoldable pub from_entries :
      ℕ → ℕ → ℕ → ℕ → List (Result BlockError Validator) → Result BlockError ValidatorSet
  unfolding members_loop weigh_entries
  from_entries utime_since utime_until total main entries =
      weigh_entries utime_since utime_until total main (members_loop entries [] 0)
