-- ===== src/Cell/Identity.antt =====
-- A cell's identity: a hash and a depth for each level its mask makes significant
-- (`Identity` of core/src/cell/cell/hash.rs). A hash is its list of 32 bytes.
use ton_net.Base.{
  ℕ, ◌+◌, ◌-◌, ◌*◌, ◌/◌, ◌%◌, Option, none, some, List, [], ◌∷◌, ◌++◌, ◌&&◌, min, ltb, leb, ◌==◌,
  if◌then◌else◌, length, get_elem?, set as list_set, replicate,
}
use ton_net.Base.Result.{Result, ok, err}
use ton_net.Cell.Error.{CellError, malformed}
use ton_net.Cell.Level.{count_ones, level_of, hash_index}

abbrev pub Hash : Type 0
Hash = List ℕ

abbrev pub zero_hash : Hash
zero_hash = replicate 32 0

abbrev pub max_hashes : ℕ
max_hashes = 4

-- The two arrays of three slots each.
pub record Extra : Type 0 where
  pub hashes : List Hash
  pub depths : List ℕ

pub record Identity : Type 0 where
  pub level_mask : ℕ
  pub hash0 : Hash
  pub depth0 : ℕ
  pub extra : Option Extra

-- `Identity::NONE`
abbrev pub unfilled : Identity
unfilled = record { level_mask = 0; hash0 = zero_hash; depth0 = 0; extra = none }

abbrev empty_extra : Extra
empty_extra = record { hashes = replicate 3 zero_hash; depths = replicate 3 0 }

unfoldable pub blank : ℕ → Result CellError Identity
unfolding count_ones
blank level_mask =
    let count = count_ones 8 level_mask + 1 in
    if ltb max_hashes count
    then err (malformed "cell level mask marks more levels than the cell model has")
    else ok (record {
      level_mask = level_mask;
      hash0 = zero_hash;
      depth0 = 0;
      extra = if ltb 1 count then some empty_extra else none;
    })

abbrev pub past_the_end : CellError
past_the_end = malformed "cell has more hashes than its level mask allows"

set_extra : Identity → Option Extra → ℕ → Hash → ℕ → Result CellError Identity
set_extra id none at hash depth = err past_the_end
set_extra id (some extra) at hash depth =
    if ltb at (length extra.hashes) && ltb at (length extra.depths)
    then ok (record id {
      extra = some (record {
        hashes = list_set extra.hashes at hash;
        depths = list_set extra.depths at depth;
      });
    })
    else err past_the_end

unfoldable pub set : Identity → ℕ → Hash → ℕ → Result CellError Identity
unfolding set_extra
set id index hash depth =
    if index == 0
    then ok (record id { hash0 = hash; depth0 = depth })
    else set_extra id id.extra (index - 1) hash depth

unfoldable pub count : Identity → ℕ
unfolding count_ones
count id = count_ones 8 id.level_mask + 1

unfoldable pub hash : Identity → ℕ → Option Hash
unfolding count
hash id index =
    if index == 0
    then some id.hash0
    else if leb (count id) index
    then none
    else elim id.extra [ none ↦ none | some extra ↦ get_elem? extra.hashes (index - 1) ]

unfoldable pub depth : Identity → ℕ → Option ℕ
unfolding count
depth id index =
    if index == 0
    then some id.depth0
    else if leb (count id) index
    then none
    else elim id.extra [ none ↦ none | some extra ↦ get_elem? extra.depths (index - 1) ]

-- `unwrap_or`
abbrev pub unwrap_or : {A : Type 0} → Option A → A → A
unwrap_or none d = d
unwrap_or (some a) d = a

unfoldable pub hash_at : Identity → ℕ → Hash
unfolding hash hash_index
hash_at id level =
    unwrap_or (hash id (min (hash_index id.level_mask level) (count id - 1))) id.hash0

unfoldable pub depth_at : Identity → ℕ → ℕ
unfolding depth hash_index
depth_at id level =
    unwrap_or (depth id (min (hash_index id.level_mask level) (count id - 1))) id.depth0

unfoldable pub repr_hash : Identity → Hash
unfolding hash_at level_of
repr_hash id = hash_at id (level_of id.level_mask)

unfoldable pub stored_len : Identity → ℕ
unfolding count
stored_len id = count id * (32 + 2)

-- `to_be_bytes` of a `u16`
abbrev pub be_bytes16 : ℕ → List ℕ
be_bytes16 d = (d / 256 % 256) ∷ (d % 256) ∷ []

stored_hashes : Identity → ℕ → ℕ → List ℕ
unfolding hash
stored_hashes id from ℕ.zero = []
stored_hashes id from (ℕ.suc n) = unwrap_or (hash id from) [] ++ stored_hashes id (from + 1) n

stored_depths : Identity → ℕ → ℕ → List ℕ
unfolding depth
stored_depths id from ℕ.zero = []
stored_depths id from (ℕ.suc n) =
    elim (depth id from) [ none ↦ [] | some d ↦ be_bytes16 d ] ++ stored_depths id (from + 1) n

-- Every hash first and then every depth.
unfoldable pub write_stored : Identity → List ℕ → List ℕ
unfolding stored_hashes stored_depths
write_stored id out = out ++ (stored_hashes id 0 (count id) ++ stored_depths id 0 (count id))
