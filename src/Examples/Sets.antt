-- ===== src/Examples/Sets.antt =====
-- A set of two validators, read out of order, under a hash that changes nothing.
use ton_net.Base.{◌≡◌, refl, List, [], ◌∷◌, ◌++◌}
use ton_net.Base.Result.{Result, ok}
use ton_net.Base.Compare.{cmp_bytes, eq_bytes}
use ton_net.Proof.Wire.{BlockError}
use ton_net.Proof.Validators.{
  Validator, ValidatorSet, from_entries, weigh_entries, members_loop, short_id, sort_members,
  insert_member, has_repeat, pub_ed25519,
}
use ton_net.Proof.Validators.Weighed.{Weighed, from_entries-Weighed}

abbrev first : Validator
first = record { public_key = 12 ∷ []; weight = 80 }

abbrev second : Validator
second = record { public_key = 11 ∷ []; weight = 20 }

abbrev entries : List (Result BlockError Validator)
entries = ok first ∷ ok second ∷ []

abbrev sorted_set : ValidatorSet
sorted_set = record {
  utime_since = 1;
  utime_until = 2;
  total = 3;
  main = 2;
  members =
      record { id = pub_ed25519 ++ (11 ∷ []); validator = second }
      ∷ record { id = pub_ed25519 ++ (12 ∷ []); validator = first }
      ∷ [];
  total_weight = 100;
}

set_read : from_entries (λ bytes. bytes) 1 2 3 2 entries ≡ ok sorted_set
unfolding from_entries weigh_entries members_loop short_id sort_members insert_member has_repeat
    cmp_bytes eq_bytes
set_read = refl

from_entries-Weighed_example : Weighed sorted_set
from_entries-Weighed_example =
    from_entries-Weighed (λ bytes. bytes) 1 2 3 2 entries sorted_set set_read
