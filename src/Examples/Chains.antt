-- ===== src/Examples/Chains.antt =====
-- A chain of two links under a set of two members, the heavier of whom signs.
use ton_net.Base.{
  ℕ, ◌*◌, ◌≡◌, refl, Bool, true, false, none, some, List, [], ◌∷◌, ◌++◌, length, arith,
}
use Prim.Native.Nat.{◌≤◌, ◌<◌, ◌^◌}
use ton_net.Base.Compare.{cmp_bytes, eq_bytes}
use ton_net.Base.Result.{ok}
use ton_net.Base.Int.{pos, negsuc, ltb_ℤ}
use ton_net.Cell.Identity.{Hash}
use ton_net.Proof.Wire.{
  BlockIdExt, eq_block, Signature, ordinary, signatures, BlockLink, forward, PartialBlockProof,
  ordinary_candidate,
}
use ton_net.Proof.Validators.{Member, ValidatorSet, find, find_member, len, carries}
use ton_net.Proof.Weight.{
  search, later, insert_at, budget, add_weight, attempt, turn_on, turn, after, carried_loop,
  carried_weight,
}
use ton_net.Proof.Weight.Tally.{Tally, carried_weight-Tally}
use ton_net.Proof.Weight.Honest.{
  Distinct, vote_on, vote, votes, carried_weight-votes, carried_weight-outsider,
}
use ton_net.Proof.Chain.{
  Proofs, ProvenBlock, is_masterchain, refuse, check_header, check_weight, ends_at, no_steps,
  signed_message, verify_link, steps_loop, verify_chain,
}
use ton_net.Proof.Chain.Link.{Leads, verify_link-Leads}
use ton_net.Proof.Chain.Route.{Route, verify_chain-Route}

abbrev pub light : Member
light = record { id = 1 ∷ []; validator = record { public_key = 11 ∷ []; weight = 20 } }

abbrev pub heavy : Member
heavy = record { id = 2 ∷ []; validator = record { public_key = 12 ∷ []; weight = 80 } }

abbrev pub two_members : ValidatorSet
two_members = record {
  utime_since = 0;
  utime_until = 100;
  total = 2;
  main = 2;
  members = light ∷ heavy ∷ [];
  total_weight = 100;
}

-- A signature is the key and then the message.
abbrev pub verifies : List ℕ → List ℕ → List ℕ → Bool
verifies key message signature = eq_bytes signature (key ++ message)

abbrev pub block_at : ℕ → BlockIdExt
block_at seqno = record {
  workchain = negsuc 0;
  shard = 0x8000000000000000;
  seqno = pos seqno;
  root_hash = seqno ∷ [];
  file_hash = seqno ∷ seqno ∷ [];
}

abbrev pub small_network : Proofs
small_network = record {
  config_set = λ proof root. ok two_members;
  header = λ proof root. elim root [
    | [] ↦
        ok (record { seqno = 0; workchain = negsuc 0; shard = 0; key_block = false; gen_utime = 0 })
    | seqno ∷ _ ↦ ok (record {
      seqno = seqno;
      workchain = negsuc 0;
      shard = 0x8000000000000000;
      key_block = true;
      gen_utime = 10 * seqno;
    })
  ];
  block_id_message = λ root file. root ++ file;
  simplex_message = λ session slot candidate. session ++ candidate;
  read_prefix = λ candidate. some (ordinary_candidate (block_at 7));
  verify = verifies;
}

-- A signature by a stranger, a bad one, and one by the heavier member.
abbrev pub stranger : Signature
stranger = record { node_id_short = 9 ∷ []; signature = [] }

abbrev pub bad : Signature
bad = record { node_id_short = 1 ∷ []; signature = 11 ∷ [] }

abbrev pub good : List ℕ → Signature
good message = record { node_id_short = 2 ∷ []; signature = 12 ∷ message }

abbrev some_message : List ℕ
some_message = 5 ∷ 6 ∷ []

abbrev three_entries : List Signature
three_entries = stranger ∷ bad ∷ good some_message ∷ []

counted_80 : carried_weight verifies two_members three_entries some_message ≡ ok 80
unfolding carried_weight carried_loop turn turn_on after attempt add_weight search later insert_at
    budget find find_member len carries cmp_bytes eq_bytes
counted_80 = refl

carried_weight-Tally_example :
    (ids : List Hash) × Tally verifies two_members some_message three_entries ids 80
carried_weight-Tally_example =
    carried_weight-Tally verifies two_members three_entries some_message 80 counted_80

Distinct-three : Distinct three_entries
Distinct-three = (((λ h. cc h), ((λ h. cc h), tt)), (((λ h. cc h), tt), (tt, tt)))

three_fit : length three_entries ≤ budget two_members
unfolding budget len
three_fit = omega arith

three_small : votes verifies two_members some_message three_entries < 2 ^ 64
unfolding votes vote vote_on find find_member cmp_bytes eq_bytes
three_small = omega arith

carried_weight-votes_example :
    (w : ℕ) × ((carried_weight verifies two_members three_entries some_message ≡ ok w)
      × ((w ≤ votes verifies two_members some_message three_entries)
          × (carries two_members w
              ≡ carries two_members (votes verifies two_members some_message three_entries))))
carried_weight-votes_example =
    carried_weight-votes verifies two_members three_entries some_message Distinct-three three_fit
      three_small

unknown : find two_members (9 ∷ []) ≡ none
unfolding find find_member cmp_bytes
unknown = refl

carried_weight-outsider_example :
    carried_weight verifies two_members
      ((bad ∷ []) ++ (stranger ∷ (good some_message ∷ [])))
      some_message
    ≡ carried_weight verifies two_members ((bad ∷ []) ++ (good some_message ∷ [])) some_message
carried_weight-outsider_example =
    carried_weight-outsider verifies two_members (bad ∷ []) (good some_message ∷ []) stranger
      some_message unknown

abbrev pub link_between : ℕ → ℕ → BlockLink
link_between m n =
    forward true (block_at m) (block_at n) [] []
      (ordinary (pos 0) (pos 0) (stranger ∷ good (n ∷ n ∷ n ∷ []) ∷ []))

abbrev pub proved_at : ℕ → ProvenBlock
proved_at n = record { id = block_at n; key_block = true; gen_utime = n * 10 }

abbrev two_links : PartialBlockProof
two_links = record {
  complete = true;
  start = block_at 3;
  end = block_at 7;
  steps = link_between 3 5 ∷ link_between 5 7 ∷ [];
}

link_accepted : verify_link small_network (link_between 3 5) (block_at 3) ≡ ok (proved_at 5)
unfolding verify_link refuse is_masterchain check_header signed_message check_weight eq_block
    carried_weight carried_loop turn turn_on after attempt add_weight search later insert_at budget
    find find_member len carries cmp_bytes eq_bytes signatures
link_accepted = refl

verify_link-Leads_example : Leads small_network (link_between 3 5) (block_at 3) (proved_at 5)
verify_link-Leads_example =
    verify_link-Leads small_network (link_between 3 5) (block_at 3) (proved_at 5) link_accepted

chain_accepted : verify_chain small_network (block_at 3) two_links ≡ ok (proved_at 7)
unfolding verify_chain steps_loop ends_at no_steps verify_link refuse is_masterchain check_header
    signed_message check_weight eq_block carried_weight carried_loop turn turn_on after attempt
    add_weight search later insert_at budget find find_member len carries cmp_bytes eq_bytes
    signatures
chain_accepted = refl

verify_chain-Route_example :
    (block_at 3 ≡ block_at 3)
    × (Route small_network (block_at 3) (two_links.steps) (proved_at 7)
        × ((block_at 7 ≡ block_at 7) × (ltb_ℤ (pos 3) (pos 7) ≡ true)))
verify_chain-Route_example =
    verify_chain-Route small_network (block_at 3) two_links (proved_at 7) chain_accepted
