-- ===== src/Examples/Walks.antt =====
-- A sync of two rounds, from block 3 by block 5 to block 7.
use ton_net.Base.{
  ℕ, suc, ◌≡◌, refl, Bool, true, false, none, some, [], ◌∷◌, ◌==◌, if◌then◌else◌, arith,
}
use ton_net.Base.Result.{Result, ok, err}
use ton_net.Base.Int.{negsuc}
use ton_net.Base.Compare.{cmp_bytes, eq_bytes}
use ton_net.Proof.Wire.{PartialBlockProof, signatures}
use ton_net.Proof.Wire
use ton_net.Proof.Validators.{find, find_member, len, carries}
use ton_net.Proof.Weight.{
  search, later, insert_at, budget, add_weight, attempt, turn_on, turn, after, carried_loop,
  carried_weight,
}
use ton_net.Proof.Chain.{
  is_masterchain, refuse, check_header, check_weight, ends_at, no_steps, signed_message,
  verify_link, steps_loop, verify_chain,
}
use ton_net.Lite
use ton_net.Lite.{BlockIdExt, from_wire, to_wire}
use ton_net.Lite.Casts.{to_wire-from_wire}
use ton_net.Client.Error.{Error, stale, within}
use ton_net.Client.Sync.{
  World, Client, SyncReport, start_of, sync, sync_from, sync_towards, masterchain_info, settle,
  sync_loop, sync_round, ask, answered, judge, proceed, conclude, or_kept, last_key_block,
  key_block_of, chain_of, worth_continuing, fresh_enough, advanced, round, count_links,
  within_bounds, within_steps, within_step, small_proof, unless,
}
use ton_net.Client.Sync.Ends.{sync_ends}
use ton_net.Client.Sync.Reaches.{Reached, sync-Reached}
use ton_net.Client.Sync.Fails.{KeepsTrust, sync-err}
use ton_net.Examples.Chains.{block_at, link_between, small_network}

abbrev pub leg_between : ℕ → ℕ → Bool → PartialBlockProof
leg_between m n complete = record {
  complete = complete;
  start = block_at m;
  end = block_at n;
  steps = link_between m n ∷ [];
}

abbrev pub height : ℕ → BlockIdExt
height seqno = record {
  workchain = negsuc 0;
  shard = 0x8000000000000000;
  seqno = seqno;
  root_hash = seqno ∷ [];
  file_hash = seqno ∷ seqno ∷ [];
}

-- The session counts its calls, and the server finishes the chain in its second answer.
abbrev two_answers : World ℕ
two_answers = record {
  masterchain_info =
      λ calls. (some (ok (record { last = height 7; state_root_hash = [] })), suc calls);
  block_proof = λ anchor target calls.
      (some (ok (if calls == 1 then leg_between 3 5 false else leg_between 5 7 true)), suc calls);
  elapsed = λ round. round;
  now = 100;
}

abbrev fresh_client : Client ℕ
fresh_client = record { lite = 0; anchor = none; init_block = some (height 3); max_head_age = 60 }

abbrev two_rounds : SyncReport
two_rounds = record { head = height 7; links = 2; rounds = 2 }

abbrev moved_client : Client ℕ
moved_client = record {
  lite = 3;
  anchor = some (height 7);
  init_block = some (height 3);
  max_head_age = 60;
}

sync_ends_example :
    (out : Result Error SyncReport × Client ℕ) × (sync small_network two_answers fresh_client
      ≡ some out)
sync_ends_example = sync_ends small_network two_answers fresh_client

synced : sync small_network two_answers fresh_client ≡ some (ok two_rounds, moved_client)
unfolding sync sync_from sync_towards masterchain_info within start_of settle sync_loop sync_round
    ask answered judge proceed conclude or_kept last_key_block key_block_of from_wire to_wire
    chain_of worth_continuing fresh_enough advanced round count_links within_bounds within_steps
    within_step small_proof unless verify_chain steps_loop ends_at no_steps verify_link refuse
    is_masterchain check_header signed_message check_weight Wire.eq_block Lite.eq_block
    carried_weight carried_loop turn turn_on after attempt add_weight search later insert_at budget
    find find_member len carries cmp_bytes eq_bytes signatures
synced = refl

sync-Reached_example : Reached small_network two_answers fresh_client moved_client two_rounds
sync-Reached_example =
    sync-Reached small_network two_answers fresh_client moved_client two_rounds synced

-- The head is 30 seconds old.
abbrev impatient_client : Client ℕ
impatient_client = record {
  lite = 0;
  anchor = none;
  init_block = some (height 3);
  max_head_age = 20;
}

-- The calls were made.
abbrev refused_client : Client ℕ
refused_client = record { lite = 3; anchor = none; init_block = some (height 3); max_head_age = 20 }

too_old : sync small_network two_answers impatient_client ≡ some (err (stale 30 20), refused_client)
unfolding sync sync_from sync_towards masterchain_info within start_of settle sync_loop sync_round
    ask answered judge proceed conclude or_kept last_key_block key_block_of from_wire to_wire
    chain_of worth_continuing fresh_enough advanced round count_links within_bounds within_steps
    within_step small_proof unless verify_chain steps_loop ends_at no_steps verify_link refuse
    is_masterchain check_header signed_message check_weight Wire.eq_block Lite.eq_block
    carried_weight carried_loop turn turn_on after attempt add_weight search later insert_at budget
    find find_member len carries cmp_bytes eq_bytes signatures
too_old = refl

sync-err_example : KeepsTrust two_answers impatient_client refused_client
sync-err_example =
    sync-err small_network two_answers impatient_client refused_client (stale 30 20) too_old

-- A height past the signed range, on either side.
abbrev wrapped : Wire.BlockIdExt
wrapped = record (block_at 5) { seqno = negsuc 1 }

to_wire-from_wire_example :
    (to_wire (from_wire wrapped) ≡ wrapped)
    × (from_wire (to_wire (height 0xfffffffe)) ≡ height 0xfffffffe)
to_wire-from_wire_example =
    to_wire-from_wire wrapped (height 0xfffffffe) (omega arith) (omega arith)
