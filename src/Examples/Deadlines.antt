-- ===== src/Examples/Deadlines.antt =====
-- A sync whose first call is cut short in the middle of a frame, and the next one.
use ton_net.Base.{ℕ, ◌≡◌, refl, false, none, some, List, [], ◌∷◌}
use ton_net.Base.Result.{ok, err}
use ton_net.Adnl.Call.{then_call}
use ton_net.Adnl.Connection.{moved, ciphered, check, drawn, send, recv, listen, query}
use ton_net.Client.Error.{Error, within}
use ton_net.Client.Sync.{Client, sync, sync_from, sync_towards, start_of, masterchain_info, World}
use ton_net.Client.Sync.Lost.{sync_timeout-lost}
use ton_net.Lite.Session.{Codec, LiteClient, answered_by, request, session_world}
use ton_net.Examples.Chains.{small_network}
use ton_net.Examples.Sessions.{plain_layer, half_frame, lost}
use ton_net.Examples.Walks.{height, leg_between}

abbrev plain_codec : Codec
plain_codec = record {
  info_request = [];
  proof_request = λ known target. [];
  read_error = λ answer. none;
  read_info = λ answer. err "no head";
  read_proof = λ answer. ok (leg_between 3 5 false);
}

abbrev server : World (LiteClient (List (List ℕ)) ℕ)
server = session_world plain_layer plain_codec (λ n. some (n ∷ [])) (λ round. round) 100

abbrev waiting_client : Client (LiteClient (List (List ℕ)) ℕ)
waiting_client = record {
  lite = record { connection = half_frame; draws = 0 };
  anchor = some (height 3);
  init_block = none;
  max_head_age = 60;
}

abbrev lost_client : Client (LiteClient (List (List ℕ)) ℕ)
lost_client = record waiting_client { lite = record { connection = lost; draws = 2 } }

timed_out : sync small_network server waiting_client ≡ some (err Error.timeout, lost_client)
unfolding sync start_of sync_from sync_towards masterchain_info within session_world request
    answered_by query then_call drawn send check moved ciphered listen recv
timed_out = refl

sync_timeout-lost_example :
    sync small_network server lost_client
    ≡ some (
      err Error.connection_lost,
      record lost_client { lite = record { connection = lost; draws = 4 } },
    )
sync_timeout-lost_example =
    sync_timeout-lost plain_layer plain_codec (λ n. some (n ∷ [])) (λ round. round) 100
      small_network waiting_client lost_client (2 ∷ []) (3 ∷ []) timed_out refl refl
