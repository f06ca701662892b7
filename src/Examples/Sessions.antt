-- ===== src/Examples/Sessions.antt =====
-- A session whose transport holds the pieces that are still to be read.
use ton_net.Base.{ℕ, suc, ◌≡◌, refl, true, false, Option, none, some, List, [], ◌∷◌}
use ton_net.Base.Result.{ok, err}
use ton_net.Cell.Identity.{Hash}
use ton_net.Client.Error.{Error, desynchronized, from_lite, LiteError}
use ton_net.Adnl.Call.{then_call}
use ton_net.Adnl.Connection.{
  Layer, AdnlConnection, answer_message, moved, ciphered, check, drawn, send, recv, listen, query,
}
use ton_net.Adnl.Connection.Intact.{Marks, query-Marks, query-dropped}

-- A read waits where no piece is left.
abbrev pub plain_layer : Layer (List (List ℕ)) ℕ
plain_layer = record {
  write_all = λ bytes pieces. (some (ok tt), pieces);
  read_exact =
      λ len pieces. elim pieces [ [] ↦ (none, []) | piece ∷ rest ↦ (some (ok piece), rest) ];
  seal = λ nonce message count. (ok message, suc count);
  open_len = λ prefix count. (ok 2, count);
  open_body = λ body count. (ok body, suc count);
  serialize = λ message. [];
  deserialize =
      λ payload. elim payload [ [] ↦ none | id ∷ answer ↦ some (answer_message (id ∷ []) answer) ];
}

-- An answer to another query, and the answer.
abbrev two_frames : AdnlConnection (List (List ℕ)) ℕ
two_frames = record {
  transport = [] ∷ (9 ∷ 5 ∷ []) ∷ [] ∷ (1 ∷ 42 ∷ []) ∷ [];
  ciphers = 0;
  intact = true;
}

abbrev read_out : AdnlConnection (List (List ℕ)) ℕ
read_out = record { transport = []; ciphers = 3; intact = true }

-- The prefix of a frame whose body does not come.
abbrev pub half_frame : AdnlConnection (List (List ℕ)) ℕ
half_frame = record { transport = [] ∷ []; ciphers = 0; intact = true }

abbrev pub lost : AdnlConnection (List (List ℕ)) ℕ
lost = record { transport = []; ciphers = 1; intact = false }

abbrev one : Option Hash
one = some (1 ∷ [])

dropped : query plain_layer one one [] half_frame ≡ (none, lost)
unfolding query then_call drawn send check moved ciphered listen recv
dropped = refl

query-Marks_example : Marks true (query plain_layer one one [] half_frame)
query-Marks_example = query-Marks plain_layer one one [] half_frame

query-dropped_example :
    (query plain_layer (some (2 ∷ [])) (some (3 ∷ [])) [] lost ≡ (some (err desynchronized), lost))
    × (from_lite (LiteError.adnl desynchronized) ≡ Error.connection_lost)
query-dropped_example =
    query-dropped plain_layer one one [] half_frame lost (2 ∷ []) (3 ∷ []) [] dropped
