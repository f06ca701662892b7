-- ===== src/Client/Error.antt =====
-- The errors that a call of the client ends in: core/src/error.rs, and the errors of the layers
-- below that become them (core/src/lite/client.rs, core/src/adnl/connection.rs). A message that
-- the layer below writes is a text; each message of a walk has a constructor, with its numbers.
use ton_net.Base.{ℕ, String, Option, none, some}
use ton_net.Base.Result.{Result, ok, err}
use ton_net.Base.Int.{ℤ}
use ton_net.Proof.Wire.{BlockError}

-- The messages of `Error::Sync`.
pub data SyncMessage : Type 0 where
  too_many_links proof_too_large too_many_signatures : ℕ → SyncMessage
  rounds_spent links_spent dead_end : SyncMessage
  left_at : ℕ → SyncMessage
  outlasted not_ahead not_reached : ℕ → ℕ → SyncMessage
  refused : BlockError → SyncMessage

pub data Error : Type 0 where
  transport decode address config cell proof : String → Error
  handshake timeout connection_lost : Error
  -- code and message
  lite_server : ℤ → String → Error
  sync : SyncMessage → Error
  -- age_seconds and limit_seconds, by_seconds and tolerated_seconds
  stale clock_behind : ℕ → ℕ → Error

-- An error of a layer below `AdnlError` is the message that it prints.
pub data AdnlError : Type 0 where
  transport handshake frame : String → AdnlError
  malformed no_answer no_randomness desynchronized : AdnlError

pub data LiteError : Type 0 where
  adnl : AdnlError → LiteError
  lite_server duplicate_send : ℤ → String → LiteError
  decode : String → LiteError

unfoldable pub from_adnl : AdnlError → Error
from_adnl (AdnlError.transport message) = Error.transport message
from_adnl (AdnlError.handshake message) = Error.handshake
from_adnl (AdnlError.frame message) = Error.decode message
from_adnl AdnlError.malformed = Error.decode "server sent a malformed adnl message"
from_adnl AdnlError.no_answer = Error.decode "no answer to the query"
from_adnl AdnlError.no_randomness = Error.decode "the operating system supplied no randomness"
from_adnl AdnlError.desynchronized = Error.connection_lost

unfoldable pub from_lite : LiteError → Error
unfolding from_adnl
from_lite (LiteError.adnl e) = from_adnl e
from_lite (LiteError.lite_server code message) = Error.lite_server code message
from_lite (LiteError.duplicate_send code message) = Error.lite_server code message
from_lite (LiteError.decode message) = Error.decode message

-- What a call under a deadline ended in; none where the deadline passed before it answered.
unfoldable pub within : {A : Type 0} → Option (Result LiteError A) → Result Error A
unfolding from_lite
within none = err Error.timeout
within (some (ok a)) = ok a
within (some (err e)) = err (from_lite e)
