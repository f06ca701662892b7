-- ===== src/Lite/Session.antt =====
-- The calls that a walk makes of a liteserver over an open session: core/src/lite/client.rs. The
-- codec of requests and answers (core/src/tl) is the record `Codec`.
use ton_net.Base.{ℕ, ◌+◌, Option, none, some, List, String}
use ton_net.Base.Result.{Result, ok, err, ◌>>=◌}
use ton_net.Base.Int.{ℤ}
use ton_net.Cell.Identity.{Hash}
use ton_net.Proof.Wire
use ton_net.Proof.Wire.{PartialBlockProof}
use ton_net.Client.Error.{AdnlError, LiteError}
use ton_net.Adnl.Connection.{Layer, AdnlConnection, query}
use ton_net.Client.Sync.{World}
use ton_net.Lite.{from_wire, to_wire, MasterchainInfo}

-- The bytes of the requests, and how an answer reads: as an error of the server, with its code and
-- message, or as a response.
pub record Codec : Type 0 where
  pub info_request : List ℕ
  pub proof_request : Wire.BlockIdExt → Wire.BlockIdExt → List ℕ
  pub read_error : List ℕ → Option (ℤ × String)
  -- `last` and `state_root_hash`
  pub read_info : List ℕ → Result String (Wire.BlockIdExt × Hash)
  pub read_proof : List ℕ → Result String PartialBlockProof

-- A client, with the number of draws of randomness so far.
pub record LiteClient (T C : Type 0) : Type 0 where
  pub connection : AdnlConnection T C
  pub draws : ℕ

unfoldable pub decoded : {A : Type 0} → Option (ℤ × String) → Result String A → Result LiteError A
decoded (some (code, message)) response = err (LiteError.lite_server code message)
decoded none (ok response) = ok response
decoded none (err message) = err (LiteError.decode message)

-- An answer is an error of the server if it reads as one.
unfoldable pub decode_answer :
    {A : Type 0} → Codec → (List ℕ → Result String A) → List ℕ → Result LiteError A
unfolding decoded
decode_answer codec read answer = decoded (codec.read_error answer) (read answer)

unfoldable pub to_info : Wire.BlockIdExt × Hash → MasterchainInfo
to_info (last, state_root_hash) = record {
  last = from_wire last;
  state_root_hash = state_root_hash;
}

module _ {T C : Type 0} where
  -- The answer of a query, read.
  unfoldable pub answered_by :
      {A : Type 0} (read : List ℕ → Result LiteError A) (draws : ℕ)
      → Option (Result AdnlError (List ℕ)) × AdnlConnection T C
      → Option (Result LiteError A) × LiteClient T C
  answered_by read draws (none, conn) = (none, record { connection = conn; draws = draws })
  answered_by read draws (some (err e), conn) =
      (some (err (LiteError.adnl e)), record { connection = conn; draws = draws })
  answered_by read draws (some (ok answer), conn) =
      (some (read answer), record { connection = conn; draws = draws })

module _ {T C : Type 0} (layer : Layer T C) (codec : Codec) (random : ℕ → Option Hash) where
  -- A request, with the next two draws for its id and its nonce.
  unfoldable pub request :
      {A : Type 0} (read : List ℕ → Result LiteError A) (bytes : List ℕ)
      → LiteClient T C
      → Option (Result LiteError A) × LiteClient T C
  request read bytes client =
      answered_by read (client.draws + 2)
        (query layer (random client.draws) (random (client.draws + 1)) bytes client.connection)

  unfoldable pub read_head : List ℕ → Result LiteError MasterchainInfo
  read_head answer = decode_answer codec codec.read_info answer >>= λ info. ok (to_info info)

  -- A server that is reached over the session, as a walk sees it.
  unfoldable pub session_world : (ℕ → ℕ) → ℕ → World (LiteClient T C)
  session_world elapsed now = record {
    masterchain_info = request read_head codec.info_request;
    block_proof = λ known target.
        request (decode_answer codec codec.read_proof)
          (codec.proof_request (to_wire known) (to_wire target));
    elapsed = elapsed;
    now = now;
  }
