-- ===== src/Adnl/Connection.antt =====
-- An open session, core/src/adnl/connection.rs. The transport, the frame ciphers
-- (core/src/adnl/frame.rs) and the codec of messages (core/src/tl) come through the interface
-- `Layer`; what the operating system draws is an argument, none where it draws nothing.
use ton_net.Base.{
  ℕ, zero, suc, ◌+◌, Bool, true, false, Option, none, some, List, [], ◌∷◌, String, ◌==◌,
  if◌then◌else◌,
}
use ton_net.Base.Result.{Result, ok, err}
use ton_net.Base.Compare.{eq_bytes}
use ton_net.Cell.Identity.{Hash}
use ton_net.Client.Error.{
  AdnlError, transport, frame, malformed, no_answer, no_randomness, desynchronized,
}
use ton_net.Adnl.Call.{Call, pure, raise, then_call, ◌>>=◌, ◌>>◌}
pub mod Intact
pub mod Answers

pub data Message : Type 0 where
  -- query_id and query, query_id and answer
  query_message answer_message : Hash → List ℕ → Message

-- An error of a layer is the message that it prints. A transport may be left in the middle of a
-- move; the ciphers never wait.
pub record Layer (T C : Type 0) : Type 0 where
  pub write_all : List ℕ → T → Option (Result String (Unit {0})) × T
  pub read_exact : ℕ → T → Option (Result String (List ℕ)) × T
  pub seal : Hash → List ℕ → C → Result String (List ℕ) × C
  pub open_len : List ℕ → C → Result String ℕ × C
  pub open_body : List ℕ → C → Result String (List ℕ) × C
  pub serialize : Message → List ℕ
  pub deserialize : List ℕ → Option Message

pub record AdnlConnection (T C : Type 0) : Type 0 where
  pub transport : T
  pub ciphers : C
  pub intact : Bool

abbrev pub max_frames_per_query : ℕ
max_frames_per_query = 8

-- What a frame is to a query that waits for its answer.
pub data Heard : Type 0 where
  answered : List ℕ → Heard
  skipped unreadable : Heard

unfoldable pub heard_message : Hash → Option Message → Heard
heard_message id none = unreadable
heard_message id (some (query_message other payload)) = skipped
heard_message id (some (answer_message other answer)) =
    if eq_bytes other id then answered answer else skipped

module _ {T C : Type 0} where
  unfoldable pub moved :
      {A : Type 0} (conn : AdnlConnection T C)
      → Option (Result String A) × T
      → Option (Result AdnlError A) × AdnlConnection T C
  moved conn (none, t) = (none, record conn { transport = t })
  moved conn (some (err e), t) = (some (err (AdnlError.transport e)), record conn { transport = t })
  moved conn (some (ok a), t) = (some (ok a), record conn { transport = t })

  unfoldable pub ciphered :
      {A : Type 0} (conn : AdnlConnection T C)
      → Result String A × C
      → Option (Result AdnlError A) × AdnlConnection T C
  ciphered conn (err e, c) = (some (err (AdnlError.frame e)), record conn { ciphers = c })
  ciphered conn (ok a, c) = (some (ok a), record conn { ciphers = c })

  abbrev pub on_transport :
      {A : Type 0} → (T → Option (Result String A) × T) → Call AdnlError (AdnlConnection T C) A
  on_transport op conn = moved conn (op conn.transport)

  abbrev pub on_ciphers :
      {A : Type 0} → (C → Result String A × C) → Call AdnlError (AdnlConnection T C) A
  on_ciphers op conn = ciphered conn (op conn.ciphers)

  abbrev pub set_intact : Bool → Call AdnlError (AdnlConnection T C) (Unit {0})
  set_intact intact conn = (some (ok tt), record conn { intact = intact })

  unfoldable pub check : Call AdnlError (AdnlConnection T C) (Unit {0})
  check conn = if conn.intact then (some (ok tt), conn) else (some (err desynchronized), conn)

  -- `random()?`
  unfoldable pub drawn : Option Hash → Call AdnlError (AdnlConnection T C) Hash
  drawn none = raise no_randomness
  drawn (some bytes) = pure bytes

  -- One turn of the loop over the frames: the answer, or the next turn with its count.
  unfoldable pub turn :
      (ℕ → Call AdnlError (AdnlConnection T C) (List ℕ))
      → ℕ
      → Heard
      → Call AdnlError (AdnlConnection T C) (List ℕ)
  turn next undecodable (answered answer) = pure answer
  turn next undecodable skipped = next undecodable
  turn next undecodable unreadable = next (undecodable + 1)

module _ {T C : Type 0} (layer : Layer T C) where
  -- An empty frame carries no message.
  unfoldable pub heard : Hash → List ℕ → Heard
  unfolding heard_message
  heard id [] = skipped
  heard id (b ∷ bytes) = heard_message id (layer.deserialize (b ∷ bytes))

  unfoldable pub send : Hash → List ℕ → Call AdnlError (AdnlConnection T C) (Unit {0})
  send nonce message = do
    check
    sealed ← on_ciphers (layer.seal nonce message)
    set_intact false
    on_transport (layer.write_all sealed)
    set_intact true

  unfoldable pub recv : Call AdnlError (AdnlConnection T C) (List ℕ)
  recv = do
    check
    set_intact false
    prefix ← on_transport (layer.read_exact 4)
    len ← on_ciphers (layer.open_len prefix)
    body ← on_transport (layer.read_exact len)
    payload ← on_ciphers (layer.open_body body)
    set_intact true
    pure payload

  -- `for _ in 0..MAX_FRAMES_PER_QUERY`, with the turns that are left
  unfoldable pub listen : Hash → ℕ → ℕ → Call AdnlError (AdnlConnection T C) (List ℕ)
  listen id zero undecodable =
      raise (if undecodable == max_frames_per_query then malformed else no_answer)
  listen id (suc turns) undecodable =
      recv >>= λ payload. turn (listen id turns) undecodable (heard id payload)

  unfoldable pub query :
      Option Hash → Option Hash → List ℕ → Call AdnlError (AdnlConnection T C) (List ℕ)
  query id nonce bytes = do
    query_id ← drawn id
    nonce' ← drawn nonce
    send nonce' (layer.serialize (query_message query_id bytes))
    listen query_id max_frames_per_query 0
