-- ===== src/Adnl/Connection/Answers.antt =====
-- Which bytes a query takes for its answer.
use ton_net.Base.{ℕ, suc, ◌≤◌, ◌≡◌, Option, some, List, ◌⊎◌}
use ton_net.Base.Result.{Result, ok}
use ton_net.Cell.Identity.{Hash}
use ton_net.Adnl.Call.{Call}
use ton_net.Adnl.Connection.{
  Layer, AdnlConnection, query_message, answer_message, skipped, unreadable, heard, send, recv,
}

module _ {T C : Type 0} (layer : Layer T C) where
  -- That many frames, the last of which is an answer that echoes the id of the query, and the
  -- others not.
  pub data Hears (id : Hash) : ℕ → AdnlConnection T C → List ℕ → AdnlConnection T C → Type 0 where
    now :
        (conn end : AdnlConnection T C) (payload answer : List ℕ)
        → recv layer conn ≡ (some (ok payload), end)
        → layer.deserialize payload ≡ some (answer_message id answer)
        → Hears id 1 conn answer end
    later :
        (frames : ℕ) (conn mid end : AdnlConnection T C) (payload answer : List ℕ)
        → recv layer conn ≡ (some (ok payload), mid)
        → (heard layer id payload ≡ skipped) ⊎ (heard layer id payload ≡ unreadable)
        → Hears id frames mid answer end
        → Hears id (suc frames) conn answer end

  -- How a query was answered.
  pub record IsAnswered (id nonce : Option Hash) (bytes : List ℕ) (conn end : AdnlConnection T C)
      (answer : List ℕ) : Type 0 where
    pub query_id : Hash
    pub salt : Hash
    pub id_drawn : id ≡ some query_id
    pub nonce_drawn : nonce ≡ some salt
    pub waiting : AdnlConnection T C
    pub sent :
        send layer salt (layer.serialize (query_message query_id bytes)) conn
        ≡ (some (ok tt), waiting)
    pub frames : ℕ
    pub few : frames ≤ 8
    pub hears : Hears query_id frames waiting answer end
