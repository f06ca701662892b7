-- ===== src/Adnl/Connection/Intact.antt =====
-- When a session still knows its place in the stream.
use ton_net.Base.{
  ℕ, zero, suc, ◌+◌, ◌≡◌, refl, Bool, true, false, Option, none, some, List, String, ◌==◌, sym, ap,
  if◌then◌else◌, Bool-cases, inl, inr,
}
use mathlib.Core.Path.{subst}
use ton_net.Base.Result.{Result, ok, err}
use ton_net.Cell.Identity.{Hash}
use ton_net.Client.Error.{
  Error, AdnlError, transport, handshake, frame, malformed, no_answer, no_randomness,
  desynchronized, LiteError, from_adnl, from_lite,
}
use ton_net.Adnl.Call.{Call, then_call}
use ton_net.Adnl.Connection.{
  Layer, AdnlConnection, query_message, Heard, answered, skipped, unreadable, moved, ciphered,
  on_transport, on_ciphers, set_intact, check, drawn, turn, heard, send, recv, listen, query,
  max_frames_per_query,
}

module _ {T C : Type 0} where
  -- After an error of the transport the place is lost, and after a wait for frames that did not
  -- bring the answer it is known.
  abbrev pub MarksError : AdnlError → AdnlConnection T C → Type 0
  MarksError (transport message) conn = conn.intact ≡ false
  MarksError malformed conn = conn.intact ≡ true
  MarksError no_answer conn = conn.intact ≡ true
  MarksError (handshake message) conn = Unit
  MarksError (frame message) conn = Unit
  MarksError no_randomness conn = Unit
  MarksError desynchronized conn = conn.intact ≡ false

  -- A call that was dropped has lost the place, and one that returned leaves the mark at `b`.
  abbrev pub Marks : {A : Type 0} → Bool → Option (Result AdnlError A) × AdnlConnection T C → Type 0
  Marks b (none, conn) = conn.intact ≡ false
  Marks b (some (ok a), conn) = conn.intact ≡ b
  Marks b (some (err e), conn) = MarksError e conn

  then_call-Marks :
      {A B : Type 0} (b c : Bool) (r : Option (Result AdnlError A) × AdnlConnection T C)
      (f : A → Call AdnlError (AdnlConnection T C) B)
      → Marks b r
      → ((a : A) → (conn : AdnlConnection T C) → conn.intact ≡ b → Marks c (f a conn))
      → Marks c (then_call r f)
  unfolding then_call
  then_call-Marks b c (none, conn) f h k = h
  then_call-Marks b c (some (ok a), conn) f h k = k a conn h
  then_call-Marks b c (some (err e), conn) f h k = h

  moved-Marks :
      {A : Type 0} (conn : AdnlConnection T C) (r : Option (Result String A) × T)
      → conn.intact ≡ false
      → Marks false (moved conn r)
  unfolding moved
  moved-Marks conn (none, t) h = h
  moved-Marks conn (some (err e), t) h = h
  moved-Marks conn (some (ok a), t) h = h

  ciphered-Marks :
      {A : Type 0} (b : Bool) (conn : AdnlConnection T C) (r : Result String A × C)
      → conn.intact ≡ b
      → Marks b (ciphered conn r)
  unfolding ciphered
  ciphered-Marks b conn (err e, c) h = tt
  ciphered-Marks b conn (ok a, c) h = h

  check-intact :
      (conn : AdnlConnection T C) (b : Bool)
      → conn.intact ≡ b
      → check conn ≡ (if b then (some (ok tt), conn) else (some (err desynchronized), conn))
  unfolding check
  check-intact conn b h =
      ap (λ c. if c then (some (ok tt), conn) else (some (err desynchronized), conn)) h

  check-Marks : (conn : AdnlConnection T C) → Marks true (check conn)
  check-Marks conn = elim (Bool-cases conn.intact) [
    | inl e ↦ subst (Marks true) (sym (check-intact conn true e)) e
    | inr e ↦ subst (Marks true) (sym (check-intact conn false e)) e
  ]

module _ {T C : Type 0} (layer : Layer T C) where
  send-Marks :
      (nonce : Hash) (message : List ℕ) (conn : AdnlConnection T C)
      → Marks true (send layer nonce message conn)
  unfolding send
  send-Marks nonce message conn =
      then_call-Marks true true (check conn) _ (check-Marks conn) (λ u a h.
        then_call-Marks true true (on_ciphers (layer.seal nonce message) a) _
          (ciphered-Marks true a (layer.seal nonce message a.ciphers) h)
          (λ bytes b k. then_call-Marks false true (set_intact false b) _ refl (λ v c l.
            then_call-Marks false true (on_transport (layer.write_all bytes) c) _
              (moved-Marks c (layer.write_all bytes c.transport) l) (λ w d m. refl))))

  recv-Marks : (conn : AdnlConnection T C) → Marks true (recv layer conn)
  unfolding recv
  recv-Marks conn = then_call-Marks true true (check conn) _ (check-Marks conn) (λ u a h.
      then_call-Marks false true (set_intact false a) _ refl (λ v b k.
        then_call-Marks false true (on_transport (layer.read_exact 4) b) _
          (moved-Marks b (layer.read_exact 4 b.transport) k)
          (λ prefix c l.
            then_call-Marks false true (on_ciphers (layer.open_len prefix) c) _
              (ciphered-Marks false c (layer.open_len prefix c.ciphers) l)
              (λ len d m.
                then_call-Marks false true (on_transport (layer.read_exact len) d) _
                  (moved-Marks d (layer.read_exact len d.transport) m)
                  (λ body e n.
                    then_call-Marks false true (on_ciphers (layer.open_body body) e) _
                      (ciphered-Marks false e (layer.open_body body e.ciphers) n)
                      (λ payload f o.
                        then_call-Marks true true (set_intact true f) _ refl (λ w g p. p)))))))

  turn-Marks :
      (next : ℕ → Call AdnlError (AdnlConnection T C) (List ℕ)) (undecodable : ℕ) (what : Heard)
      (conn : AdnlConnection T C)
      → conn.intact ≡ true
      → ((count : ℕ) → Marks true (next count conn))
      → Marks true (turn next undecodable what conn)
  unfolding turn
  turn-Marks next undecodable (answered answer) conn h k = h
  turn-Marks next undecodable skipped conn h k = k undecodable
  turn-Marks next undecodable unreadable conn h k = k (undecodable + 1)

  out_of_turns :
      (b : Bool) (conn : AdnlConnection T C)
      → conn.intact ≡ true
      → MarksError (if b then malformed else no_answer) conn
  out_of_turns true conn h = h
  out_of_turns false conn h = h

  listen-Marks :
      (id : Hash) (turns undecodable : ℕ) (conn : AdnlConnection T C)
      → conn.intact ≡ true
      → Marks true (listen layer id turns undecodable conn)
  unfolding listen
  listen-Marks id zero undecodable conn h =
      out_of_turns (undecodable == max_frames_per_query) conn h
  listen-Marks id (suc turns) undecodable conn h =
      then_call-Marks true true (recv layer conn) _ (recv-Marks conn) (λ payload next k.
        turn-Marks (listen layer id turns) undecodable (heard layer id payload) next k
          (λ count. listen-Marks id turns count next k))

  -- A query that is dropped where it waits, or that an error of the transport or a lost place ends,
  -- has lost its place in the stream; one that is answered, or that waits for all its frames
  -- without the answer, has kept it.
  pub query-Marks :
      (id nonce : Option Hash) (bytes : List ℕ) (conn : AdnlConnection T C)
      → Marks true (query layer id nonce bytes conn)
  unfolding query drawn then_call
  query-Marks none _ bytes conn = tt
  query-Marks (some id) none bytes conn = tt
  query-Marks (some id) (some nonce) bytes conn =
      then_call-Marks true true (send layer nonce (layer.serialize (query_message id bytes)) conn) _
        (send-Marks nonce (layer.serialize (query_message id bytes)) conn)
        (λ u next h. listen-Marks id max_frames_per_query 0 next h)

  pub query-lost :
      (id nonce : Hash) (bytes : List ℕ) (conn : AdnlConnection T C)
      → conn.intact ≡ false
      → query layer (some id) (some nonce) bytes conn ≡ (some (err desynchronized), conn)
  unfolding query drawn then_call send
  query-lost id nonce bytes conn h = rw (check-intact conn false h)

  -- After a query that was dropped where it waited, every later query for which randomness is
  -- drawn is refused as desynchronized and changes nothing, which the client reports as a lost
  -- connection.
  pub query-dropped :
      (id nonce : Option Hash) (bytes : List ℕ) (conn after : AdnlConnection T C)
      (id' nonce' : Hash) (bytes' : List ℕ)
      → query layer id nonce bytes conn ≡ (none, after)
      → (query layer (some id') (some nonce') bytes' after ≡ (some (err desynchronized), after))
        × (from_lite (LiteError.adnl desynchronized) ≡ Error.connection_lost)
  unfolding from_lite from_adnl
  query-dropped id nonce bytes conn after id' nonce' bytes' h = (
    query-lost id' nonce' bytes' after (subst (Marks true) h (query-Marks id nonce bytes conn)),
    refl,
  )
