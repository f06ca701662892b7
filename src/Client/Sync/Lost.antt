-- ===== src/Client/Sync/Lost.antt =====
-- What becomes of a client whose walk was cut short by a deadline.
use mathlib.Core.Path.{subst}
use ton_net.Base.{
  ℕ, zero, suc, ◌+◌, ◌≡◌, refl, sym, ap, ◌∙◌, true, false, Option, none, some, List, leb,
  Bool-cases, inl, inr,
}
use ton_net.Base.Result.{Result, ok, err}
use ton_net.Cell.Identity.{Hash}
use ton_net.Proof.Wire.{PartialBlockProof}
use ton_net.Proof.Chain.{Proofs}
use ton_net.Lite.{BlockIdExt, MasterchainInfo}
use ton_net.Client.Error.{
  Error, AdnlError, transport, handshake, frame, malformed, no_answer, no_randomness,
  desynchronized, LiteError, from_adnl, from_lite, within,
}
use ton_net.Adnl.Connection.{Layer, AdnlConnection}
use ton_net.Adnl.Connection.Intact.{Marks, query-Marks, query-lost}
use ton_net.Lite.Session.{Codec, LiteClient, answered_by, request, session_world}
use ton_net.Client.Sync.{
  Client, sync, sync_from, sync_towards, masterchain_info, start_of, enough_rounds, set_out, World,
  Progress, Round, onward, arrived, answered, ask, sync_round, sync_loop, proceed, judge,
}
use ton_net.Client.Sync.Fails.{settle-err, sync-err}
use ton_net.Client.Sync.Timely.{IsTimely, InTime, worth_continuing-InTime, judge-InTime}

from_lite-IsTimely : (e : LiteError) → IsTimely (from_lite e)
unfolding from_lite from_adnl
from_lite-IsTimely (LiteError.adnl (transport message)) = tt
from_lite-IsTimely (LiteError.adnl (handshake message)) = tt
from_lite-IsTimely (LiteError.adnl (frame message)) = tt
from_lite-IsTimely (LiteError.adnl malformed) = tt
from_lite-IsTimely (LiteError.adnl no_answer) = tt
from_lite-IsTimely (LiteError.adnl no_randomness) = tt
from_lite-IsTimely (LiteError.adnl desynchronized) = tt
from_lite-IsTimely (LiteError.lite_server code message) = tt
from_lite-IsTimely (LiteError.duplicate_send code message) = tt
from_lite-IsTimely (LiteError.decode message) = tt

late : {A : Type 0} (r : Result Error A) → InTime r → r ≡ err Error.timeout → ⊥
late r h e = subst InTime e h

late_error : (e : Error) → IsTimely e → e ≡ Error.timeout → ⊥
late_error e h same = subst IsTimely same h

within-none :
    {A : Type 0} (o : Option (Result LiteError A)) → within o ≡ err Error.timeout → o ≡ none
unfolding within
within-none none h = refl
within-none (some (ok a)) h = absurd (cc h)
within-none (some (err e)) h = absurd (late (err (from_lite e)) (from_lite-IsTimely e) h)

start_of-InTime : (anchor init : Option BlockIdExt) → InTime (start_of anchor init)
unfolding start_of
start_of-InTime (some anchor) init = tt
start_of-InTime none (some init) = tt
start_of-InTime none none = tt

-- A round that ends by its deadline was cut short in its call.
answered-none :
    {S : Type 0} (next : PartialBlockProof → Result Error Round)
    (o : Option (Result LiteError PartialBlockProof)) (s after : S)
    → ((reply : PartialBlockProof) → InTime (next reply))
    → answered next (o, s) ≡ (err Error.timeout, after)
    → ◌≡◌ {A = Option (Result LiteError PartialBlockProof) × S} (o, s) (none, after)
unfolding answered within
answered-none next none s after k h = cc h
answered-none next (some (ok reply)) s after k h = absurd (late (next reply) (k reply) (cc h))
answered-none next (some (err e)) s after k h =
    absurd (late_error (from_lite e) (from_lite-IsTimely e) (cc h))

-- The session has lost its place in the stream.
abbrev pub IsLost : {T C : Type 0} → LiteClient T C → Type 0
IsLost client = AdnlConnection.intact client.connection ≡ false

module _ {T C : Type 0} where
  answered_by-IsLost :
      {A : Type 0} (read : List ℕ → Result LiteError A) (draws : ℕ)
      (r : Option (Result AdnlError (List ℕ)) × AdnlConnection T C) (after : LiteClient T C)
      → Marks true r
      → answered_by read draws r ≡ (none, after)
      → IsLost after
  unfolding answered_by
  answered_by-IsLost read draws (none, conn) after m h =
      let same : record { connection = conn; draws = draws } ≡ after = cc h in
      subst (λ (c : LiteClient T C). IsLost c) same m
  answered_by-IsLost read draws (some (err e), conn) after m h = absurd (cc h)
  answered_by-IsLost read draws (some (ok answer), conn) after m h = absurd (cc h)

module _ {T C : Type 0} (layer : Layer T C) (codec : Codec) (random : ℕ → Option Hash)
    (elapsed : ℕ → ℕ) (now : ℕ) where
  world : World (LiteClient T C)
  world = session_world layer codec random elapsed now

  request-IsLost :
      {A : Type 0} (read : List ℕ → Result LiteError A) (bytes : List ℕ)
      (client after : LiteClient T C)
      → request layer codec random read bytes client ≡ (none, after)
      → IsLost after
  unfolding request
  request-IsLost read bytes client after h =
      answered_by-IsLost read (client.draws + 2) _ after
        (query-Marks layer (random client.draws) (random (client.draws + 1)) bytes
          client.connection)
        h

  request-refused :
      {A : Type 0} (read : List ℕ → Result LiteError A) (bytes : List ℕ) (client : LiteClient T C)
      (id nonce : Hash)
      → random client.draws ≡ some id
      → random (client.draws + 1) ≡ some nonce
      → IsLost client
      → request layer codec random read bytes client ≡ (
        some (err (LiteError.adnl desynchronized)),
        record { connection = client.connection; draws = client.draws + 2 },
      )
  unfolding request answered_by
  request-refused read bytes client id nonce e f lost =
      rw (e, f, query-lost layer id nonce bytes client.connection lost)

  module _ (proofs : Proofs) (limit : ℕ) (target : BlockIdExt) where
    ask-IsLost :
        (p : Progress) (worth : Result Error (Unit {0})) (s after : LiteClient T C)
        → InTime worth
        → ask proofs world limit target p worth s ≡ (err Error.timeout, after)
        → IsLost after
    unfolding ask world session_world
    ask-IsLost p (err e) s after t h = absurd (late_error e t (cc h))
    ask-IsLost p (ok u) s after t h = request-IsLost _ _ s after (
        answered-none (judge proofs now limit target p) _ _ after
          (judge-InTime proofs now limit target p) h)

    followed-IsLost :
        (p : Progress) (fuel : ℕ) (s : LiteClient T C) (o : Result Error Round × LiteClient T C)
        (after : LiteClient T C)
        → sync_round proofs world limit target p s ≡ o
        → ((q : Progress)
            → (t : LiteClient T C)
            → sync_loop proofs world limit target fuel q t ≡ some (err Error.timeout, after)
            → IsLost after)
        → proceed (sync_loop proofs world limit target fuel) o ≡ some (err Error.timeout, after)
        → IsLost after
    unfolding proceed sync_round
    followed-IsLost p fuel s (err e, t) after h rec k =
        ask-IsLost p _ s after (worth_continuing-InTime _ limit) (h ∙ cc k)
    followed-IsLost p fuel s (ok (onward q), t) after h rec k = rec q t k
    followed-IsLost p fuel s (ok (arrived kept report), t) after h rec k = absurd (cc k)

    sync_loop-IsLost :
        (fuel : ℕ) (p : Progress) (s after : LiteClient T C)
        → sync_loop proofs world limit target fuel p s ≡ some (err Error.timeout, after)
        → IsLost after
    unfolding sync_loop
    sync_loop-IsLost zero p s after h = absurd (cc h)
    sync_loop-IsLost (suc fuel) p s after h =
        followed-IsLost p fuel s (sync_round proofs world limit target p s) after refl
          (λ q t k. sync_loop-IsLost fuel q t after k) h

  module _ (proofs : Proofs) where
    sync_towards-IsLost :
        (start : BlockIdExt) (c d : Client (LiteClient T C))
        (first : Result Error MasterchainInfo × LiteClient T C)
        → masterchain_info world c.lite ≡ first
        → sync_towards proofs world start c first ≡ some (err Error.timeout, d)
        → IsLost d.lite
    unfolding sync_towards masterchain_info world session_world
    sync_towards-IsLost start c d (err e, s) named h =
        let same : record c { lite = s } ≡ d = cc h in
        let asked = world.masterchain_info c.lite in
        let ended : within asked.0 ≡ err Error.timeout =
          ap (λ (r : Result Error MasterchainInfo × LiteClient T C). r.0) named ∙ cc h in
        let left : asked.1 ≡ s =
          ap (λ (r : Result Error MasterchainInfo × LiteClient T C). r.1) named in
        let dropped = within-none asked.0 ended in
        subst (λ (x : Client (LiteClient T C)). IsLost x.lite) same
          (subst IsLost left (request-IsLost _ _ c.lite asked.1 (λ i. (dropped i, asked.1))))
    sync_towards-IsLost start c d (ok info, s) named h =
        elim (Bool-cases (leb (BlockIdExt.seqno info.last) start.seqno)) [
          | inl behind ↦ absurd (cc (rw (behind) at h))
          | inr ahead ↦
              let (after, walked, same) =
                settle-err c d
                  (sync_loop proofs world c.max_head_age info.last enough_rounds (set_out start) s)
                  Error.timeout (rw (ahead) at h) in
              subst (λ (x : Client (LiteClient T C)). IsLost x.lite) (sym same)
                (sync_loop-IsLost proofs c.max_head_age info.last enough_rounds (set_out start) s
                  after walked)
        ]

    sync_from-IsLost :
        (from : Result Error BlockIdExt) (c d : Client (LiteClient T C))
        → InTime from
        → sync_from proofs world from c ≡ some (err Error.timeout, d)
        → ((start : BlockIdExt) × (from ≡ ok start)) × IsLost d.lite
    unfolding sync_from
    sync_from-IsLost (err e) c d t h = absurd (late_error e t (cc h))
    sync_from-IsLost (ok start) c d t h =
        ((start, refl), sync_towards-IsLost start c d (masterchain_info world c.lite) refl h)

    -- The client after a refusal, which has drawn twice more and is otherwise as it was.
    abbrev pub refused_again : Client (LiteClient T C) → Client (LiteClient T C)
    refused_again d = record d {
      lite = record {
        connection = LiteClient.connection d.lite;
        draws = LiteClient.draws d.lite + 2;
      };
    }

    sync_from-refused :
        (start : BlockIdExt) (d : Client (LiteClient T C)) (id nonce : Hash)
        → random (LiteClient.draws d.lite) ≡ some id
        → random (LiteClient.draws d.lite + 1) ≡ some nonce
        → IsLost d.lite
        → sync_from proofs world (ok start) d ≡ some (err Error.connection_lost, refused_again d)
    unfolding sync_from sync_towards masterchain_info world session_world within from_lite from_adnl
    sync_from-refused start d id nonce e f lost = rw (request-refused _ _ d.lite id nonce e f lost)

    -- A `sync` over a session that ends by its deadline leaves the client without its place in the
    -- stream: where randomness is drawn for the next query, the next `sync` of that client ends as
    -- a lost connection, and leaves the client as it was but for the two draws.
    pub sync_timeout-lost :
        (c d : Client (LiteClient T C)) (id nonce : Hash)
        → sync proofs (session_world layer codec random elapsed now) c ≡ some (err Error.timeout, d)
        → random (LiteClient.draws d.lite) ≡ some id
        → random (LiteClient.draws d.lite + 1) ≡ some nonce
        → sync proofs (session_world layer codec random elapsed now) d
          ≡ some (err Error.connection_lost, refused_again d)
    unfolding sync world
    sync_timeout-lost c d id nonce h e f =
        let kept = sync-err proofs world c d Error.timeout h in
        let ((start, from), lost) =
          sync_from-IsLost (start_of c.anchor c.init_block) c d
            (start_of-InTime c.anchor c.init_block) h in
        let same : start_of d.anchor d.init_block ≡ ok start =
          (λ i. start_of (kept.anchor i) (kept.init_block i)) ∙ from in
        subst (λ r. sync_from proofs world r d ≡ some (err Error.connection_lost, refused_again d))
          (sym same) (sync_from-refused start d id nonce e f lost)
