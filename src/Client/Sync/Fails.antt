-- ===== src/Client/Sync/Fails.antt =====
-- What a walk that fails leaves behind.
use ton_net.Base.{ℕ, zero, suc, ◌≡◌, refl, sym, Option, none, some, leb, Bool-cases, inl, inr}
use mathlib.Core.Path.{subst}
use ton_net.Base.Result.{Result, ok, err}
use ton_net.Proof.Chain.{Proofs}
use ton_net.Lite.{BlockIdExt, MasterchainInfo}
use ton_net.Client.Error.{Error}
use ton_net.Client.Sync.{
  Client, sync, sync_from, sync_towards, masterchain_info, start_of, settle, enough_rounds, set_out,
  World, Progress, Round, onward, arrived, SyncReport, answered, ask, sync_round, sync_loop,
  proceed, worth_continuing,
}

-- The sessions that asking for proofs towards a target can lead to.
pub data Asked {S : Type 0} (world : World S) (target : BlockIdExt) : S → S → Type 0 where
  none_asked : (s : S) → Asked world target s s
  asked :
      (anchor : BlockIdExt) (s t : S)
      → Asked world target (world.block_proof anchor target s).1 t
      → Asked world target s t

-- The sessions that a walk can leave: the one that it was given, if it asked for nothing, or one
-- that asking for the head and then for proofs towards that head leads to.
pub data Used {S : Type 0} (world : World S) : S → S → Type 0 where
  untouched : (s : S) → Used world s s
  named :
      (target : BlockIdExt) (s t : S)
      → Asked world target (world.masterchain_info s).1 t
      → Used world s t

-- All but the session is as it was.
pub record KeepsTrust {S : Type 0} (world : World S) (c d : Client S) : Type 0 where
  pub anchor : d.anchor ≡ c.anchor
  pub init_block : d.init_block ≡ c.init_block
  pub max_head_age : d.max_head_age ≡ c.max_head_age
  pub session : Used world c.lite d.lite

module _ {S : Type 0} (proofs : Proofs) (world : World S) (limit : ℕ) (target : BlockIdExt) where
  ask-Asked :
      (p : Progress) (worth : Result Error (Unit {0})) (s : S)
      → Asked world target s (ask proofs world limit target p worth s).1
  unfolding ask answered
  ask-Asked p (err e) s = none_asked s
  ask-Asked p (ok u) s = asked p.anchor s _ (none_asked _)

  Asked-trans :
      (s t u : S) → Asked world target s t → Asked world target t u → Asked world target s u
  Asked-trans s t u (none_asked _) k = k
  Asked-trans s t u (asked anchor _ _ h) k = asked anchor s u (Asked-trans _ t u h k)

  proceed-Asked :
      (fuel : ℕ) (s : S) (r : Result Error Round × S) (o : Result Error (BlockIdExt × SyncReport))
      (after : S)
      → Asked world target s r.1
      → ((q : Progress)
          → (t : S) → sync_loop proofs world limit target fuel q t ≡ some (o, after)
          → Asked world target t after)
      → proceed (sync_loop proofs world limit target fuel) r ≡ some (o, after)
      → Asked world target s after
  unfolding proceed
  proceed-Asked fuel s (err e, t) o after a rec h = subst (Asked world target s) (cc h) a
  proceed-Asked fuel s (ok (onward q), t) o after a rec h = Asked-trans s t after a (rec q t h)
  proceed-Asked fuel s (ok (arrived kept report), t) o after a rec h =
      subst (Asked world target s) (cc h) a

  -- The session after a loop is one that asking for proofs leads to.
  pub sync_loop-Asked :
      (fuel : ℕ) (p : Progress) (s : S) (o : Result Error (BlockIdExt × SyncReport)) (after : S)
      → sync_loop proofs world limit target fuel p s ≡ some (o, after)
      → Asked world target s after
  unfolding sync_loop sync_round
  sync_loop-Asked zero p s o after h = absurd (cc h)
  sync_loop-Asked (suc fuel) p s o after h =
      proceed-Asked fuel s _ o after
        (ask-Asked p (worth_continuing (world.elapsed p.walk.rounds) limit) s)
        (λ q t k. sync_loop-Asked fuel q t o after k) h

module _ {S : Type 0} where
  -- A client that is settled with an error differs in its session alone.
  pub settle-err :
      (c d : Client S) (o : Option (Result Error (BlockIdExt × SyncReport) × S)) (e : Error)
      → settle c o ≡ some (err e, d)
      → (after : S) × (o ≡ some (err e, after)) × (d ≡ record c { lite = after })
  unfolding settle
  settle-err c d none e h = absurd (cc h)
  settle-err c d (some (err f, s)) e h = (s, cc, cc)
  settle-err c d (some (ok (kept, r), s)) e h = absurd (cc h)

module _ {S : Type 0} (proofs : Proofs) (world : World S) where
  with_session :
      (c d : Client S) (after : S)
      → Used world c.lite after
      → record c { lite = after } ≡ d
      → KeepsTrust world c d
  with_session c d after used same =
      subst (KeepsTrust world c) same
        (record { anchor = refl; init_block = refl; max_head_age = refl; session = used })

  sync_towards-err :
      (start : BlockIdExt) (c d : Client S) (first : Result Error MasterchainInfo × S) (e : Error)
      → (world.masterchain_info c.lite).1 ≡ first.1
      → sync_towards proofs world start c first ≡ some (err e, d)
      → KeepsTrust world c d
  unfolding sync_towards
  sync_towards-err start c d (err f, s) e named_by h =
      with_session c d s
        (named start c.lite s (subst (λ t. Asked world start t s) (sym named_by) (none_asked s)))
        (cc h)
  sync_towards-err start c d (ok info, s) e named_by h =
      let target = MasterchainInfo.last info in
      elim (Bool-cases (leb target.seqno start.seqno)) [
        | inl behind ↦
            with_session c d s
              (named target c.lite s
                (subst (λ t. Asked world target t s) (sym named_by) (none_asked s)))
              (cc (rw (behind) at h))
        | inr ahead ↦
            let (after, walked, same) =
              settle-err c d
                (sync_loop proofs world c.max_head_age target enough_rounds (set_out start) s) e
                (rw (ahead) at h) in
            with_session c d after
              (named target c.lite after (
                subst (λ t. Asked world target t after) (sym named_by)
                  (sync_loop-Asked proofs world c.max_head_age target enough_rounds (set_out start)
                    s (err e) after walked)))
              (sym same)
      ]

  sync_from-err :
      (from : Result Error BlockIdExt) (c d : Client S) (e : Error)
      → sync_from proofs world from c ≡ some (err e, d)
      → KeepsTrust world c d
  unfolding sync_from masterchain_info
  sync_from-err (err f) c d e h = with_session c d c.lite (untouched c.lite) (cc h)
  sync_from-err (ok start) c d e h =
      sync_towards-err start c d (masterchain_info world c.lite) e refl h

  -- A `sync` that fails keeps the client's anchor, its init block and its bound on the age of a
  -- head. Its session is the one it had, or what the calls for the head and then for proofs
  -- towards one head made of it.
  pub sync-err :
      (c d : Client S) (e : Error) → sync proofs world c ≡ some (err e, d) → KeepsTrust world c d
  unfolding sync
  sync-err c d e h = sync_from-err (start_of c.anchor c.init_block) c d e h
