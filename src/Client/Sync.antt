-- ===== src/Client/Sync.antt =====
-- Walking the anchor forward: core/src/client/sync.rs, and `sync` and `last_key_block` of
-- core/src/client.rs. The session with the server and the clocks are the record `World`.
use ton_net.Base.{
  ℕ, zero, suc, ◌+◌, ◌-◌, ◌^◌, min, Bool, true, false, not, Option, none, some, List, [], ◌∷◌, ltb,
  leb, ◌==◌, if◌then◌else◌, length,
}
use ton_net.Base.Result.{Result, ok, err, ◌>>=◌, ◌>>◌}
use ton_net.Base.Exec.{Exec}
use ton_net.Proof.Wire.{signatures, BlockLink, back, forward, PartialBlockProof, BlockError}
use ton_net.Proof.Chain.{Proofs, ProvenBlock, verify_chain}
use ton_net.Lite.{BlockIdExt, eq_block, from_wire, to_wire, MasterchainInfo}
use ton_net.Client.Error.{
  Error, stale, clock_behind, LiteError, within, too_many_links, proof_too_large,
  too_many_signatures, rounds_spent, links_spent, dead_end, left_at, outlasted, not_ahead,
  not_reached, refused,
}
pub mod Rounds
pub mod Ends
pub mod Kept
pub mod Legs
pub mod Reaches
pub mod Fails
pub mod Timely
pub mod Lost

abbrev pub max_links_per_reply : ℕ
max_links_per_reply = 64

abbrev pub max_links_per_sync : ℕ
max_links_per_sync = 4096

abbrev pub max_rounds : ℕ
max_rounds = 512

abbrev pub max_proof_bytes : ℕ
max_proof_bytes = 2 ^ 20

abbrev pub max_signatures : ℕ
max_signatures = 1024

abbrev pub max_clock_skew : ℕ
max_clock_skew = 300

-- `if failed { return Err(e) }`
unfoldable pub unless : Bool → Error → Result Error (Unit {0})
unless failed e = if failed then err e else ok tt

unfoldable pub small_proof : List ℕ → Result Error (Unit {0})
unfolding unless
small_proof proof =
    unless (ltb max_proof_bytes (length proof)) (Error.sync (proof_too_large (length proof)))

unfoldable pub within_step : BlockLink → Result Error (Unit {0})
within_step (forward key start to dest_proof config_proof set) =
    small_proof dest_proof
    >> (small_proof config_proof
        >> unless (ltb max_signatures (length (signatures set)))
            (Error.sync (too_many_signatures (length (signatures set)))))
within_step (back key start to dest_proof proof state_proof) =
    small_proof dest_proof >> small_proof state_proof

unfoldable pub within_steps : List BlockLink → Result Error (Unit {0})
within_steps [] = ok tt
within_steps (step ∷ steps) = within_step step >> within_steps steps

unfoldable pub within_bounds : PartialBlockProof → Result Error (Unit {0})
within_bounds reply =
    unless (ltb max_links_per_reply (length reply.steps))
      (Error.sync (too_many_links (length reply.steps)))
    >> within_steps reply.steps

pub record Walk : Type 0 where
  pub rounds : ℕ
  pub links : ℕ

abbrev pub new_walk : Walk
new_walk = record { rounds = 0; links = 0 }

unfoldable pub count_links : ℕ → Exec Error Walk (Unit {0})
count_links links walk =
    let next : Walk = record { rounds = walk.rounds; links = walk.links + links } in
    (unless (ltb max_links_per_sync (walk.links + links)) (Error.sync links_spent), next)

unfoldable pub round : ℕ → Exec Error Walk (Unit {0})
unfolding count_links
round links walk =
    let next : Walk = record { rounds = suc walk.rounds; links = walk.links } in
    if ltb max_rounds (suc walk.rounds)
    then (err (Error.sync rounds_spent), next)
    else count_links links next

unfoldable pub advanced : BlockIdExt → BlockIdExt → Result Error (Unit {0})
advanced before after = unless (leb after.seqno before.seqno) (Error.sync (left_at before.seqno))

-- Seconds since the epoch by the local clock, and the block's own stamp.
unfoldable pub fresh_enough : ℕ → ℕ → ℕ → Result Error (Unit {0})
fresh_enough now gen_utime limit =
    unless (ltb (min (now + max_clock_skew) (2 ^ 64 - 1)) gen_utime)
      (clock_behind (gen_utime - now) max_clock_skew)
    >> unless (ltb limit (now - gen_utime)) (stale (now - gen_utime) limit)

unfoldable pub worth_continuing : ℕ → ℕ → Result Error (Unit {0})
worth_continuing elapsed limit =
    if limit == 0 then ok tt else unless (ltb limit elapsed) (Error.sync (outlasted elapsed limit))

unfoldable pub key_block_of : BlockLink → Option BlockIdExt
unfolding from_wire
key_block_of (forward true start to dest_proof config_proof set) = some (from_wire to)
key_block_of _ = none

-- The last of the steps that names a key block.
unfoldable pub last_key_block : List BlockLink → Option BlockIdExt
unfolding key_block_of
last_key_block [] = none
last_key_block (step ∷ steps) = elim (last_key_block steps) [
  | some key_block ↦ some key_block
  | none ↦ key_block_of step
]

-- The world around a walk with a session of type `S`: the two calls of `LiteClient` that it makes,
-- each with the session that it leaves and none where its deadline passes first, how long the walk
-- has run before each round, and the clock when the head is judged.
pub record World (S : Type 0) : Type 0 where
  pub masterchain_info : S → Option (Result LiteError MasterchainInfo) × S
  pub block_proof : BlockIdExt → BlockIdExt → S → Option (Result LiteError PartialBlockProof) × S
  pub elapsed : ℕ → ℕ
  pub now : ℕ

pub record SyncReport : Type 0 where
  pub head : BlockIdExt
  pub links : ℕ
  pub rounds : ℕ

-- The variables of the loop of `sync`.
pub record Progress : Type 0 where
  pub anchor : BlockIdExt
  pub trusted_key_block : BlockIdExt
  pub walk : Walk

-- How a round of the loop ends: with the next one, or with the anchor to keep and the report.
pub data Round : Type 0 where
  onward : Progress → Round
  arrived : BlockIdExt → SyncReport → Round

unfoldable pub chain_of : Result BlockError ProvenBlock → Result Error ProvenBlock
chain_of (ok proven) = ok proven
chain_of (err failure) = err (Error.sync (refused failure))

unfoldable pub or_kept : Option BlockIdExt → BlockIdExt → BlockIdExt
or_kept none kept = kept
or_kept (some key_block) kept = key_block

-- The end of a round, once its chain is checked and its count is taken.
unfoldable pub conclude :
    ℕ → ℕ → BlockIdExt → Bool → ProvenBlock → BlockIdExt → BlockIdExt → Walk → Result Error Round
conclude now limit target complete proven anchor trusted walk =
    if complete
    then (unless (not (eq_block anchor target)) (Error.sync (not_reached anchor.seqno target.seqno))
        >> (fresh_enough now proven.gen_utime limit
            >> ok (
                arrived trusted
                  (record { head = anchor; links = walk.links; rounds = walk.rounds }))))
    else (unless (not proven.key_block) (Error.sync dead_end)
        >> ok (onward (record { anchor = anchor; trusted_key_block = trusted; walk = walk })))

-- A round once the server's reply is there.
unfoldable pub judge :
    Proofs → ℕ → ℕ → BlockIdExt → Progress → PartialBlockProof → Result Error Round
judge proofs now limit target p reply =
    within_bounds reply
    >> ((round (length reply.steps) p.walk).0
        >> (chain_of (verify_chain proofs (to_wire p.anchor) reply) >>= λ proven.
            (advanced p.anchor (from_wire proven.id)
              >> conclude now limit target reply.complete proven (from_wire proven.id)
                  (or_kept (last_key_block reply.steps) p.trusted_key_block)
                  (round (length reply.steps) p.walk).1)))

module _ {S : Type 0} where
  -- The reply, or what its call failed with, and the session after it.
  unfoldable pub answered :
      (PartialBlockProof → Result Error Round)
      → Option (Result LiteError PartialBlockProof) × S
      → Result Error Round × S
  answered next (reply, session) = (within reply >>= next, session)

  -- What follows a round.
  unfoldable pub proceed :
      (Progress → S → Option (Result Error (BlockIdExt × SyncReport) × S))
      → Result Error Round × S
      → Option (Result Error (BlockIdExt × SyncReport) × S)
  proceed next (err e, session) = some (err e, session)
  proceed next (ok (onward p), session) = next p session
  proceed next (ok (arrived kept report), session) = some (ok (kept, report), session)

module _ {S : Type 0} (proofs : Proofs) (world : World S) (limit : ℕ) (target : BlockIdExt) where
  -- The server is asked only while the walk is worth continuing.
  unfoldable pub ask : Progress → Result Error (Unit {0}) → Exec Error S Round
  ask p (err e) session = (err e, session)
  ask p (ok u) session =
      answered (judge proofs world.now limit target p) (world.block_proof p.anchor target session)

  unfoldable pub sync_round : Progress → Exec Error S Round
  sync_round p session = ask p (worth_continuing (world.elapsed p.walk.rounds) limit) session

  -- The loop, for that many rounds at most; none when they are not enough.
  unfoldable pub sync_loop : ℕ → Progress → S → Option (Result Error (BlockIdExt × SyncReport) × S)
  sync_loop zero p session = none
  sync_loop (suc fuel) p session = proceed (sync_loop fuel) (sync_round p session)

pub record Client (S : Type 0) : Type 0 where
  pub lite : S
  pub anchor : Option BlockIdExt
  pub init_block : Option BlockIdExt
  pub max_head_age : ℕ

unfoldable pub start_of : Option BlockIdExt → Option BlockIdExt → Result Error BlockIdExt
start_of (some anchor) init = ok anchor
start_of none (some init) = ok init
start_of none none = err (Error.config "config names no init block to start a sync from")

-- A round more than the walk allows, so that its count refuses before the fuel is spent.
abbrev pub enough_rounds : ℕ
enough_rounds = 513

abbrev pub set_out : BlockIdExt → Progress
set_out start = record { anchor = start; trusted_key_block = start; walk = new_walk }

module _ {S : Type 0} where
  -- The anchor is written once the walk has arrived; the session is what the calls left of it.
  unfoldable pub settle :
      Client S
      → Option (Result Error (BlockIdExt × SyncReport) × S)
      → Option (Result Error SyncReport × Client S)
  settle c none = none
  settle c (some (err e, session)) = some (err e, record c { lite = session })
  settle c (some (ok (kept, report), session)) =
      some (ok report, record c { lite = session; anchor = some kept })

-- `self.masterchain_info()`
unfoldable pub masterchain_info : {S : Type 0} → World S → Exec Error S MasterchainInfo
masterchain_info world session =
    let (reply, after) = world.masterchain_info session in (within reply, after)

module _ {S : Type 0} (proofs : Proofs) (world : World S) where
  -- Towards the head that the server names.
  unfoldable pub sync_towards :
      BlockIdExt
      → Client S
      → Result Error MasterchainInfo × S
      → Option (Result Error SyncReport × Client S)
  sync_towards start c (err e, session) = some (err e, record c { lite = session })
  sync_towards start c (ok info, session) =
      if leb info.last.seqno start.seqno
      then some
          (err (Error.sync (not_ahead info.last.seqno start.seqno)), record c { lite = session })
      else settle c
          (sync_loop proofs world c.max_head_age info.last enough_rounds (set_out start) session)

  unfoldable pub sync_from :
      Result Error BlockIdExt → Client S → Option (Result Error SyncReport × Client S)
  sync_from (err e) c = some (err e, c)
  sync_from (ok start) c = sync_towards start c (masterchain_info world c.lite)

  -- `sync`; none for a walk that does not end.
  unfoldable pub sync : Client S → Option (Result Error SyncReport × Client S)
  sync c = sync_from (start_of c.anchor c.init_block) c
