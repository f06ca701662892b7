-- ===== src/Client/Sync/Timely.antt =====
-- Which errors of a walk are a deadline that passed: those of its calls alone.
use ton_net.Base.{ℕ, suc, Bool, true, false, List, [], ◌∷◌, length, ltb, if◌then◌else◌, ◌+◌, ◌==◌}
use ton_net.Base.Result.{Result, ok, err, ◌>>=◌}
use ton_net.Proof.Wire.{BlockLink, back, forward, PartialBlockProof, BlockError}
use ton_net.Proof.Chain.{Proofs, ProvenBlock, verify_chain}
use ton_net.Lite.{BlockIdExt, from_wire, to_wire}
use ton_net.Client.Error.{Error}
use ton_net.Client.Sync.{
  Walk, Progress, judge, conclude, round, count_links, within_bounds, within_steps, within_step,
  small_proof, worth_continuing, chain_of, advanced, or_kept, last_key_block, fresh_enough, unless,
}

abbrev pub IsTimely : Error → Type 0
IsTimely Error.timeout = ⊥
IsTimely _ = Unit {0}

-- Not the error of a deadline.
abbrev pub InTime : {A : Type 0} → Result Error A → Type 0
InTime (ok a) = Unit {0}
InTime (err e) = IsTimely e

>>=-InTime :
    {A B : Type 0} (m : Result Error A) (f : A → Result Error B)
    → InTime m
    → ((a : A) → InTime (f a))
    → InTime (m >>= f)
>>=-InTime (ok a) f h k = k a
>>=-InTime (err e) f h k = h

unless-InTime : (failed : Bool) (e : Error) → IsTimely e → InTime (unless failed e)
unfolding unless
unless-InTime true e h = h
unless-InTime false e h = tt

if-InTime :
    {A : Type 0} (b : Bool) (x y : Result Error A)
    → InTime x
    → InTime y
    → InTime (if b then x else y)
if-InTime true x y h k = h
if-InTime false x y h k = k

first-InTime :
    {A : Type 0} (b : Bool) (x y : Result Error A × Walk)
    → InTime x.0
    → InTime y.0
    → InTime (if b then x else y).0
first-InTime true x y h k = h
first-InTime false x y h k = k

pub worth_continuing-InTime : (elapsed limit : ℕ) → InTime (worth_continuing elapsed limit)
unfolding worth_continuing
worth_continuing-InTime elapsed limit =
    if-InTime (limit == 0) (ok tt) _ tt (unless-InTime (ltb limit elapsed) _ tt)

within_step-InTime : (link : BlockLink) → InTime (within_step link)
unfolding within_step small_proof
within_step-InTime (forward key start to dest_proof config_proof set) =
    >>=-InTime (small_proof dest_proof) _ (unless-InTime _ _ tt) (λ u.
      >>=-InTime (small_proof config_proof) _ (unless-InTime _ _ tt) (λ v. unless-InTime _ _ tt))
within_step-InTime (back key start to dest_proof proof state_proof) =
    >>=-InTime (small_proof dest_proof) _ (unless-InTime _ _ tt) (λ u. unless-InTime _ _ tt)

within_steps-InTime : (links : List BlockLink) → InTime (within_steps links)
unfolding within_steps
within_steps-InTime [] = tt
within_steps-InTime (link ∷ links) =
    >>=-InTime (within_step link) _ (within_step-InTime link) (λ u. within_steps-InTime links)

round-InTime : (links : ℕ) (walk : Walk) → InTime (round links walk).0
unfolding round count_links
round-InTime links walk =
    first-InTime (ltb 512 (suc walk.rounds)) _ _ tt
      (unless-InTime (ltb 4096 (walk.links + links)) _ tt)

chain_of-InTime : (r : Result BlockError ProvenBlock) → InTime (chain_of r)
unfolding chain_of
chain_of-InTime (ok p) = tt
chain_of-InTime (err e) = tt

fresh_enough-InTime : (now gen_utime limit : ℕ) → InTime (fresh_enough now gen_utime limit)
unfolding fresh_enough
fresh_enough-InTime now gen_utime limit =
    >>=-InTime (unless _ _) _ (unless-InTime _ _ tt) (λ u. unless-InTime _ _ tt)

conclude-InTime :
    (now limit : ℕ) (target : BlockIdExt) (complete : Bool) (proven : ProvenBlock)
    (anchor trusted : BlockIdExt) (walk : Walk)
    → InTime (conclude now limit target complete proven anchor trusted walk)
unfolding conclude
conclude-InTime now limit target true proven anchor trusted walk =
    >>=-InTime (unless _ _) _ (unless-InTime _ _ tt) (λ u.
      >>=-InTime (fresh_enough now proven.gen_utime limit) _
        (fresh_enough-InTime now proven.gen_utime limit) (λ v. tt))
conclude-InTime now limit target false proven anchor trusted walk =
    >>=-InTime (unless _ _) _ (unless-InTime _ _ tt) (λ u. tt)

pub judge-InTime :
    (proofs : Proofs) (now limit : ℕ) (target : BlockIdExt) (p : Progress)
    (reply : PartialBlockProof)
    → InTime (judge proofs now limit target p reply)
unfolding judge within_bounds advanced
judge-InTime proofs now limit target p reply =
    >>=-InTime (within_bounds reply) _
      (>>=-InTime (unless _ _) _ (unless-InTime _ _ tt) (λ u. within_steps-InTime reply.steps))
      (λ u.
        >>=-InTime ((round (length reply.steps) p.walk).0) _
          (round-InTime (length reply.steps) p.walk)
          (λ v.
            >>=-InTime (chain_of (verify_chain proofs (to_wire p.anchor) reply)) _
              (chain_of-InTime (verify_chain proofs (to_wire p.anchor) reply))
              (λ proven.
                >>=-InTime (advanced p.anchor (from_wire proven.id)) _ (unless-InTime _ _ tt) (λ w.
                  conclude-InTime now limit target reply.complete proven (from_wire proven.id)
                    (or_kept (last_key_block reply.steps) p.trusted_key_block)
                    (round (length reply.steps) p.walk).1))))
