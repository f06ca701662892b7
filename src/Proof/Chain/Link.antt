-- ===== src/Proof/Chain/Link.antt =====
-- What a link that is accepted has established.
use mathlib.Core.Path.{subst}
use ton_net.Base.{
  ℕ, ◌*◌, ◌<◌, ◌≡◌, refl, Bool, true, false, not, ◌||◌, List, String, if◌then◌else◌, ◌==◌, arith,
}
use ton_net.Base.Result.{Result, ok, ◌>>◌, >>=-eq-ok}
use ton_net.Base.Int.{eq_ℤ, leb_ℤ, pattern_of}
use ton_net.Proof.Wire.{
  BlockIdExt, eq_block, eq_block→eq, eq_ℤ→eq, SignatureSet, signatures, BlockLink, back, forward,
  BlockError,
}
use ton_net.Proof.Validators.{ValidatorSet, carries}
use ton_net.Proof.Weight.{carried_weight}
use ton_net.Proof.Weight.Tally.{Tally, carried_weight-Tally}
use ton_net.Proof.Chain.{
  Header, ProvenBlock, Proofs, is_masterchain, refuse, signed_message, check_header, check_weight,
  verify_link,
}

-- The header is the one of the block that the link names, and of the kind that it says.
pub record Describes (header : Header) (to : BlockIdExt) (key : Bool) : Type 0 where
  pub seqno : header.seqno ≡ pattern_of 32 to.seqno
  pub workchain : header.workchain ≡ to.workchain
  pub shard : header.shard ≡ to.shard
  pub kind : header.key_block ≡ key

module _ (proofs : Proofs) where
  -- A forward link of the masterchain from `source` that moves to a higher block, whose header was
  -- proved under its root hash, and for which distinct members of the set that was proved under the
  -- root hash of `source` signed, with more than two thirds of its weight.
  pub record Leads (link : BlockLink) (source : BlockIdExt) (p : ProvenBlock) : Type 0 where
    pub key : Bool
    pub to : BlockIdExt
    pub dest_proof : List ℕ
    pub config_proof : List ℕ
    pub sigs : SignatureSet
    pub is_forward : link ≡ forward key source to dest_proof config_proof sigs
    pub source_chain : is_masterchain source ≡ true
    pub to_chain : is_masterchain to ≡ true
    pub higher : leb_ℤ to.seqno source.seqno ≡ false
    pub set : ValidatorSet
    pub set_proved : proofs.config_set config_proof source.root_hash ≡ ok set
    pub header : Header
    pub header_proved : proofs.header dest_proof to.root_hash ≡ ok header
    pub describes : Describes header to key
    pub message : List ℕ
    pub message_of : signed_message proofs sigs to ≡ ok message
    pub signers : List (List ℕ)
    pub weight : ℕ
    pub tally : Tally proofs.verify set message (signatures sigs) signers weight
    pub enough : set.total_weight * 2 < weight * 3
    pub result : p ≡ record { id = to; key_block = key; gen_utime = header.gen_utime }

pub refuse-ok :
    {A : Type 0} (b : Bool) (why : String) (m : Result BlockError A) (a : A)
    → (refuse b why >> m) ≡ ok a
    → (b ≡ false) × (m ≡ ok a)
unfolding refuse
refuse-ok true why m a h = absurd (cc h)
refuse-ok false why m a h = (refl, h)

refuse-passed : (b : Bool) (why : String) → refuse b why ≡ ok tt → b ≡ false
unfolding refuse
refuse-passed true why h = absurd (cc h)
refuse-passed false why h = refl

none_failed :
    (a b c : Bool) → (not a || (not b || not c)) ≡ false → (a ≡ true) × ((b ≡ true) × (c ≡ true))
none_failed a b c h = ground arith

both_hold : (a b : Bool) → (not a || not b) ≡ false → (a ≡ true) × (b ≡ true)
both_hold a b h = ground arith

same_kind : (a b : Bool) → (if a then not b else b) ≡ false → a ≡ b
same_kind a b h = ground arith

same_number : (a b : ℕ) → (a == b) ≡ true → a ≡ b
same_number a b h = ground arith

described :
    (header : Header) (to : BlockIdExt) (key : Bool)
    → ((header.seqno == pattern_of 32 to.seqno) ≡ true)
      × ((eq_ℤ header.workchain to.workchain ≡ true) × ((header.shard == to.shard) ≡ true))
    → (if header.key_block then not key else key) ≡ false
    → Describes header to key
described header to key (n, (w, s)) k = record {
  seqno = same_number header.seqno (pattern_of 32 to.seqno) n;
  workchain = eq_ℤ→eq header.workchain to.workchain w;
  shard = same_number header.shard to.shard s;
  kind = same_kind header.key_block key k;
}

check_header-ok :
    (header : Header) (to : BlockIdExt) (key : Bool)
    → check_header header to key ≡ ok tt
    → Describes header to key
unfolding check_header
check_header-ok header to key h =
    let first =
      refuse-ok
        (not (header.seqno == pattern_of 32 to.seqno)
          || (not (eq_ℤ header.workchain to.workchain) || not (header.shard == to.shard)))
        "has a destination header for a different block"
        (refuse (if header.key_block then not key else key)
          "has a destination that is not the kind of block the link says")
        tt h in
    described header to key
      (none_failed (header.seqno == pattern_of 32 to.seqno) (eq_ℤ header.workchain to.workchain)
        (header.shard == to.shard) (first.0))
      (refuse-passed (if header.key_block then not key else key)
        "has a destination that is not the kind of block the link says" (first.1))

pub not-false : (b : Bool) → not b ≡ false → b ≡ true
not-false b h = ground arith

check_weight-ok :
    (set : ValidatorSet) (w : ℕ) → check_weight set w ≡ ok tt → set.total_weight * 2 < w * 3
unfolding check_weight carries
check_weight-ok set w h = ground arith

returned :
    (key : Bool) (to : BlockIdExt) (header : Header) (p : ProvenBlock)
    → header.key_block ≡ key
    → ◌≡◌ {A = Result BlockError ProvenBlock}
        (ok (record { id = to; key_block = header.key_block; gen_utime = header.gen_utime }))
        (ok p)
    → p ≡ record { id = to; key_block = key; gen_utime = header.gen_utime }
returned key to header p k h = cc

module _ (proofs : Proofs) where
  weighed :
      (set : ValidatorSet) (message : List ℕ) (sigs : SignatureSet) (w : ℕ)
      → carried_weight proofs.verify set (signatures sigs) message ≡ ok w
      → check_weight set w ≡ ok tt
      → (ids : List (List ℕ)) × ((n : ℕ) × (Tally proofs.verify set message (signatures sigs) ids n
            × (set.total_weight * 2 < n * 3)))
  weighed set message sigs w h k =
      let t = carried_weight-Tally proofs.verify set (signatures sigs) message w h in
      (t.0, (w, (t.1, check_weight-ok set w k)))

  -- The parts of a link that was accepted, put together.
  established :
      (key : Bool) (source to : BlockIdExt) (dest_proof config_proof : List ℕ) (sigs : SignatureSet)
      (set : ValidatorSet) (header : Header) (message : List ℕ) (carried : ℕ) (p : ProvenBlock)
      → (is_masterchain source ≡ true) × (is_masterchain to ≡ true)
      → leb_ℤ to.seqno source.seqno ≡ false
      → proofs.config_set config_proof source.root_hash ≡ ok set
      → proofs.header dest_proof to.root_hash ≡ ok header
      → check_header header to key ≡ ok tt
      → signed_message proofs sigs to ≡ ok message
      → carried_weight proofs.verify set (signatures sigs) message ≡ ok carried
      → check_weight set carried ≡ ok tt
      → ◌≡◌ {A = Result BlockError ProvenBlock}
          (ok (record { id = to; key_block = header.key_block; gen_utime = header.gen_utime }))
          (ok p)
      → Leads proofs (forward key source to dest_proof config_proof sigs) source p
  established key source to dest_proof config_proof sigs set header message carried p chains higher
        set_proved header_proved checked message_of counted enough result =
      let described = check_header-ok header to key checked in
      let w = weighed set message sigs carried counted enough in
      record {
        key = key;
        to = to;
        dest_proof = dest_proof;
        config_proof = config_proof;
        sigs = sigs;
        is_forward = refl;
        source_chain = chains.0;
        to_chain = chains.1;
        higher = higher;
        set = set;
        set_proved = set_proved;
        header = header;
        header_proved = header_proved;
        describes = described;
        message = message;
        message_of = message_of;
        signers = w.0;
        weight = w.1.0;
        tally = w.1.1.0;
        enough = w.1.1.1;
        result = returned key to header p described.kind result;
      }

  -- A link that `verify_link` accepts leads from the given block to the block it returns: it is
  -- a forward link of the masterchain to a higher block, whose header was proved under its root
  -- hash and agrees with the link, and distinct members of the set that was proved under the
  -- root hash of the given block signed, with more than two thirds of the weight of the set.
  pub verify_link-Leads :
      (link : BlockLink) (source : BlockIdExt) (p : ProvenBlock)
      → verify_link proofs link source ≡ ok p
      → Leads proofs link source p
  unfolding verify_link
  verify_link-Leads (back key source to dest_proof proof state_proof) start p h = absurd (cc h)
  verify_link-Leads (forward key source to dest_proof config_proof sigs) start p h =
      let a = refuse-ok (not (eq_block source start)) _ _ p h in
      let b = refuse-ok (not (is_masterchain source) || not (is_masterchain to)) _ _ p (a.1) in
      let c = refuse-ok (leb_ℤ to.seqno source.seqno) _ _ p (b.1) in
      let d = >>=-eq-ok (proofs.config_set config_proof source.root_hash) _ (c.1) in
      let e = >>=-eq-ok (proofs.header dest_proof to.root_hash) _ (d.2) in
      let f = >>=-eq-ok (check_header (e.0) to key) _ (e.2) in
      let g = >>=-eq-ok (signed_message proofs sigs to) _ (f.2) in
      let i = >>=-eq-ok (carried_weight proofs.verify (d.0) (signatures sigs) (g.0)) _ (g.2) in
      let j = >>=-eq-ok (check_weight (d.0) (i.0)) _ (i.2) in
      subst (λ start. Leads proofs (forward key source to dest_proof config_proof sigs) start p)
        (eq_block→eq source start (not-false (eq_block source start) (a.0)))
        (established key source to dest_proof config_proof sigs (d.0) (e.0) (g.0) (i.0) p
          (both_hold (is_masterchain source) (is_masterchain to) (b.0)) (c.0) (d.1) (e.1) (f.1)
          (g.1) (i.1) (j.1) (j.2))
