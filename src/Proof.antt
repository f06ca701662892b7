-- ===== src/Proof.antt =====
-- Proof chains: core/src/proof and the wire types of core/src/tl that it reads.
pub mod Wire
pub mod Validators
pub mod Weight
pub mod Chain
