-- ===== src/Examples.antt =====
-- The claims at concrete inputs.
pub mod Chains
pub mod Sets
pub mod Walks
pub mod Sessions
pub mod Deadlines
pub mod Cells
pub mod Labels
pub mod Dicts
