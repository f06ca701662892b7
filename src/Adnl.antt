-- ===== src/Adnl.antt =====
-- The session under the client: core/src/adnl.
pub mod Call
pub mod Connection
