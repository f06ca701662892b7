-- ===== src/Client.antt =====
-- The client of core/src/client.rs: its errors, and its walk to the head.
pub mod Error
pub mod Sync
