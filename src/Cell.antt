-- ===== src/Cell.antt =====
-- The cell engine, core/src/cell: cells and their identity, the builder and the reading cursor.
pub mod Error
pub mod Kind
pub mod Level
pub mod Identity
pub mod Hash
pub mod Types
pub mod Data
pub mod Builder
pub mod Slice
pub mod Assemble
pub mod Dict
