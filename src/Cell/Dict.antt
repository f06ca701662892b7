-- ===== src/Cell/Dict.antt =====
-- The dictionaries of core/src/cell/dict.rs and its folder: the labels of the edges, the walks
-- over a tree of cells, the plain dictionary, and what it means as a map.
pub mod Label
pub mod Key
pub mod Shape
pub mod Walk
pub mod Plain
pub mod Trie
pub mod Node
pub mod Lookups
pub mod Builds
pub mod Changes
pub mod Maps
pub mod Iter
pub mod Iters
pub mod Packed
