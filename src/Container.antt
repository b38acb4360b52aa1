-- ===== src/Container.antt =====
-- The backtrackable containers of src/dreal/util: what `push` saved, `pop` brings back.
pub mod ScopedVector
pub mod ScopedMap
pub mod ScopedSet
