-- ===== src/Utils.antt =====
-- The utilities of utils/: the bounded window, and (below) the arena.
pub mod FixedWindow
pub mod ArenaAllocator
pub mod SimdSort
mod Tests
