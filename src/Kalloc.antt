-- ===== src/Kalloc.antt =====
-- UoDOS/kalloc.c: the allocator of physical pages.
mod Defs
mod Chain
mod Range
mod Tests
unfoldable pub use Defs.*
pub use Chain.*
pub use Range.*
