-- ===== src/Sysproc.antt =====
-- UoDOS/sysproc.c: the system calls on processes.
mod Defs
mod Grow
mod Tests
unfoldable pub use Defs.*
pub use Grow.*
