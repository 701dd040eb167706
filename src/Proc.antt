-- ===== src/Proc.antt =====
-- UoDOS/proc.h and UoDOS/proc.c: the process table.
mod Defs
mod Wake
mod Kill
mod Tests
unfoldable pub use Defs.*
pub use Wake.*
pub use Kill.*
