-- ===== src/Lock.antt =====
-- UoDOS/spinlock.c and UoDOS/sleeplock.c.
mod Defs
mod Interrupts
mod Exclusion
mod Tests
unfoldable pub use Defs.*
pub use Interrupts.*
pub use Exclusion.*
