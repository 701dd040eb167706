-- ===== src/Trap.antt =====
-- UoDOS/trap.c: interrupts, faults and the way into a system call.
mod Defs
mod Killed
mod Tests
unfoldable pub use Defs.*
pub use Killed.*
