-- ===== src/Pipe.antt =====
-- UoDOS/pipe.c: pipes.
mod Defs
mod Queue
mod Steps
mod Stream
mod Runs
mod Wakeups
mod Tests
unfoldable pub use Defs.*
pub use Queue.*
pub use Stream.*
pub use Runs.*
pub use Wakeups.*
