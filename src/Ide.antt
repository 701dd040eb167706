-- ===== src/Ide.antt =====
-- UoDOS/ide.c: the queue of the disk driver.
mod Defs
mod Queue
mod Request
mod Finish
mod Tests
unfoldable pub use Defs.*
pub use Queue.*
pub use Request.*
pub use Finish.*
