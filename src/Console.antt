-- ===== src/Console.antt =====
-- UoDOS/console.c: the line discipline of the console's input.
mod Defs
mod Editor
mod Ring
mod Actions
mod Interrupt
mod Read
mod Tests
unfoldable pub use Defs.*
pub use Editor.*
pub use Ring.*
pub use Actions.*
pub use Interrupt.*
pub use Read.*
