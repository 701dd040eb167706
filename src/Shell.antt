-- ===== src/Shell.antt =====
-- UoDOS/sh.c: the tokens and the parser of the shell's commands.
mod Defs
mod Parser
mod Tokens
mod Shrink
mod Fuel
mod Tests
unfoldable pub use Defs.*
unfoldable pub use Parser.*
pub use Tokens.*
pub use Shrink.*
pub use Fuel.*
