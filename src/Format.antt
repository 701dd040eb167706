-- ===== src/Format.antt =====
-- The printing of numbers and of formats: cprintf of UoDOS/console.c and printf of UoDOS/printf.c.
mod Defs
mod Digits
mod Tests
unfoldable pub use Defs.*
unfoldable pub use Digits.*
