-- ===== src/Ulib.antt =====
-- UoDOS/ulib.c: the library of the user programs.
mod Defs
mod Numbers
mod Input
mod Tests
unfoldable pub use Defs.*
