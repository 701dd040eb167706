-- ===== src/Mp.antt =====
-- UoDOS/mp.c: the tables of the BIOS that name the processors.
mod Defs
mod Floating
mod Entries
mod Start
mod Tests
unfoldable pub use Defs.*
pub use Floating.*
pub use Entries.*
pub use Start.*
