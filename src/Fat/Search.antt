-- ===== src/Fat/Search.antt =====
-- Finding a file by its path: the searches in directories and fsFat12Open of UoDOS/fs.c.
mod Defs
mod Root
mod Tests
unfoldable pub use Defs.*
pub use Root.*
