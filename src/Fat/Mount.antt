-- ===== src/Fat/Mount.antt =====
-- fsFat12Initialise of UoDOS/fs.c: the mount information and the table read into memory.
mod Defs
mod Load
unfoldable pub use Defs.*
pub use Load.*
