-- ===== src/Fat/Reading.antt =====
-- Reading a file through its chain of clusters: fsFat12Read of UoDOS/fs.c.
mod Defs
mod Chain
unfoldable pub use Defs.*
pub use Chain.*
