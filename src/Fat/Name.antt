-- ===== src/Fat/Name.antt =====
-- The names of UoDOS/fs.c: toDosFileName and fsGetPathPart.
mod Defs
mod Dos
mod Part
unfoldable pub use Defs.*
pub use Dos.*
pub use Part.*
