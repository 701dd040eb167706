-- ===== src/Files.antt =====
-- UoDOS/file.c, and the descriptors of UoDOS/sysfile.c.
mod Defs
mod Descriptors
mod Counts
mod Tests
unfoldable pub use Defs.*
unfoldable pub use Descriptors.*
unfoldable pub use Counts.*
