-- ===== src/Sysfile.antt =====
-- UoDOS/sysfile.c: the system calls that open, read and write files.
mod Defs
mod Slots
mod Ends
mod Pair
mod Paths
mod Mode
mod Directory
mod Tests
unfoldable pub use Defs.*
unfoldable pub use Paths.*
