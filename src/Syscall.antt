-- ===== src/Syscall.antt =====
-- UoDOS/syscall.c: the arguments of a system call, and the call itself.
mod Defs
mod Bounds
mod Tests
unfoldable pub use Defs.*
pub use Bounds.*
