-- ===== src/Task.antt =====
-- The life of processes in UoDOS/proc.c: from allocateProcess and fork to exit and wait.
pub mod Machine
mod Family
mod Create
mod Slots
mod Child
mod Missed
mod Orphans
mod Handover
mod Waiting
mod Tests
unfoldable pub use Machine.*
unfoldable pub use Family.*
unfoldable pub use Create.*
