-- ===== src/Vm.antt =====
-- UoDOS/vm.c: page tables and the memory of processes.
mod Access
mod Defs
mod User
mod Words
mod Directory
mod Entry
pub mod Step
mod Range
mod Fuel
mod Translate
mod Take
mod Spare
pub mod Growth
pub mod Grow
pub mod Sample
mod Tests
unfoldable pub use Access.*
unfoldable pub use Defs.*
unfoldable pub use User.*
