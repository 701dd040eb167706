-- ===== src/Fat.antt =====
-- UoDOS/fs.c: the FAT12 file system.
pub mod Mount
pub mod Table
pub mod Name
pub mod Cluster
pub mod Reading
pub mod Search
mod Tests
