-- ===== src/Fat/Table.antt =====
-- fsFat12GetNextCluster of UoDOS/fs.c, on the table in memory.
mod Defs
mod Entries
unfoldable pub use Defs.*
unfoldable pub use Entries.*
