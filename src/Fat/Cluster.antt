-- ===== src/Fat/Cluster.antt =====
-- Reading the data of a cluster: fsFat12ReadCluster of UoDOS/fs.c.
mod Defs
mod Sectors
mod Linear
unfoldable pub use Defs.*
pub use Sectors.*
pub use Linear.*
