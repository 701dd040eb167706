-- ===== src/Bio.antt =====
-- UoDOS/bio.c: the buffer cache.
mod Defs
mod Ring
mod Release
mod Start
mod Get
mod Choice
mod Tests
unfoldable pub use Defs.*
pub use Ring.{Links, IsRing}
pub use Release.*
pub use Start.*
pub use Get.*
