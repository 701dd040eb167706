-- ===== src/Clock.antt =====
-- cmosTime of UoDOS/lapic.c: the date from the real-time clock.
mod Defs
mod Time
mod Tests
unfoldable pub use Defs.*
