-- ===== src/Str.antt =====
-- UoDOS/string.c. `Block` has the functions that work on memory by address (memset, memcmp,
-- memmove), `Text` those on NUL-terminated text.
pub mod Block
pub mod Text
mod Tests
