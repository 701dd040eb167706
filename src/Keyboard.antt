-- ===== src/Keyboard.antt =====
-- UoDOS/kbd.c: from scan codes to characters.
mod Tables
mod Defs
mod Modifiers
mod Typing
mod Tests
unfoldable pub use Tables.*
unfoldable pub use Defs.*
pub use Modifiers.*
pub use Typing.*
