-- ===== src/Asm/InstrFmt.antt =====
-- dis86/src/asm/instr_fmt.rs: the instruction formats, their table and its search.
pub mod Types
mod Row
pub mod Table
pub mod Names
pub mod Lookup
pub mod Checks
pub mod Shape
mod Tests
unfoldable pub use Types.*
