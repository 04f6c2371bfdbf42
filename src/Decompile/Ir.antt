-- ===== src/Decompile/Ir.antt =====
-- dis86/src/decompile/ir: the intermediate representation.
pub mod Opcode
pub mod Def
pub mod Equality
pub mod BlockData
pub mod Methods
pub mod Value
pub mod Rewrite
pub mod Changed
pub mod Consts
pub mod Chain
pub mod Spliced
pub mod Insert
pub mod InsertBefore
pub mod Refine
pub mod Skip
mod Tests
