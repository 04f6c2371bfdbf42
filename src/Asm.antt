-- ===== src/Asm.antt =====
-- dis86/src/asm: instructions, the instruction table, branches and the decoder.
pub mod Instr
pub mod InstrFmt
pub mod Branch
pub mod IntelSyntax
pub mod Operands
pub mod Decode
pub mod Decoder
