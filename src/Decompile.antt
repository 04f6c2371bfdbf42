-- ===== src/Decompile.antt =====
-- dis86/src/decompile: the intermediate representation and its optimisation.
pub mod Ir
pub mod Opt
