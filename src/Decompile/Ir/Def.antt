-- ===== src/Decompile/Ir/Def.antt =====
-- dis86/src/decompile/ir/def.rs: the data of the intermediate representation. A constant is the 16
-- bits of its i16, a hash map a list of pairs. Symbols, types and function names, which no
-- operation here reads, are left out of `Ir`.
use Prim.Native.String.{String}
use text.Mathlib.Text.{◌==◌ as str_eq}
use dis.Prelude.{ℕ, Bool, true, false, ◌&&◌, ◌==◌, Option, List}
use dis.Asm.Instr.{Reg, discriminant}
use dis.Types.{DataType}
use dis.Decompile.Ir.Opcode.{Opcode}

-- dis86/src/decompile/sym.rs
pub data Table : Type 0 where
  param local global register : Table

-- The offset of the region is the 32 bits of its i32.
pub record SymbolRef : Type 0 where
  pub table : Table
  pub idx : ℕ
  pub off : ℕ
  pub sz : ℕ

pub data Ref : Type 0 where
  const : ℕ → Ref
  instr : ℕ → ℕ → Ref
  init : Reg → Ref
  block : ℕ → Ref
  symbol : SymbolRef → Ref
  func : ℕ → Ref

pub data Name : Type 0 where
  reg : Reg → Name
  var : String → Name

pub data CompareWidth : Type 0 where
  byte word : CompareWidth

pub record Instr : Type 0 where
  pub typ : DataType
  pub compare_width : Option CompareWidth
  pub attrs : ℕ
  pub opcode : Opcode
  pub operands : List Ref

-- dis86/src/decompile/ir/block_data.rs
pub record InstrLink : Type 0 where
  pub prev : Option Ref
  pub next : Option Ref

pub record InstrData : Type 0 where
  pub blkref : ℕ
  pub links : List InstrLink
  pub instrs : List Instr
  pub count : ℕ
  pub first : Option Ref
  pub last : Option Ref

pub record Block : Type 0 where
  pub name : String
  pub defs : List (Name × Ref)
  pub preds : List ℕ
  pub instr_data : InstrData
  pub sealed : Bool
  pub incomplete_phis : List (Name × Ref)

-- `blocks` has an empty place for each block that was removed.
pub record Ir : Type 0 where
  pub consts : List ℕ
  pub names : List (Ref × (Name × ℕ))
  pub name_next : List (Name × ℕ)
  pub blocks : List (Option Block)

-- The derived `==`.
unfoldable pub reg_eq : Reg → Reg → Bool
unfolding discriminant
reg_eq a b = discriminant a == discriminant b

unfoldable pub table_eq : Table → Table → Bool
table_eq param param = true
table_eq local local = true
table_eq global global = true
table_eq register register = true
table_eq _ _ = false

abbrev pub symbol_eq : SymbolRef → SymbolRef → Bool
symbol_eq a b = table_eq a.table b.table && a.idx == b.idx && a.off == b.off && a.sz == b.sz

unfoldable pub ref_eq : Ref → Ref → Bool
ref_eq (const a) (const b) = a == b
ref_eq (instr a i) (instr b j) = a == b && i == j
ref_eq (init a) (init b) = reg_eq a b
ref_eq (block a) (block b) = a == b
ref_eq (symbol a) (symbol b) = symbol_eq a b
ref_eq (func a) (func b) = a == b
ref_eq _ _ = false

unfoldable pub name_eq : Name → Name → Bool
name_eq (reg a) (reg b) = reg_eq a b
name_eq (var a) (var b) = str_eq a b
name_eq _ _ = false
