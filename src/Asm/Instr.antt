-- ===== src/Asm/Instr.antt =====
-- dis86/src/asm/instr.rs and dis86/src/util/arrayvec.rs: registers, operands and instructions.
pub mod Regs
mod Tests
use Prim.Native.String.{String}
use text.Mathlib.Text.{◌==◌ as str_eq}
use dis.Prelude.{
  ℕ, ◌+◌, Bool, true, false, not, Option, none, some, List, [], ◌∷◌, ◌++◌, leb, if◌then◌else◌,
  length, get_elem?,
}
use dis.Result.{
  Result, ok, panic, from_option, reg_out_of_range, sreg_out_of_range, capacity_overflow,
  index_out_of_range,
}
use dis.SegOff.{SegOff, add_offset}
use dis.Asm.InstrFmt.{Opcode, op_ret, op_retf, op_iret, op_jmp, op_jmpf, op_hlt}

pub data Size : Type 0 where
  size8 size16 size32 : Size

pub data Rep : Type 0 where
  ne eq : Rep

pub data Reg : Type 0 where
  ax cx dx bx sp bp si di al cl dl bl ah ch dh bh es cs ss ds ip flags : Reg

-- The registers by discriminant, in the order of the declaration.
abbrev pub regs : List Reg
regs =
    ax ∷ cx ∷ dx ∷ bx ∷ sp ∷ bp ∷ si ∷ di ∷ al ∷ cl ∷ dl ∷ bl ∷ ah ∷ ch ∷ dh ∷ bh ∷ es ∷ cs ∷ ss
    ∷ ds ∷ ip ∷ flags ∷ []

-- `self as u8`
unfoldable pub discriminant : Reg → ℕ
discriminant ax = 0
discriminant cx = 1
discriminant dx = 2
discriminant bx = 3
discriminant sp = 4
discriminant bp = 5
discriminant si = 6
discriminant di = 7
discriminant al = 8
discriminant cl = 9
discriminant dl = 10
discriminant bl = 11
discriminant ah = 12
discriminant ch = 13
discriminant dh = 14
discriminant bh = 15
discriminant es = 16
discriminant cs = 17
discriminant ss = 18
discriminant ds = 19
discriminant ip = 20
discriminant flags = 21

-- `assert!(num <= 7); transmute(Reg::AL as u8 + num)`
unfoldable pub reg8 : ℕ → Result Reg
unfolding discriminant
reg8 num =
    if leb num 7
    then from_option reg_out_of_range (get_elem? regs (discriminant al + num))
    else panic reg_out_of_range

unfoldable pub reg16 : ℕ → Result Reg
unfolding discriminant
reg16 num =
    if leb num 7
    then from_option reg_out_of_range (get_elem? regs (discriminant ax + num))
    else panic reg_out_of_range

unfoldable pub sreg16 : ℕ → Result Reg
unfolding discriminant
sreg16 num =
    if leb num 3
    then from_option reg_out_of_range (get_elem? regs (discriminant es + num))
    else panic sreg_out_of_range

-- `Reg::name`
unfoldable pub reg_name : Reg → String
reg_name ax = "ax"
reg_name cx = "cx"
reg_name dx = "dx"
reg_name bx = "bx"
reg_name sp = "sp"
reg_name bp = "bp"
reg_name si = "si"
reg_name di = "di"
reg_name al = "al"
reg_name cl = "cl"
reg_name dl = "dl"
reg_name bl = "bl"
reg_name ah = "ah"
reg_name ch = "ch"
reg_name dh = "dh"
reg_name bh = "bh"
reg_name es = "es"
reg_name cs = "cs"
reg_name ss = "ss"
reg_name ds = "ds"
reg_name ip = "ip"
reg_name flags = "flags"

pub record RegInfo : Type 0 where
  pub name : String
  pub sz : Size
  pub seg : Bool

abbrev reg_info_row : String → Size → Bool → RegInfo
reg_info_row name sz seg = record { name = name; sz = sz; seg = seg }

-- `REG_INFO`
abbrev pub reg_info_tbl : List RegInfo
reg_info_tbl =
    reg_info_row "AX" size16 false
    ∷ reg_info_row "CX" size16 false
    ∷ reg_info_row "DX" size16 false
    ∷ reg_info_row "BX" size16 false
    ∷ reg_info_row "SP" size16 false
    ∷ reg_info_row "BP" size16 false
    ∷ reg_info_row "SI" size16 false
    ∷ reg_info_row "DI" size16 false
    ∷ reg_info_row "AL" size8 false
    ∷ reg_info_row "CL" size8 false
    ∷ reg_info_row "DL" size8 false
    ∷ reg_info_row "BL" size8 false
    ∷ reg_info_row "AH" size8 false
    ∷ reg_info_row "CH" size8 false
    ∷ reg_info_row "DH" size8 false
    ∷ reg_info_row "BH" size8 false
    ∷ reg_info_row "ES" size16 true
    ∷ reg_info_row "CS" size16 true
    ∷ reg_info_row "SS" size16 true
    ∷ reg_info_row "DS" size16 true
    ∷ reg_info_row "IP" size16 false
    ∷ reg_info_row "FLAGS" size16 false
    ∷ []

-- `Reg::info`: the row at the discriminant.
unfoldable pub info : Reg → Result RegInfo
unfolding discriminant
info r = from_option index_out_of_range (get_elem? reg_info_tbl (discriminant r))

unfoldable pub from_str_upper : String → Option Reg
from_str_upper s =
    if str_eq s "AX"
    then some ax
    else if str_eq s "CX"
    then some cx
    else if str_eq s "DX"
    then some dx
    else if str_eq s "BX"
    then some bx
    else if str_eq s "SP"
    then some sp
    else if str_eq s "BP"
    then some bp
    else if str_eq s "SI"
    then some si
    else if str_eq s "DI"
    then some di
    else if str_eq s "AL"
    then some al
    else if str_eq s "CL"
    then some cl
    else if str_eq s "DL"
    then some dl
    else if str_eq s "BL"
    then some bl
    else if str_eq s "AH"
    then some ah
    else if str_eq s "CH"
    then some ch
    else if str_eq s "DH"
    then some dh
    else if str_eq s "BH"
    then some bh
    else if str_eq s "ES"
    then some es
    else if str_eq s "CS"
    then some cs
    else if str_eq s "SS"
    then some ss
    else if str_eq s "DS"
    then some ds
    else if str_eq s "IP"
    then some ip
    else if str_eq s "FLAGS"
    then some flags
    else none

pub record OperandMem : Type 0 where
  pub sz : Size
  pub sreg : Reg
  pub reg1 : Option Reg
  pub reg2 : Option Reg
  pub off : Option ℕ

-- The payloads of `OperandReg`, `OperandImm`, `OperandRel` and `OperandFar` are the arguments.
pub data Operand : Type 0 where
  reg : Reg → Operand
  mem : OperandMem → Operand
  imm : Size → ℕ → Operand
  rel : ℕ → Operand
  far : ℕ → ℕ → Operand

pub record Instr : Type 0 where
  pub rep : Option Rep
  pub opcode : Opcode
  pub operands : List Operand
  pub addr : SegOff
  pub n_bytes : ℕ
  pub intel_hidden_operand_bitmask : ℕ

unfoldable pub instr_end_addr : Instr → SegOff
instr_end_addr i = add_offset i.addr i.n_bytes

unfoldable pub rel_addr : Instr → ℕ → SegOff
unfolding instr_end_addr
rel_addr i val = add_offset (instr_end_addr i) val

unfoldable pub has_fallthrough : Opcode → Bool
has_fallthrough op_ret = false
has_fallthrough op_retf = false
has_fallthrough op_iret = false
has_fallthrough op_jmp = false
has_fallthrough op_jmpf = false
has_fallthrough op_hlt = false
has_fallthrough _ = true

-- `ArrayVec<Operand, 3>`: its valid elements as a list.
unfoldable pub push : List Operand → Operand → Result (List Operand)
push v obj = if leb 3 (length v) then panic capacity_overflow else ok (v ++ obj ∷ [])
