-- ===== src/Asm/IntelSyntax.antt =====
-- dis86/src/asm/intel_syntax.rs: the text of an instruction, as the list of its bytes. Writing to
-- a `String` does not fail.
pub mod Laws
mod Tests
use Prim.Native.String.{String}
use dis.Prelude.{
  ℕ, zero, suc, ◌+◌, ◌-◌, ◌*◌, ◌/◌, ◌%◌, ◌^◌, Bool, true, false, not, ◌&&◌, ◌||◌, Option, none,
  some, List, [], ◌∷◌, ◌++◌, ltb, leb, ◌==◌, if◌then◌else◌, length,
}
use dis.SegOff.{SegOff}
use dis.SegOff.Text.{bytes, hex_char, to_string}
use dis.Asm.InstrFmt.Names.{opcode_name}
use dis.Asm.Instr.{
  Size, size8, size16, size32, Rep, Reg, OperandMem, Operand, Instr, reg, mem, imm, rel, far,
  reg_name, rel_addr,
}

-- `{:x}` of a u16: the digits without zeros in front.
unfoldable pub hex : ℕ → List ℕ
hex n =
    if ltb n 16
    then hex_char n ∷ []
    else if ltb n 256
    then hex_char (n / 16) ∷ hex_char (n % 16) ∷ []
    else if ltb n 4096
    then hex_char (n / 256) ∷ hex_char (n / 16 % 16) ∷ hex_char (n % 16) ∷ []
    else hex_char (n / 4096)
      ∷ hex_char (n / 256 % 16)
      ∷ hex_char (n / 16 % 16)
      ∷ hex_char (n % 16)
      ∷ []

abbrev pub hex_0x : ℕ → List ℕ
hex_0x n = bytes "0x" ++ hex n

-- `{:02x} ` of each byte
unfoldable pub hex_bytes : List ℕ → List ℕ
hex_bytes [] = []
hex_bytes (b ∷ bs) = hex_char (b / 16) ∷ hex_char (b % 16) ∷ b' ' ∷ hex_bytes bs

unfoldable pub spaces : ℕ → List ℕ
spaces zero = []
spaces (suc n) = b' ' ∷ spaces n

-- `{:<5}`
unfoldable pub pad_5 : List ℕ → List ℕ
pad_5 s = s ++ spaces (5 - length s)

abbrev pub name_of : Reg → List ℕ
name_of r = bytes (reg_name r)

abbrev pub size_text : Size → List ℕ
size_text size8 = bytes "BYTE PTR "
size_text size16 = bytes "WORD PTR "
size_text size32 = bytes "DWORD PTR "

abbrev pub base_text : Option Reg → List ℕ
base_text none = []
base_text (some r) = name_of r

abbrev pub index_text : Option Reg → List ℕ
index_text none = []
index_text (some r) = b'+' ∷ name_of r

-- The displacement as a signed 16-bit number. The negation of -0x8000 wraps, as it does in a build
-- without overflow checks; with them it panics.
unfoldable pub disp_text : Option ℕ → List ℕ
disp_text none = []
disp_text (some disp) =
    if ltb disp (2 ^ 15) then b'+' ∷ hex_0x disp else b'-' ∷ hex_0x (2 ^ 16 - disp)

abbrev pub direct_text : Option ℕ → List ℕ
direct_text none = []
direct_text (some off) = hex_0x off

abbrev pub is_none : Option Reg → Bool
is_none none = true
is_none (some _) = false

unfoldable pub format_mem : OperandMem → List ℕ
format_mem o =
    size_text o.sz
    ++ name_of o.sreg
    ++ b':'
      ∷ (if is_none o.reg1 && is_none o.reg2
          then direct_text o.off
          else b'[' ∷ base_text o.reg1 ++ index_text o.reg2 ++ disp_text o.off ++ b']' ∷ [])

unfoldable pub format_operand : Instr → Operand → List ℕ
format_operand ins (reg r) = name_of r
format_operand ins (mem m) = format_mem m
format_operand ins (imm sz val) = hex_0x val
format_operand ins (rel val) = hex_0x (rel_addr ins val).off
format_operand ins (far seg off) = hex_0x seg ++ b':' ∷ hex_0x off

-- `(1u8 << i) & mask != 0`
abbrev pub hidden_bit : ℕ → ℕ → Bool
hidden_bit i mask = mask / 2 ^ i % 2 == 1

-- The loop over the operands: `i` is the index of the next one.
unfoldable pub format_operands : Instr → ℕ → Bool → List Operand → List ℕ
format_operands ins i first [] = []
format_operands ins i first (o ∷ os) =
    let skipped = format_operands ins (suc i) first os in
    let shown = format_operands ins (suc i) false os in
    if hidden_bit i ins.intel_hidden_operand_bitmask
    then skipped
    else (if first then bytes "  " else bytes ",") ++ format_operand ins o ++ shown

abbrev pub rep_text : Option Rep → List ℕ
rep_text none = []
rep_text (some Rep.ne) = bytes "repne "
rep_text (some Rep.eq) = bytes "rep "

-- The address, the bytes and the space up to the column of the instruction.
unfoldable pub detail : SegOff → List ℕ → ℕ → List ℕ
detail addr raw n_bytes =
    to_string addr
    ++ b':' ∷ 9 ∷ hex_bytes raw
    ++ spaces (if leb (n_bytes * 3) 21 then 21 - n_bytes * 3 else 0)
    ++ 9 ∷ []

unfoldable pub format_instr_impl : Instr → List ℕ → Bool → List ℕ
format_instr_impl ins raw with_detail =
    (if with_detail then detail ins.addr raw ins.n_bytes else [])
    ++ rep_text ins.rep
    ++ pad_5 (bytes (opcode_name ins.opcode))
    ++ format_operands ins 0 true ins.operands

unfoldable pub format_data_impl : SegOff → List ℕ → Bool → List ℕ
format_data_impl addr raw with_detail =
    (if with_detail then detail addr raw (length raw) else []) ++ bytes "(data)"

-- The ASCII characters that `trim_end` takes off; the text has no others.
unfoldable pub is_whitespace : ℕ → Bool
is_whitespace c = c == b' ' || (leb 9 c && leb c 13)

abbrev pub trim_cons : ℕ → List ℕ → List ℕ
trim_cons c [] = if is_whitespace c then [] else c ∷ []
trim_cons c (d ∷ ds) = c ∷ d ∷ ds

unfoldable pub trim_end : List ℕ → List ℕ
trim_end [] = []
trim_end (c ∷ cs) = trim_cons c (trim_end cs)

unfoldable pub format : SegOff → Option Instr → List ℕ → Bool → List ℕ
format addr (some ins) raw with_detail = trim_end (format_instr_impl ins raw with_detail)
format addr none raw with_detail = trim_end (format_data_impl addr raw with_detail)

unfoldable pub instr_str : Instr → List ℕ
instr_str ins = format ins.addr (some ins) [] false
