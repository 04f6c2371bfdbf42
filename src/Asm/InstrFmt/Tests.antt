-- ===== src/Asm/InstrFmt/Tests.antt =====
-- The theorems on the table of dis86/src/asm/instr_fmt.rs at rows of it.
use dis.Prelude.{◌≡◌, refl, true, none, some, ◌==◌, if◌then◌else◌, arith}
use dis.Asm.InstrFmt.Types.{
  InstrFmt, requires_modrm, op_mov, op_cmp, oper_sreg, oper_rm16, oper_rm8, oper_imm8, oper_none,
}
use dis.Asm.InstrFmt.Row.{row as fmt}
use dis.Asm.InstrFmt.Table.{instr_tbl}
use dis.Asm.InstrFmt.Lookup.{lookup, fmt_ok}
use dis.Asm.InstrFmt.Checks.{InTable, IsFound, lookup-IsFound, lookup-InTable}
use dis.Asm.InstrFmt.Shape.{
  answer, extended, group, row, is_group, lookup_first, requires_modrm-lookup,
}

abbrev mov_sreg : InstrFmt
mov_sreg = fmt op_mov 0x8e none oper_sreg oper_rm16 oper_none 0x0

abbrev cmp_imm8 : InstrFmt
cmp_imm8 = fmt op_cmp 0x80 (some 7) oper_rm8 oper_imm8 oper_none 0x0

mov_sreg_found : lookup 0x8e none ≡ fmt_ok mov_sreg
unfolding lookup instr_tbl
mov_sreg_found = refl

cmp_imm8_found : lookup 0x80 (some 7) ≡ fmt_ok cmp_imm8
unfolding lookup instr_tbl
cmp_imm8_found = refl

lookup-IsFound_example : IsFound instr_tbl 0x8e none mov_sreg
lookup-IsFound_example = lookup-IsFound 0x8e none mov_sreg mov_sreg_found

mov_sreg_row : InTable mov_sreg instr_tbl
mov_sreg_row = (lookup-IsFound 0x8e none mov_sreg mov_sreg_found).in_table

lookup-InTable_example : lookup 0x8e none ≡ fmt_ok mov_sreg
lookup-InTable_example = lookup-InTable mov_sreg mov_sreg_row

requires_modrm-lookup_example : requires_modrm cmp_imm8 ≡ true
requires_modrm-lookup_example = requires_modrm-lookup 0x80 7 cmp_imm8 cmp_imm8_found

lookup_first_example :
    answer (lookup 0xf7 none)
    ≡ (if 0xf7 == 0x0f then extended else if is_group 0xf7 then group else row)
lookup_first_example = lookup_first 0xf7 (omega arith)
