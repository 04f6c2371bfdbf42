-- ===== src/Asm/InstrFmt/Table/Rows0.antt =====
-- The instruction table from opcode 0x00 to 0x3f.
use dis.Prelude.{none, some, List, [], ◌∷◌}
use dis.Asm.InstrFmt.Row.{row}
use dis.Asm.InstrFmt.Types.{
  InstrFmt, op_aaa, op_aas, op_adc, op_add, op_and, op_cmp, op_daa, op_das, op_inval, op_or, op_pop,
  op_push, op_sbb, op_seta, op_setae, op_setb, op_setbe, op_sete, op_setg, op_setge, op_setl,
  op_setle, op_setne, op_setno, op_setnp, op_setns, op_seto, op_setp, op_sets, op_sub, op_xor,
  oper_ah, oper_al, oper_ax, oper_cs, oper_ds, oper_es, oper_imm16, oper_imm8, oper_none, oper_r16,
  oper_r8, oper_rm16, oper_rm8, oper_ss,
}

-- opcodes 0x00 to 0x0f
unfoldable pub rows_00 : List InstrFmt
rows_00 =
    row op_add 0x00 none oper_rm8 oper_r8 oper_none 0x0
    ∷ row op_add 0x01 none oper_rm16 oper_r16 oper_none 0x0
    ∷ row op_add 0x02 none oper_r8 oper_rm8 oper_none 0x0
    ∷ row op_add 0x03 none oper_r16 oper_rm16 oper_none 0x0
    ∷ row op_add 0x04 none oper_al oper_imm8 oper_none 0x0
    ∷ row op_add 0x05 none oper_ax oper_imm16 oper_none 0x0
    ∷ row op_push 0x06 none oper_es oper_none oper_none 0x0
    ∷ row op_pop 0x07 none oper_es oper_none oper_none 0x0
    ∷ row op_or 0x08 none oper_rm8 oper_r8 oper_none 0x0
    ∷ row op_or 0x09 none oper_rm16 oper_r16 oper_none 0x0
    ∷ row op_or 0x0a none oper_r8 oper_rm8 oper_none 0x0
    ∷ row op_or 0x0b none oper_r16 oper_rm16 oper_none 0x0
    ∷ row op_or 0x0c none oper_al oper_imm8 oper_none 0x0
    ∷ row op_or 0x0d none oper_ax oper_imm16 oper_none 0x0
    ∷ row op_push 0x0e none oper_cs oper_none oper_none 0x0
    ∷ row op_seto 0x0f (some 0x90) oper_rm8 oper_none oper_none 0x0
    ∷ row op_setno 0x0f (some 0x91) oper_rm8 oper_none oper_none 0x0
    ∷ row op_setb 0x0f (some 0x92) oper_rm8 oper_none oper_none 0x0
    ∷ row op_setae 0x0f (some 0x93) oper_rm8 oper_none oper_none 0x0
    ∷ row op_sete 0x0f (some 0x94) oper_rm8 oper_none oper_none 0x0
    ∷ row op_setne 0x0f (some 0x95) oper_rm8 oper_none oper_none 0x0
    ∷ row op_setbe 0x0f (some 0x96) oper_rm8 oper_none oper_none 0x0
    ∷ row op_seta 0x0f (some 0x97) oper_rm8 oper_none oper_none 0x0
    ∷ row op_sets 0x0f (some 0x98) oper_rm8 oper_none oper_none 0x0
    ∷ row op_setns 0x0f (some 0x99) oper_rm8 oper_none oper_none 0x0
    ∷ row op_setp 0x0f (some 0x9a) oper_rm8 oper_none oper_none 0x0
    ∷ row op_setnp 0x0f (some 0x9b) oper_rm8 oper_none oper_none 0x0
    ∷ row op_setl 0x0f (some 0x9c) oper_rm8 oper_none oper_none 0x0
    ∷ row op_setge 0x0f (some 0x9d) oper_rm8 oper_none oper_none 0x0
    ∷ row op_setle 0x0f (some 0x9e) oper_rm8 oper_none oper_none 0x0
    ∷ row op_setg 0x0f (some 0x9f) oper_rm8 oper_none oper_none 0x0
    ∷ []

-- opcodes 0x10 to 0x1f
unfoldable pub rows_10 : List InstrFmt
rows_10 =
    row op_adc 0x10 none oper_rm8 oper_r8 oper_none 0x0
    ∷ row op_adc 0x11 none oper_rm16 oper_r16 oper_none 0x0
    ∷ row op_adc 0x12 none oper_r8 oper_rm8 oper_none 0x0
    ∷ row op_adc 0x13 none oper_r16 oper_rm16 oper_none 0x0
    ∷ row op_adc 0x14 none oper_al oper_imm8 oper_none 0x0
    ∷ row op_adc 0x15 none oper_ax oper_imm16 oper_none 0x0
    ∷ row op_push 0x16 none oper_ss oper_none oper_none 0x0
    ∷ row op_pop 0x17 none oper_ss oper_none oper_none 0x0
    ∷ row op_sbb 0x18 none oper_rm8 oper_r8 oper_none 0x0
    ∷ row op_sbb 0x19 none oper_rm16 oper_r16 oper_none 0x0
    ∷ row op_sbb 0x1a none oper_r8 oper_rm8 oper_none 0x0
    ∷ row op_sbb 0x1b none oper_r16 oper_rm16 oper_none 0x0
    ∷ row op_sbb 0x1c none oper_al oper_imm8 oper_none 0x0
    ∷ row op_sbb 0x1d none oper_ax oper_imm16 oper_none 0x0
    ∷ row op_push 0x1e none oper_ds oper_none oper_none 0x0
    ∷ row op_pop 0x1f none oper_ds oper_none oper_none 0x0
    ∷ []

-- opcodes 0x20 to 0x2f
unfoldable pub rows_20 : List InstrFmt
rows_20 =
    row op_and 0x20 none oper_rm8 oper_r8 oper_none 0x0
    ∷ row op_and 0x21 none oper_rm16 oper_r16 oper_none 0x0
    ∷ row op_and 0x22 none oper_r8 oper_rm8 oper_none 0x0
    ∷ row op_and 0x23 none oper_r16 oper_rm16 oper_none 0x0
    ∷ row op_and 0x24 none oper_al oper_imm8 oper_none 0x0
    ∷ row op_and 0x25 none oper_ax oper_imm16 oper_none 0x0
    ∷ row op_inval 0x26 none oper_none oper_none oper_none 0x0
    ∷ row op_daa 0x27 none oper_al oper_none oper_none 0x0
    ∷ row op_sub 0x28 none oper_rm8 oper_r8 oper_none 0x0
    ∷ row op_sub 0x29 none oper_rm16 oper_r16 oper_none 0x0
    ∷ row op_sub 0x2a none oper_r8 oper_rm8 oper_none 0x0
    ∷ row op_sub 0x2b none oper_r16 oper_rm16 oper_none 0x0
    ∷ row op_sub 0x2c none oper_al oper_imm8 oper_none 0x0
    ∷ row op_sub 0x2d none oper_ax oper_imm16 oper_none 0x0
    ∷ row op_inval 0x2e none oper_none oper_none oper_none 0x0
    ∷ row op_das 0x2f none oper_al oper_none oper_none 0x0
    ∷ []

-- opcodes 0x30 to 0x3f
unfoldable pub rows_30 : List InstrFmt
rows_30 =
    row op_xor 0x30 none oper_rm8 oper_r8 oper_none 0x0
    ∷ row op_xor 0x31 none oper_rm16 oper_r16 oper_none 0x0
    ∷ row op_xor 0x32 none oper_r8 oper_rm8 oper_none 0x0
    ∷ row op_xor 0x33 none oper_r16 oper_rm16 oper_none 0x0
    ∷ row op_xor 0x34 none oper_al oper_imm8 oper_none 0x0
    ∷ row op_xor 0x35 none oper_ax oper_imm16 oper_none 0x0
    ∷ row op_inval 0x36 none oper_none oper_none oper_none 0x0
    ∷ row op_aaa 0x37 none oper_al oper_ah oper_none 0x0
    ∷ row op_cmp 0x38 none oper_rm8 oper_r8 oper_none 0x0
    ∷ row op_cmp 0x39 none oper_rm16 oper_r16 oper_none 0x0
    ∷ row op_cmp 0x3a none oper_r8 oper_rm8 oper_none 0x0
    ∷ row op_cmp 0x3b none oper_r16 oper_rm16 oper_none 0x0
    ∷ row op_cmp 0x3c none oper_al oper_imm8 oper_none 0x0
    ∷ row op_cmp 0x3d none oper_ax oper_imm16 oper_none 0x0
    ∷ row op_inval 0x3e none oper_none oper_none oper_none 0x0
    ∷ row op_aas 0x3f none oper_al oper_ah oper_none 0x0
    ∷ []
