-- ===== src/Asm/InstrFmt/Table/Rows2.antt =====
-- The instruction table from opcode 0x80 to 0xbf.
use dis.Prelude.{none, some, List, [], ◌∷◌}
use dis.Asm.InstrFmt.Row.{row}
use dis.Asm.InstrFmt.Types.{
  InstrFmt, op_adc, op_add, op_and, op_callf, op_cbw, op_cmp, op_cmps, op_cwd, op_inval, op_lahf,
  op_lea, op_lods, op_mov, op_movs, op_nop, op_or, op_pop, op_popf, op_pushf, op_sahf, op_sbb,
  op_scas, op_stos, op_sub, op_test, op_xchg, op_xor, oper_ah, oper_al, oper_ax, oper_bh, oper_bl,
  oper_bp, oper_bx, oper_ch, oper_cl, oper_cx, oper_dh, oper_di, oper_dl, oper_dst16, oper_dst8,
  oper_dx, oper_far32, oper_flags, oper_imm16, oper_imm8, oper_imm8_ext, oper_m16, oper_moff16,
  oper_moff8, oper_none, oper_r16, oper_r8, oper_rm16, oper_rm8, oper_si, oper_sp, oper_src16,
  oper_src8, oper_sreg,
}

-- opcodes 0x80 to 0x8f
unfoldable pub rows_80 : List InstrFmt
rows_80 =
    row op_add 0x80 (some 0) oper_rm8 oper_imm8 oper_none 0x0
    ∷ row op_or 0x80 (some 1) oper_rm8 oper_imm8 oper_none 0x0
    ∷ row op_adc 0x80 (some 2) oper_rm8 oper_imm8 oper_none 0x0
    ∷ row op_sbb 0x80 (some 3) oper_rm8 oper_imm8 oper_none 0x0
    ∷ row op_and 0x80 (some 4) oper_rm8 oper_imm8 oper_none 0x0
    ∷ row op_sub 0x80 (some 5) oper_rm8 oper_imm8 oper_none 0x0
    ∷ row op_xor 0x80 (some 6) oper_rm8 oper_imm8 oper_none 0x0
    ∷ row op_cmp 0x80 (some 7) oper_rm8 oper_imm8 oper_none 0x0
    ∷ row op_add 0x81 (some 0) oper_rm16 oper_imm16 oper_none 0x0
    ∷ row op_or 0x81 (some 1) oper_rm16 oper_imm16 oper_none 0x0
    ∷ row op_adc 0x81 (some 2) oper_rm16 oper_imm16 oper_none 0x0
    ∷ row op_sbb 0x81 (some 3) oper_rm16 oper_imm16 oper_none 0x0
    ∷ row op_and 0x81 (some 4) oper_rm16 oper_imm16 oper_none 0x0
    ∷ row op_sub 0x81 (some 5) oper_rm16 oper_imm16 oper_none 0x0
    ∷ row op_xor 0x81 (some 6) oper_rm16 oper_imm16 oper_none 0x0
    ∷ row op_cmp 0x81 (some 7) oper_rm16 oper_imm16 oper_none 0x0
    ∷ row op_add 0x82 (some 0) oper_rm8 oper_imm8 oper_none 0x0
    ∷ row op_or 0x82 (some 1) oper_rm8 oper_imm8 oper_none 0x0
    ∷ row op_adc 0x82 (some 2) oper_rm8 oper_imm8 oper_none 0x0
    ∷ row op_sbb 0x82 (some 3) oper_rm8 oper_imm8 oper_none 0x0
    ∷ row op_and 0x82 (some 4) oper_rm8 oper_imm8 oper_none 0x0
    ∷ row op_sub 0x82 (some 5) oper_rm8 oper_imm8 oper_none 0x0
    ∷ row op_xor 0x82 (some 6) oper_rm8 oper_imm8 oper_none 0x0
    ∷ row op_cmp 0x82 (some 7) oper_rm8 oper_imm8 oper_none 0x0
    ∷ row op_add 0x83 (some 0) oper_rm16 oper_imm8_ext oper_none 0x0
    ∷ row op_or 0x83 (some 1) oper_rm16 oper_imm8_ext oper_none 0x0
    ∷ row op_adc 0x83 (some 2) oper_rm16 oper_imm8_ext oper_none 0x0
    ∷ row op_sbb 0x83 (some 3) oper_rm16 oper_imm8_ext oper_none 0x0
    ∷ row op_and 0x83 (some 4) oper_rm16 oper_imm8_ext oper_none 0x0
    ∷ row op_sub 0x83 (some 5) oper_rm16 oper_imm8_ext oper_none 0x0
    ∷ row op_xor 0x83 (some 6) oper_rm16 oper_imm8_ext oper_none 0x0
    ∷ row op_cmp 0x83 (some 7) oper_rm16 oper_imm8_ext oper_none 0x0
    ∷ row op_test 0x84 none oper_rm8 oper_r8 oper_none 0x0
    ∷ row op_test 0x85 none oper_rm16 oper_r16 oper_none 0x0
    ∷ row op_xchg 0x86 none oper_r8 oper_rm8 oper_none 0x0
    ∷ row op_xchg 0x87 none oper_r16 oper_rm16 oper_none 0x0
    ∷ row op_mov 0x88 none oper_rm8 oper_r8 oper_none 0x0
    ∷ row op_mov 0x89 none oper_rm16 oper_r16 oper_none 0x0
    ∷ row op_mov 0x8a none oper_r8 oper_rm8 oper_none 0x0
    ∷ row op_mov 0x8b none oper_r16 oper_rm16 oper_none 0x0
    ∷ row op_mov 0x8c none oper_rm16 oper_sreg oper_none 0x0
    ∷ row op_lea 0x8d none oper_r16 oper_m16 oper_none 0x0
    ∷ row op_mov 0x8e none oper_sreg oper_rm16 oper_none 0x0
    ∷ row op_pop 0x8f none oper_rm16 oper_none oper_none 0x0
    ∷ []

-- opcodes 0x90 to 0x9f
unfoldable pub rows_90 : List InstrFmt
rows_90 =
    row op_nop 0x90 none oper_none oper_none oper_none 0x0
    ∷ row op_xchg 0x91 none oper_cx oper_ax oper_none 0x0
    ∷ row op_xchg 0x92 none oper_dx oper_ax oper_none 0x0
    ∷ row op_xchg 0x93 none oper_bx oper_ax oper_none 0x0
    ∷ row op_xchg 0x94 none oper_sp oper_ax oper_none 0x0
    ∷ row op_xchg 0x95 none oper_bp oper_ax oper_none 0x0
    ∷ row op_xchg 0x96 none oper_si oper_ax oper_none 0x0
    ∷ row op_xchg 0x97 none oper_di oper_ax oper_none 0x0
    ∷ row op_cbw 0x98 none oper_ax oper_al oper_none 0x0
    ∷ row op_cwd 0x99 none oper_dx oper_ax oper_none 0x0
    ∷ row op_callf 0x9a none oper_far32 oper_none oper_none 0x0
    ∷ row op_inval 0x9b none oper_none oper_none oper_none 0x0
    ∷ row op_pushf 0x9c none oper_flags oper_none oper_none 0x1
    ∷ row op_popf 0x9d none oper_flags oper_none oper_none 0x1
    ∷ row op_sahf 0x9e none oper_ah oper_none oper_none 0x0
    ∷ row op_lahf 0x9f none oper_ah oper_none oper_none 0x0
    ∷ []

-- opcodes 0xa0 to 0xaf
unfoldable pub rows_a0 : List InstrFmt
rows_a0 =
    row op_mov 0xa0 none oper_al oper_moff8 oper_none 0x0
    ∷ row op_mov 0xa1 none oper_ax oper_moff16 oper_none 0x0
    ∷ row op_mov 0xa2 none oper_moff8 oper_al oper_none 0x0
    ∷ row op_mov 0xa3 none oper_moff16 oper_ax oper_none 0x0
    ∷ row op_movs 0xa4 none oper_dst8 oper_src8 oper_none 0x0
    ∷ row op_movs 0xa5 none oper_dst16 oper_src16 oper_none 0x0
    ∷ row op_cmps 0xa6 none oper_dst8 oper_src8 oper_none 0x0
    ∷ row op_cmps 0xa7 none oper_dst16 oper_src16 oper_none 0x0
    ∷ row op_test 0xa8 none oper_al oper_imm8 oper_none 0x0
    ∷ row op_test 0xa9 none oper_ax oper_imm16 oper_none 0x0
    ∷ row op_stos 0xaa none oper_dst8 oper_al oper_none 0x0
    ∷ row op_stos 0xab none oper_dst16 oper_ax oper_none 0x0
    ∷ row op_lods 0xac none oper_al oper_src8 oper_none 0x0
    ∷ row op_lods 0xad none oper_ax oper_src16 oper_none 0x0
    ∷ row op_scas 0xae none oper_al oper_dst8 oper_none 0x0
    ∷ row op_scas 0xaf none oper_ax oper_dst16 oper_none 0x0
    ∷ []

-- opcodes 0xb0 to 0xbf
unfoldable pub rows_b0 : List InstrFmt
rows_b0 =
    row op_mov 0xb0 none oper_al oper_imm8 oper_none 0x0
    ∷ row op_mov 0xb1 none oper_cl oper_imm8 oper_none 0x0
    ∷ row op_mov 0xb2 none oper_dl oper_imm8 oper_none 0x0
    ∷ row op_mov 0xb3 none oper_bl oper_imm8 oper_none 0x0
    ∷ row op_mov 0xb4 none oper_ah oper_imm8 oper_none 0x0
    ∷ row op_mov 0xb5 none oper_ch oper_imm8 oper_none 0x0
    ∷ row op_mov 0xb6 none oper_dh oper_imm8 oper_none 0x0
    ∷ row op_mov 0xb7 none oper_bh oper_imm8 oper_none 0x0
    ∷ row op_mov 0xb8 none oper_ax oper_imm16 oper_none 0x0
    ∷ row op_mov 0xb9 none oper_cx oper_imm16 oper_none 0x0
    ∷ row op_mov 0xba none oper_dx oper_imm16 oper_none 0x0
    ∷ row op_mov 0xbb none oper_bx oper_imm16 oper_none 0x0
    ∷ row op_mov 0xbc none oper_sp oper_imm16 oper_none 0x0
    ∷ row op_mov 0xbd none oper_bp oper_imm16 oper_none 0x0
    ∷ row op_mov 0xbe none oper_si oper_imm16 oper_none 0x0
    ∷ row op_mov 0xbf none oper_di oper_imm16 oper_none 0x0
    ∷ []
