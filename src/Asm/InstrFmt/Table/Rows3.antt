-- ===== src/Asm/InstrFmt/Table/Rows3.antt =====
-- The instruction table from opcode 0xc0 to 0xff.
use dis.Prelude.{none, some, List, [], ◌∷◌}
use dis.Asm.InstrFmt.Row.{row}
use dis.Asm.InstrFmt.Types.{
  InstrFmt, op_call, op_callf, op_clc, op_cld, op_cli, op_cmc, op_dec, op_div, op_enter, op_hlt,
  op_idiv, op_imul, op_in, op_inc, op_int, op_into, op_inval, op_iret, op_jcxz, op_jmp, op_jmpf,
  op_lds, op_leave, op_les, op_loop, op_loope, op_loopne, op_mov, op_mul, op_neg, op_not, op_out,
  op_push, op_rcl, op_rcr, op_ret, op_retf, op_rol, op_ror, op_sar, op_shl, op_shr, op_stc, op_std,
  op_sti, op_test, op_xlat, oper_ah, oper_al, oper_ax, oper_bp, oper_bx, oper_cl, oper_cx, oper_ds,
  oper_dx, oper_es, oper_far32, oper_flags, oper_imm16, oper_imm8, oper_imm8_ext, oper_lit1,
  oper_lit3, oper_m32, oper_none, oper_r16, oper_rel16, oper_rel8, oper_rm16, oper_rm8, oper_sp,
}

-- opcodes 0xc0 to 0xcf
unfoldable pub rows_c0 : List InstrFmt
rows_c0 =
    row op_rol 0xc0 (some 0) oper_rm8 oper_imm8 oper_none 0x0
    ∷ row op_ror 0xc0 (some 1) oper_rm8 oper_imm8 oper_none 0x0
    ∷ row op_rcl 0xc0 (some 2) oper_rm8 oper_imm8 oper_none 0x0
    ∷ row op_rcr 0xc0 (some 3) oper_rm8 oper_imm8 oper_none 0x0
    ∷ row op_shl 0xc0 (some 4) oper_rm8 oper_imm8 oper_none 0x0
    ∷ row op_shr 0xc0 (some 5) oper_rm8 oper_imm8 oper_none 0x0
    ∷ row op_shl 0xc0 (some 6) oper_rm8 oper_imm8 oper_none 0x0
    ∷ row op_sar 0xc0 (some 7) oper_rm8 oper_imm8 oper_none 0x0
    ∷ row op_rol 0xc1 (some 0) oper_rm16 oper_imm8_ext oper_none 0x0
    ∷ row op_ror 0xc1 (some 1) oper_rm16 oper_imm8_ext oper_none 0x0
    ∷ row op_rcl 0xc1 (some 2) oper_rm16 oper_imm8_ext oper_none 0x0
    ∷ row op_rcr 0xc1 (some 3) oper_rm16 oper_imm8_ext oper_none 0x0
    ∷ row op_shl 0xc1 (some 4) oper_rm16 oper_imm8_ext oper_none 0x0
    ∷ row op_shr 0xc1 (some 5) oper_rm16 oper_imm8_ext oper_none 0x0
    ∷ row op_shl 0xc1 (some 6) oper_rm16 oper_imm8_ext oper_none 0x0
    ∷ row op_sar 0xc1 (some 7) oper_rm16 oper_imm8_ext oper_none 0x0
    ∷ row op_ret 0xc2 none oper_imm16 oper_none oper_none 0x0
    ∷ row op_ret 0xc3 none oper_none oper_none oper_none 0x0
    ∷ row op_les 0xc4 none oper_es oper_r16 oper_m32 0x1
    ∷ row op_lds 0xc5 none oper_ds oper_r16 oper_m32 0x1
    ∷ row op_mov 0xc6 (some 0) oper_rm8 oper_imm8 oper_none 0x0
    ∷ row op_mov 0xc7 (some 0) oper_rm16 oper_imm16 oper_none 0x0
    ∷ row op_enter 0xc8 none oper_bp oper_imm16 oper_imm8 0x0
    ∷ row op_leave 0xc9 none oper_bp oper_sp oper_none 0x3
    ∷ row op_retf 0xca none oper_imm16 oper_none oper_none 0x0
    ∷ row op_retf 0xcb none oper_none oper_none oper_none 0x0
    ∷ row op_int 0xcc none oper_lit3 oper_flags oper_none 0x2
    ∷ row op_int 0xcd none oper_imm8 oper_flags oper_none 0x2
    ∷ row op_into 0xce none oper_flags oper_none oper_none 0x1
    ∷ row op_iret 0xcf none oper_flags oper_none oper_none 0x1
    ∷ []

-- opcodes 0xd0 to 0xdf
unfoldable pub rows_d0 : List InstrFmt
rows_d0 =
    row op_rol 0xd0 (some 0) oper_rm8 oper_lit1 oper_none 0x0
    ∷ row op_ror 0xd0 (some 1) oper_rm8 oper_lit1 oper_none 0x0
    ∷ row op_rcl 0xd0 (some 2) oper_rm8 oper_lit1 oper_none 0x0
    ∷ row op_rcr 0xd0 (some 3) oper_rm8 oper_lit1 oper_none 0x0
    ∷ row op_shl 0xd0 (some 4) oper_rm8 oper_lit1 oper_none 0x0
    ∷ row op_shr 0xd0 (some 5) oper_rm8 oper_lit1 oper_none 0x0
    ∷ row op_shl 0xd0 (some 6) oper_rm8 oper_lit1 oper_none 0x0
    ∷ row op_sar 0xd0 (some 7) oper_rm8 oper_lit1 oper_none 0x0
    ∷ row op_rol 0xd1 (some 0) oper_rm16 oper_lit1 oper_none 0x0
    ∷ row op_ror 0xd1 (some 1) oper_rm16 oper_lit1 oper_none 0x0
    ∷ row op_rcl 0xd1 (some 2) oper_rm16 oper_lit1 oper_none 0x0
    ∷ row op_rcr 0xd1 (some 3) oper_rm16 oper_lit1 oper_none 0x0
    ∷ row op_shl 0xd1 (some 4) oper_rm16 oper_lit1 oper_none 0x0
    ∷ row op_shr 0xd1 (some 5) oper_rm16 oper_lit1 oper_none 0x0
    ∷ row op_shl 0xd1 (some 6) oper_rm16 oper_lit1 oper_none 0x0
    ∷ row op_sar 0xd1 (some 7) oper_rm16 oper_lit1 oper_none 0x0
    ∷ row op_rol 0xd2 (some 0) oper_rm8 oper_cl oper_none 0x0
    ∷ row op_ror 0xd2 (some 1) oper_rm8 oper_cl oper_none 0x0
    ∷ row op_rcl 0xd2 (some 2) oper_rm8 oper_cl oper_none 0x0
    ∷ row op_rcr 0xd2 (some 3) oper_rm8 oper_cl oper_none 0x0
    ∷ row op_shl 0xd2 (some 4) oper_rm8 oper_cl oper_none 0x0
    ∷ row op_shr 0xd2 (some 5) oper_rm8 oper_cl oper_none 0x0
    ∷ row op_shl 0xd2 (some 6) oper_rm8 oper_cl oper_none 0x0
    ∷ row op_sar 0xd2 (some 7) oper_rm8 oper_cl oper_none 0x0
    ∷ row op_rol 0xd3 (some 0) oper_rm16 oper_cl oper_none 0x0
    ∷ row op_ror 0xd3 (some 1) oper_rm16 oper_cl oper_none 0x0
    ∷ row op_rcl 0xd3 (some 2) oper_rm16 oper_cl oper_none 0x0
    ∷ row op_rcr 0xd3 (some 3) oper_rm16 oper_cl oper_none 0x0
    ∷ row op_shl 0xd3 (some 4) oper_rm16 oper_cl oper_none 0x0
    ∷ row op_shr 0xd3 (some 5) oper_rm16 oper_cl oper_none 0x0
    ∷ row op_shl 0xd3 (some 6) oper_rm16 oper_cl oper_none 0x0
    ∷ row op_sar 0xd3 (some 7) oper_rm16 oper_cl oper_none 0x0
    ∷ row op_inval 0xd4 none oper_none oper_none oper_none 0x0
    ∷ row op_inval 0xd5 none oper_none oper_none oper_none 0x0
    ∷ row op_inval 0xd6 none oper_none oper_none oper_none 0x0
    ∷ row op_xlat 0xd7 none oper_al oper_ds oper_bx 0x0
    ∷ row op_inval 0xd8 none oper_none oper_none oper_none 0x0
    ∷ row op_inval 0xd9 none oper_none oper_none oper_none 0x0
    ∷ row op_inval 0xda none oper_none oper_none oper_none 0x0
    ∷ row op_inval 0xdb none oper_none oper_none oper_none 0x0
    ∷ row op_inval 0xdc none oper_none oper_none oper_none 0x0
    ∷ row op_inval 0xdd none oper_none oper_none oper_none 0x0
    ∷ row op_inval 0xde none oper_none oper_none oper_none 0x0
    ∷ row op_inval 0xdf none oper_none oper_none oper_none 0x0
    ∷ []

-- opcodes 0xe0 to 0xef
unfoldable pub rows_e0 : List InstrFmt
rows_e0 =
    row op_loopne 0xe0 none oper_cx oper_rel8 oper_none 0x1
    ∷ row op_loope 0xe1 none oper_cx oper_rel8 oper_none 0x1
    ∷ row op_loop 0xe2 none oper_cx oper_rel8 oper_none 0x1
    ∷ row op_jcxz 0xe3 none oper_cx oper_rel8 oper_none 0x1
    ∷ row op_in 0xe4 none oper_al oper_imm8 oper_none 0x0
    ∷ row op_in 0xe5 none oper_ax oper_imm8 oper_none 0x0
    ∷ row op_out 0xe6 none oper_imm8 oper_al oper_none 0x0
    ∷ row op_out 0xe7 none oper_imm8 oper_ax oper_none 0x0
    ∷ row op_call 0xe8 none oper_rel16 oper_none oper_none 0x0
    ∷ row op_jmp 0xe9 none oper_rel16 oper_none oper_none 0x0
    ∷ row op_jmpf 0xea none oper_far32 oper_none oper_none 0x0
    ∷ row op_jmp 0xeb none oper_rel8 oper_none oper_none 0x0
    ∷ row op_in 0xec none oper_al oper_dx oper_none 0x0
    ∷ row op_in 0xed none oper_ax oper_dx oper_none 0x0
    ∷ row op_out 0xee none oper_dx oper_al oper_none 0x0
    ∷ row op_out 0xef none oper_dx oper_ax oper_none 0x0
    ∷ []

-- opcodes 0xf0 to 0xff
unfoldable pub rows_f0 : List InstrFmt
rows_f0 =
    row op_inval 0xf0 none oper_none oper_none oper_none 0x0
    ∷ row op_inval 0xf1 none oper_none oper_none oper_none 0x0
    ∷ row op_inval 0xf2 none oper_none oper_none oper_none 0x0
    ∷ row op_inval 0xf3 none oper_none oper_none oper_none 0x0
    ∷ row op_hlt 0xf4 none oper_none oper_none oper_none 0x0
    ∷ row op_cmc 0xf5 none oper_none oper_none oper_none 0x0
    ∷ row op_test 0xf6 (some 0) oper_rm8 oper_imm8 oper_none 0x0
    ∷ row op_test 0xf6 (some 1) oper_rm8 oper_imm8 oper_none 0x0
    ∷ row op_not 0xf6 (some 2) oper_rm8 oper_none oper_none 0x0
    ∷ row op_neg 0xf6 (some 3) oper_rm8 oper_none oper_none 0x0
    ∷ row op_mul 0xf6 (some 4) oper_ax oper_al oper_rm8 0x0
    ∷ row op_imul 0xf6 (some 5) oper_ax oper_al oper_rm8 0x0
    ∷ row op_div 0xf6 (some 6) oper_ah oper_al oper_rm8 0x0
    ∷ row op_idiv 0xf6 (some 7) oper_ah oper_al oper_rm8 0x0
    ∷ row op_test 0xf7 (some 0) oper_rm16 oper_imm16 oper_none 0x0
    ∷ row op_test 0xf7 (some 1) oper_rm16 oper_imm16 oper_none 0x0
    ∷ row op_not 0xf7 (some 2) oper_rm16 oper_none oper_none 0x0
    ∷ row op_neg 0xf7 (some 3) oper_rm16 oper_none oper_none 0x0
    ∷ row op_mul 0xf7 (some 4) oper_dx oper_ax oper_rm16 0x0
    ∷ row op_imul 0xf7 (some 5) oper_dx oper_ax oper_rm16 0x0
    ∷ row op_div 0xf7 (some 6) oper_dx oper_ax oper_rm16 0x0
    ∷ row op_idiv 0xf7 (some 7) oper_dx oper_ax oper_rm16 0x0
    ∷ row op_clc 0xf8 none oper_none oper_none oper_none 0x0
    ∷ row op_stc 0xf9 none oper_none oper_none oper_none 0x0
    ∷ row op_cli 0xfa none oper_none oper_none oper_none 0x0
    ∷ row op_sti 0xfb none oper_none oper_none oper_none 0x0
    ∷ row op_cld 0xfc none oper_none oper_none oper_none 0x0
    ∷ row op_std 0xfd none oper_none oper_none oper_none 0x0
    ∷ row op_inc 0xfe (some 0) oper_rm8 oper_none oper_none 0x0
    ∷ row op_dec 0xfe (some 1) oper_rm8 oper_none oper_none 0x0
    ∷ row op_inc 0xff (some 0) oper_rm16 oper_none oper_none 0x0
    ∷ row op_dec 0xff (some 1) oper_rm16 oper_none oper_none 0x0
    ∷ row op_call 0xff (some 2) oper_rm16 oper_none oper_none 0x0
    ∷ row op_callf 0xff (some 3) oper_m32 oper_none oper_none 0x0
    ∷ row op_jmp 0xff (some 4) oper_rm16 oper_none oper_none 0x0
    ∷ row op_jmpf 0xff (some 5) oper_m32 oper_none oper_none 0x0
    ∷ row op_push 0xff (some 6) oper_rm16 oper_none oper_none 0x0
    ∷ []
