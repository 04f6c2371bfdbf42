-- ===== src/Asm/InstrFmt/Table/Rows1.antt =====
-- The instruction table from opcode 0x40 to 0x7f.
use dis.Prelude.{none, List, [], ◌∷◌}
use dis.Asm.InstrFmt.Row.{row}
use dis.Asm.InstrFmt.Types.{
  InstrFmt, op_dec, op_imul_trunc, op_inc, op_ins, op_inval, op_ja, op_jae, op_jb, op_jbe, op_je,
  op_jg, op_jge, op_jl, op_jle, op_jne, op_jno, op_jnp, op_jns, op_jo, op_jp, op_js, op_outs,
  op_pop, op_popa, op_push, op_pusha, oper_ax, oper_bp, oper_bx, oper_cx, oper_di, oper_dst16,
  oper_dst8, oper_dx, oper_imm16, oper_imm8, oper_none, oper_r16, oper_rel8, oper_rm16, oper_si,
  oper_sp, oper_src16, oper_src8,
}

-- opcodes 0x40 to 0x4f
unfoldable pub rows_40 : List InstrFmt
rows_40 =
    row op_inc 0x40 none oper_ax oper_none oper_none 0x0
    ∷ row op_inc 0x41 none oper_cx oper_none oper_none 0x0
    ∷ row op_inc 0x42 none oper_dx oper_none oper_none 0x0
    ∷ row op_inc 0x43 none oper_bx oper_none oper_none 0x0
    ∷ row op_inc 0x44 none oper_sp oper_none oper_none 0x0
    ∷ row op_inc 0x45 none oper_bp oper_none oper_none 0x0
    ∷ row op_inc 0x46 none oper_si oper_none oper_none 0x0
    ∷ row op_inc 0x47 none oper_di oper_none oper_none 0x0
    ∷ row op_dec 0x48 none oper_ax oper_none oper_none 0x0
    ∷ row op_dec 0x49 none oper_cx oper_none oper_none 0x0
    ∷ row op_dec 0x4a none oper_dx oper_none oper_none 0x0
    ∷ row op_dec 0x4b none oper_bx oper_none oper_none 0x0
    ∷ row op_dec 0x4c none oper_sp oper_none oper_none 0x0
    ∷ row op_dec 0x4d none oper_bp oper_none oper_none 0x0
    ∷ row op_dec 0x4e none oper_si oper_none oper_none 0x0
    ∷ row op_dec 0x4f none oper_di oper_none oper_none 0x0
    ∷ []

-- opcodes 0x50 to 0x5f
unfoldable pub rows_50 : List InstrFmt
rows_50 =
    row op_push 0x50 none oper_ax oper_none oper_none 0x0
    ∷ row op_push 0x51 none oper_cx oper_none oper_none 0x0
    ∷ row op_push 0x52 none oper_dx oper_none oper_none 0x0
    ∷ row op_push 0x53 none oper_bx oper_none oper_none 0x0
    ∷ row op_push 0x54 none oper_sp oper_none oper_none 0x0
    ∷ row op_push 0x55 none oper_bp oper_none oper_none 0x0
    ∷ row op_push 0x56 none oper_si oper_none oper_none 0x0
    ∷ row op_push 0x57 none oper_di oper_none oper_none 0x0
    ∷ row op_pop 0x58 none oper_ax oper_none oper_none 0x0
    ∷ row op_pop 0x59 none oper_cx oper_none oper_none 0x0
    ∷ row op_pop 0x5a none oper_dx oper_none oper_none 0x0
    ∷ row op_pop 0x5b none oper_bx oper_none oper_none 0x0
    ∷ row op_pop 0x5c none oper_sp oper_none oper_none 0x0
    ∷ row op_pop 0x5d none oper_bp oper_none oper_none 0x0
    ∷ row op_pop 0x5e none oper_si oper_none oper_none 0x0
    ∷ row op_pop 0x5f none oper_di oper_none oper_none 0x0
    ∷ []

-- opcodes 0x60 to 0x6f
unfoldable pub rows_60 : List InstrFmt
rows_60 =
    row op_pusha 0x60 none oper_none oper_none oper_none 0x0
    ∷ row op_popa 0x61 none oper_none oper_none oper_none 0x0
    ∷ row op_inval 0x62 none oper_none oper_none oper_none 0x0
    ∷ row op_inval 0x63 none oper_none oper_none oper_none 0x0
    ∷ row op_inval 0x64 none oper_none oper_none oper_none 0x0
    ∷ row op_inval 0x65 none oper_none oper_none oper_none 0x0
    ∷ row op_inval 0x66 none oper_none oper_none oper_none 0x0
    ∷ row op_inval 0x67 none oper_none oper_none oper_none 0x0
    ∷ row op_push 0x68 none oper_imm16 oper_none oper_none 0x0
    ∷ row op_imul_trunc 0x69 none oper_r16 oper_rm16 oper_imm16 0x0
    ∷ row op_push 0x6a none oper_imm8 oper_none oper_none 0x0
    ∷ row op_imul_trunc 0x6b none oper_r16 oper_rm16 oper_imm8 0x0
    ∷ row op_ins 0x6c none oper_dst8 oper_dx oper_none 0x0
    ∷ row op_ins 0x6d none oper_dst16 oper_dx oper_none 0x0
    ∷ row op_outs 0x6e none oper_dx oper_src8 oper_none 0x0
    ∷ row op_outs 0x6f none oper_dx oper_src16 oper_none 0x0
    ∷ []

-- opcodes 0x70 to 0x7f
unfoldable pub rows_70 : List InstrFmt
rows_70 =
    row op_jo 0x70 none oper_rel8 oper_none oper_none 0x0
    ∷ row op_jno 0x71 none oper_rel8 oper_none oper_none 0x0
    ∷ row op_jb 0x72 none oper_rel8 oper_none oper_none 0x0
    ∷ row op_jae 0x73 none oper_rel8 oper_none oper_none 0x0
    ∷ row op_je 0x74 none oper_rel8 oper_none oper_none 0x0
    ∷ row op_jne 0x75 none oper_rel8 oper_none oper_none 0x0
    ∷ row op_jbe 0x76 none oper_rel8 oper_none oper_none 0x0
    ∷ row op_ja 0x77 none oper_rel8 oper_none oper_none 0x0
    ∷ row op_js 0x78 none oper_rel8 oper_none oper_none 0x0
    ∷ row op_jns 0x79 none oper_rel8 oper_none oper_none 0x0
    ∷ row op_jp 0x7a none oper_rel8 oper_none oper_none 0x0
    ∷ row op_jnp 0x7b none oper_rel8 oper_none oper_none 0x0
    ∷ row op_jl 0x7c none oper_rel8 oper_none oper_none 0x0
    ∷ row op_jge 0x7d none oper_rel8 oper_none oper_none 0x0
    ∷ row op_jle 0x7e none oper_rel8 oper_none oper_none 0x0
    ∷ row op_jg 0x7f none oper_rel8 oper_none oper_none 0x0
    ∷ []
