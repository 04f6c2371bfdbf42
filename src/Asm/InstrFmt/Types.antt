-- ===== src/Asm/InstrFmt/Types.antt =====
-- Operand kinds, opcodes and the rows of the instruction table.
use dis.Prelude.{ℕ, Bool, true, false, ◌||◌, Option, List, [], ◌∷◌}

pub data Oper : Type 0 where
  oper_none oper_ax oper_cx oper_dx oper_bx oper_sp oper_bp oper_si oper_di oper_al : Oper
  oper_cl oper_dl oper_bl oper_ah oper_ch oper_dh oper_bh oper_es oper_cs oper_ss oper_ds : Oper
  oper_flags oper_lit1 oper_lit3 oper_src8 oper_src16 oper_dst8 oper_dst16 oper_r8 : Oper
  oper_r16 oper_sreg oper_m8 oper_m16 oper_m32 oper_rm8 oper_rm16 oper_imm8 oper_imm8_ext : Oper
  oper_imm16 oper_far32 oper_moff8 oper_moff16 oper_rel8 oper_rel16 : Oper

pub data Opcode : Type 0 where
  op_aaa op_aas op_adc op_add op_and op_call op_callf op_cbw op_clc op_cld op_cli op_cmc : Opcode
  op_cmp op_cmps op_cwd op_daa op_das op_dec op_div op_enter op_hlt op_idiv op_imul : Opcode
  op_imul_trunc op_in op_inc op_ins op_int op_into op_inval op_iret op_ja op_jae op_jb : Opcode
  op_jbe op_jcxz op_je op_jg op_jge op_jl op_jle op_jmp op_jmpf op_jne op_jno op_jnp : Opcode
  op_jns op_jo op_jp op_js op_lahf op_lds op_lea op_leave op_les op_lods op_loop op_loope : Opcode
  op_loopne op_mov op_movs op_mul op_neg op_nop op_not op_or op_out op_outs op_pop op_popa : Opcode
  op_popf op_push op_pusha op_pushf op_rcl op_rcr op_ret op_retf op_rol op_ror op_sahf : Opcode
  op_sar op_sbb op_scas op_seto op_setno op_seta op_setae op_setb op_setbe op_sete op_setg : Opcode
  op_setge op_setl op_setle op_setp op_sets op_setne op_setnp op_setns op_shl op_shr : Opcode
  op_stc op_std op_sti op_stos op_sub op_test op_xchg op_xlat op_xor : Opcode

-- `op2` is absent where the source has -1, and the three operand kinds are a list.
pub record InstrFmt : Type 0 where
  pub op : Opcode
  pub op1 : ℕ
  pub op2 : Option ℕ
  pub oper : List Oper
  pub hidden : ℕ

unfoldable pub uses_modrm : Oper → Bool
uses_modrm oper_r8 = true
uses_modrm oper_r16 = true
uses_modrm oper_sreg = true
uses_modrm oper_m8 = true
uses_modrm oper_m16 = true
uses_modrm oper_m32 = true
uses_modrm oper_rm8 = true
uses_modrm oper_rm16 = true
uses_modrm _ = false

abbrev any_modrm : List Oper → Bool
any_modrm [] = false
any_modrm (o ∷ os) = uses_modrm o || any_modrm os

unfoldable pub requires_modrm : InstrFmt → Bool
unfolding uses_modrm
requires_modrm f = any_modrm f.oper
