-- ===== src/Asm/Operands.antt =====
-- The operands of an instruction in dis86/src/asm/decode.rs: the fields of ModRM, one function for
-- each kind of operand, and the loop over the kinds of a row.
use dis.Prelude.{ℕ, ◌/◌, ◌%◌, ◌&&◌, Option, none, some, List, [], ◌∷◌, ◌==◌, if◌then◌else◌}
use dis.Result.{
  Result, ok, err, panic, invalid_rel_size, invalid_reg_size, register_for_memory, unreachable,
}
use dis.Region.{M, pure, lift, ◌>>=◌, fetch, fetch_sext, fetch_u16}
use dis.Asm.InstrFmt.{
  Oper, oper_none, oper_ax, oper_cx, oper_dx, oper_bx, oper_sp, oper_bp, oper_si, oper_di, oper_al,
  oper_cl, oper_dl, oper_bl, oper_ah, oper_ch, oper_dh, oper_bh, oper_es, oper_cs, oper_ss, oper_ds,
  oper_flags, oper_lit1, oper_lit3, oper_src8, oper_src16, oper_dst8, oper_dst16, oper_r8, oper_r16,
  oper_sreg, oper_m8, oper_m16, oper_m32, oper_rm8, oper_rm16, oper_imm8, oper_imm8_ext, oper_imm16,
  oper_far32, oper_moff8, oper_moff16, oper_rel8, oper_rel16,
}
use dis.Asm.Instr.{
  Size, size8, size16, size32, Reg, Operand, reg, mem, imm, rel, far, reg8, reg16, sreg16, push, ax,
  cx, dx, bx, sp, bp, si, di, al, cl, dl, bl, ah, ch, dh, bh, es, cs, ss, ds, flags,
}

-- `& 7` keeps the three low bits.
abbrev pub modrm_mode : ℕ → ℕ
modrm_mode modrm = modrm / 64

abbrev pub modrm_reg : ℕ → ℕ
modrm_reg modrm = modrm / 8 % 8

abbrev pub modrm_op2 : ℕ → ℕ
modrm_op2 modrm = modrm / 8 % 8

abbrev pub modrm_rm : ℕ → ℕ
modrm_rm modrm = modrm % 8

unfoldable pub operand_reg : Result Reg → M Operand
operand_reg r = do x ← lift r; pure (reg x)

unfoldable pub operand_imm8 : ℕ → M Operand
operand_imm8 val = pure (imm size8 val)

unfoldable pub operand_imm16 : ℕ → M Operand
operand_imm16 val = pure (imm size16 val)

unfoldable pub operand_rel : Size → M Operand
operand_rel size8 = do val ← fetch_sext; pure (rel val)
operand_rel size16 = do val ← fetch_u16; pure (rel val)
operand_rel size32 = lift (err invalid_rel_size)

abbrev pub unwrap_or {ℓ} : {A : Type ℓ} → Option A → A → A
unwrap_or none a = a
unwrap_or (some b) a = b

unfoldable pub operand_src : Size → Option Reg → M Operand
operand_src sz sreg =
    pure
      (mem (record { sz = sz; sreg = unwrap_or sreg ds; reg1 = some si; reg2 = none; off = none }))

unfoldable pub operand_dst : Size → Option Reg → M Operand
operand_dst sz sreg =
    pure (mem (record { sz = sz; sreg = es; reg1 = some di; reg2 = none; off = none }))

unfoldable pub operand_far : M Operand
operand_far = do off ← fetch_u16; seg ← fetch_u16; pure (far seg off)

unfoldable pub operand_moff : Size → Option Reg → M Operand
operand_moff sz prefix_sreg = do
  off ← fetch_u16
  pure (
      mem (record {
        sz = sz;
        sreg = unwrap_or prefix_sreg ds;
        reg1 = none;
        reg2 = none;
        off = some off;
      }))

-- The segment and base registers of an indirect mode.
abbrev pub rm_regs : ℕ → Result (Reg × Reg × Option Reg)
rm_regs rm =
    if rm == 0
    then ok (ds, bx, some si)
    else if rm == 1
    then ok (ds, bx, some di)
    else if rm == 2
    then ok (ss, bp, some si)
    else if rm == 3
    then ok (ss, bp, some di)
    else if rm == 4
    then ok (ds, si, none)
    else if rm == 5
    then ok (ds, di, none)
    else if rm == 6
    then ok (ss, bp, none)
    else if rm == 7
    then ok (ds, bx, none)
    else panic unreachable

unfoldable pub displacement : ℕ → M (Option ℕ)
displacement mode =
    if mode == 0
    then pure none
    else if mode == 1
    then (do off ← fetch_sext; pure (some off))
    else if mode == 2
    then (do off ← fetch_u16; pure (some off))
    else lift (panic unreachable)

unfoldable pub rm_register : Size → ℕ → M Operand
rm_register size8 rm = operand_reg (reg8 rm)
rm_register size16 rm = operand_reg (reg16 rm)
rm_register size32 rm = lift (err invalid_reg_size)

unfoldable pub rm_indirect : Size → ℕ → ℕ → Option Reg → M Operand
rm_indirect sz mode rm prefix_sreg = do
  regs ← lift (rm_regs rm)
  off ← displacement mode
  pure (
      mem (record {
        sz = sz;
        sreg = unwrap_or prefix_sreg regs.0;
        reg1 = some regs.1;
        reg2 = regs.2;
        off = off;
      }))

unfoldable pub operand_rm : Size → ℕ → Option Reg → M Operand
operand_rm sz modrm prefix_sreg =
    let mode = modrm_mode modrm in
    let rm = modrm_rm modrm in
    if mode == 3
    then rm_register sz rm
    else if mode == 0 && rm == 6
    then operand_moff sz prefix_sreg
    else rm_indirect sz mode rm prefix_sreg

unfoldable pub require_mem : Operand → M Operand
require_mem (mem m) = pure (mem m)
require_mem _ = lift (err register_for_memory)

-- `operand_m8`, `operand_m16` and `operand_m32`
unfoldable pub operand_m : Size → ℕ → Option Reg → M Operand
operand_m sz modrm sreg = do oper ← operand_rm sz modrm sreg; require_mem oper

-- The operand of a kind; `none` is the end of the list of operands.
unfoldable pub operand_of : ℕ → Option Reg → Oper → Option (M Operand)
operand_of modrm sreg oper_none = none
operand_of modrm sreg oper_ax = some (operand_reg (ok ax))
operand_of modrm sreg oper_cx = some (operand_reg (ok cx))
operand_of modrm sreg oper_dx = some (operand_reg (ok dx))
operand_of modrm sreg oper_bx = some (operand_reg (ok bx))
operand_of modrm sreg oper_sp = some (operand_reg (ok sp))
operand_of modrm sreg oper_bp = some (operand_reg (ok bp))
operand_of modrm sreg oper_si = some (operand_reg (ok si))
operand_of modrm sreg oper_di = some (operand_reg (ok di))
operand_of modrm sreg oper_al = some (operand_reg (ok al))
operand_of modrm sreg oper_cl = some (operand_reg (ok cl))
operand_of modrm sreg oper_dl = some (operand_reg (ok dl))
operand_of modrm sreg oper_bl = some (operand_reg (ok bl))
operand_of modrm sreg oper_ah = some (operand_reg (ok ah))
operand_of modrm sreg oper_ch = some (operand_reg (ok ch))
operand_of modrm sreg oper_dh = some (operand_reg (ok dh))
operand_of modrm sreg oper_bh = some (operand_reg (ok bh))
operand_of modrm sreg oper_es = some (operand_reg (ok es))
operand_of modrm sreg oper_cs = some (operand_reg (ok cs))
operand_of modrm sreg oper_ss = some (operand_reg (ok ss))
operand_of modrm sreg oper_ds = some (operand_reg (ok ds))
operand_of modrm sreg oper_flags = some (operand_reg (ok flags))
operand_of modrm sreg oper_lit1 = some (operand_imm8 1)
operand_of modrm sreg oper_lit3 = some (operand_imm8 3)
operand_of modrm sreg oper_src8 = some (operand_src size8 sreg)
operand_of modrm sreg oper_src16 = some (operand_src size16 sreg)
operand_of modrm sreg oper_dst8 = some (operand_dst size8 sreg)
operand_of modrm sreg oper_dst16 = some (operand_dst size16 sreg)
operand_of modrm sreg oper_r8 = some (operand_reg (reg8 (modrm_reg modrm)))
operand_of modrm sreg oper_r16 = some (operand_reg (reg16 (modrm_reg modrm)))
operand_of modrm sreg oper_sreg = some (operand_reg (sreg16 (modrm_reg modrm)))
operand_of modrm sreg oper_m8 = some (operand_m size8 modrm sreg)
operand_of modrm sreg oper_m16 = some (operand_m size16 modrm sreg)
operand_of modrm sreg oper_m32 = some (operand_m size32 modrm sreg)
operand_of modrm sreg oper_rm8 = some (operand_rm size8 modrm sreg)
operand_of modrm sreg oper_rm16 = some (operand_rm size16 modrm sreg)
operand_of modrm sreg oper_imm8 = some (fetch >>= operand_imm8)
operand_of modrm sreg oper_imm8_ext = some (fetch_sext >>= operand_imm16)
operand_of modrm sreg oper_imm16 = some (fetch_u16 >>= operand_imm16)
operand_of modrm sreg oper_far32 = some operand_far
operand_of modrm sreg oper_moff8 = some (operand_moff size8 sreg)
operand_of modrm sreg oper_moff16 = some (operand_moff size16 sreg)
operand_of modrm sreg oper_rel8 = some (operand_rel size8)
operand_of modrm sreg oper_rel16 = some (operand_rel size16)

unfoldable pub decode_operands : ℕ → Option Reg → List Operand → List Oper → M (List Operand)
decode_operands modrm sreg operands [] = pure operands
decode_operands modrm sreg operands (oper ∷ opers) = elim (operand_of modrm sreg oper) [
  | none ↦ pure operands
  | some decode ↦ do
    operand ← decode
    more ← lift (push operands operand)
    decode_operands modrm sreg more opers
]
