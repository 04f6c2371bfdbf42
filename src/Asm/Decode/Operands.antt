-- ===== src/Asm/Decode/Operands.antt =====
-- Reading operands is safe: inside its segment only a segment register above DS panics.
use dis.Prelude.{
  ℕ, zero, suc, inl, inr, Bool-cases, ◌^◌, ◌+◌, ◌≤◌, ◌<◌, ◌≡◌, refl, sym, ap, ◌∙◌, Option, none,
  some, List, [], ◌∷◌, ◌++◌, arith, length, length-append, ◌==◌, ◌/◌, ◌%◌,
}
use dis.Prelude.Words.{below_eight}
use dis.Result.{Result, ok, ok-injective}
use dis.Region.{M, pure, lift, ◌>>=◌}
use dis.Region.Keeps.{Safe, IsQuiet, Safe-lift, Safe-if, Safe-bind, region_rules}
use dis.Region.Binds.{Safe-bind_lift}
use dis.Asm.InstrFmt.{
  Oper, oper_none, oper_r8, oper_r16, oper_sreg, oper_m8, oper_m16, oper_m32, oper_rm8, oper_rm16,
  oper_ax, oper_cx, oper_dx, oper_bx, oper_sp, oper_bp, oper_si, oper_di, oper_al, oper_cl, oper_dl,
  oper_bl, oper_ah, oper_ch, oper_dh, oper_bh, oper_es, oper_cs, oper_ss, oper_ds, oper_flags,
}
use dis.Asm.Instr.{Size, size8, size16, size32, Reg, Operand, mem, reg8, reg16, sreg16, push}
use dis.Asm.Instr.Regs.{reg_fields}
use dis.Asm.Operands.{
  operand_reg, operand_imm8, operand_imm16, operand_rel, operand_src, operand_dst, operand_far,
  operand_moff, rm_regs, displacement, rm_register, rm_indirect, operand_rm, require_mem, operand_m,
  operand_of, decode_operands,
}

reg8-IsQuiet : (n : ℕ) → n < 8 → IsQuiet (reg8 n)
reg8-IsQuiet n h = rw (reg_fields n h).0.found_eq tt

reg16-IsQuiet : (n : ℕ) → n < 8 → IsQuiet (reg16 n)
reg16-IsQuiet n h = rw (reg_fields n h).1.found_eq tt

sreg16-IsQuiet : (n : ℕ) → n < 8 → IsQuiet (sreg16 n)
unfolding sreg16
sreg16-IsQuiet = below_eight (λ n. IsQuiet (sreg16 n)) tt tt tt tt refl refl refl refl

Safe-operand_reg : (r : Result Reg) → IsQuiet r → Safe (operand_reg r)
unfolding operand_reg
Safe-operand_reg r q = search (region_rules, Safe-lift r q)

Safe-operand_imm8 : (n : ℕ) → Safe (operand_imm8 n)
unfolding operand_imm8
Safe-operand_imm8 n = search region_rules

Safe-operand_imm16 : (n : ℕ) → Safe (operand_imm16 n)
unfolding operand_imm16
Safe-operand_imm16 n = search region_rules

Safe-operand_rel : (sz : Size) → Safe (operand_rel sz)
unfolding operand_rel
Safe-operand_rel size8 = search region_rules
Safe-operand_rel size16 = search region_rules
Safe-operand_rel size32 = Safe-lift _ tt

Safe-operand_src : (sz : Size) (s : Option Reg) → Safe (operand_src sz s)
unfolding operand_src
Safe-operand_src sz s = search region_rules

Safe-operand_dst : (sz : Size) (s : Option Reg) → Safe (operand_dst sz s)
unfolding operand_dst
Safe-operand_dst sz s = search region_rules

Safe-operand_far : Safe operand_far
unfolding operand_far
Safe-operand_far = search region_rules

Safe-operand_moff : (sz : Size) (s : Option Reg) → Safe (operand_moff sz s)
unfolding operand_moff
Safe-operand_moff sz s = search region_rules

rm_regs-IsQuiet : (rm : ℕ) → rm < 8 → IsQuiet (rm_regs rm)
rm_regs-IsQuiet = below_eight (λ rm. IsQuiet (rm_regs rm)) tt tt tt tt tt tt tt tt

Safe-rm_register : (sz : Size) (rm : ℕ) → rm < 8 → Safe (rm_register sz rm)
unfolding rm_register
Safe-rm_register size8 rm h = Safe-operand_reg _ (reg8-IsQuiet rm h)
Safe-rm_register size16 rm h = Safe-operand_reg _ (reg16-IsQuiet rm h)
Safe-rm_register size32 rm h = Safe-lift _ tt

Safe-displacement : (mode : ℕ) → mode < 3 → Safe (displacement mode)
unfolding displacement
Safe-displacement zero h = search region_rules
Safe-displacement (suc zero) h = search region_rules
Safe-displacement (suc (suc zero)) h = search region_rules
Safe-displacement (suc (suc (suc n))) h = absurd (omega arith)

Safe-rm_indirect :
    (sz : Size) (mode rm : ℕ) (s : Option Reg) → mode < 3 → rm < 8 → Safe (rm_indirect sz mode rm s)
unfolding rm_indirect
Safe-rm_indirect sz mode rm s h k =
    search (region_rules, Safe-lift (rm_regs rm) (rm_regs-IsQuiet rm k), Safe-displacement mode h)

Safe-operand_rm :
    (sz : Size) (modrm : ℕ) (s : Option Reg) → modrm < 2 ^ 8 → Safe (operand_rm sz modrm s)
unfolding operand_rm
Safe-operand_rm sz modrm s h = elim (Bool-cases (modrm / 64 == 3)) [
  | inl direct ↦ rw direct (Safe-rm_register sz (modrm % 8) (omega arith))
  | inr memory ↦ rw memory (
      Safe-if _ _ _ (Safe-operand_moff sz s)
        (Safe-rm_indirect sz (modrm / 64) (modrm % 8) s (ground arith) (omega arith)))
]

Safe-require_mem : (o : Operand) → Safe (require_mem o)
unfolding require_mem
Safe-require_mem (mem m) = search region_rules
Safe-require_mem _ = Safe-lift _ tt

Safe-operand_m :
    (sz : Size) (modrm : ℕ) (s : Option Reg) → modrm < 2 ^ 8 → Safe (operand_m sz modrm s)
unfolding operand_m
Safe-operand_m sz modrm s h = search (region_rules, Safe-require_mem, Safe-operand_rm sz modrm s h)

ruleset operand_rules = (
  region_rules, Safe-operand_imm8, Safe-operand_imm16, Safe-operand_rel, Safe-operand_src,
  Safe-operand_dst, Safe-operand_far, Safe-operand_moff,
)

-- A decoding action, where there is one, is safe.
abbrev SafeOperand : Option (M Operand) → Type 0
SafeOperand none = Unit
SafeOperand (some m) = Safe m

Safe-operand_of :
    (modrm : ℕ) (s : Option Reg) (o : Oper) → modrm < 2 ^ 8 → SafeOperand (operand_of modrm s o)
unfolding operand_of
Safe-operand_of modrm s oper_none h = tt
Safe-operand_of modrm s oper_r8 h = Safe-operand_reg _ (reg8-IsQuiet _ (omega arith))
Safe-operand_of modrm s oper_r16 h = Safe-operand_reg _ (reg16-IsQuiet _ (omega arith))
Safe-operand_of modrm s oper_sreg h = Safe-operand_reg _ (sreg16-IsQuiet _ (omega arith))
Safe-operand_of modrm s oper_m8 h = Safe-operand_m _ modrm s h
Safe-operand_of modrm s oper_m16 h = Safe-operand_m _ modrm s h
Safe-operand_of modrm s oper_m32 h = Safe-operand_m _ modrm s h
Safe-operand_of modrm s oper_rm8 h = Safe-operand_rm _ modrm s h
Safe-operand_of modrm s oper_rm16 h = Safe-operand_rm _ modrm s h
Safe-operand_of modrm s oper_ax h = Safe-operand_reg _ tt
Safe-operand_of modrm s oper_cx h = Safe-operand_reg _ tt
Safe-operand_of modrm s oper_dx h = Safe-operand_reg _ tt
Safe-operand_of modrm s oper_bx h = Safe-operand_reg _ tt
Safe-operand_of modrm s oper_sp h = Safe-operand_reg _ tt
Safe-operand_of modrm s oper_bp h = Safe-operand_reg _ tt
Safe-operand_of modrm s oper_si h = Safe-operand_reg _ tt
Safe-operand_of modrm s oper_di h = Safe-operand_reg _ tt
Safe-operand_of modrm s oper_al h = Safe-operand_reg _ tt
Safe-operand_of modrm s oper_cl h = Safe-operand_reg _ tt
Safe-operand_of modrm s oper_dl h = Safe-operand_reg _ tt
Safe-operand_of modrm s oper_bl h = Safe-operand_reg _ tt
Safe-operand_of modrm s oper_ah h = Safe-operand_reg _ tt
Safe-operand_of modrm s oper_ch h = Safe-operand_reg _ tt
Safe-operand_of modrm s oper_dh h = Safe-operand_reg _ tt
Safe-operand_of modrm s oper_bh h = Safe-operand_reg _ tt
Safe-operand_of modrm s oper_es h = Safe-operand_reg _ tt
Safe-operand_of modrm s oper_cs h = Safe-operand_reg _ tt
Safe-operand_of modrm s oper_ss h = Safe-operand_reg _ tt
Safe-operand_of modrm s oper_ds h = Safe-operand_reg _ tt
Safe-operand_of modrm s oper_flags h = Safe-operand_reg _ tt
Safe-operand_of modrm s _ h = search operand_rules

push_room : (v : List Operand) (x : Operand) → length v < 3 → push v x ≡ ok (v ++ x ∷ [])
unfolding push
push_room v x h = ground arith

pub Safe-decode_operands :
    (modrm : ℕ) (s : Option Reg) (done : List Operand) (opers : List Oper)
    → modrm < 2 ^ 8
    → length done + length opers ≤ 3
    → Safe (decode_operands modrm s done opers)
unfolding decode_operands
Safe-decode_operands modrm s done [] h k = search region_rules
Safe-decode_operands modrm s done (o ∷ os) h k =
    one_more (operand_of modrm s o) (Safe-operand_of modrm s o h)
      (λ more fits. Safe-decode_operands modrm s more os h fits)
  where
    Rest : Type 0
    Rest =
        (more : List Operand) → length more + length os ≤ 3 → Safe (decode_operands modrm s more os)

    -- There is room for one more operand.
    pushed :
        Rest → (x : Operand) → Safe (lift (push done x) >>= λ more. decode_operands modrm s more os)
    pushed rest x =
        let room : push done x ≡ ok (done ++ x ∷ []) = push_room done x (omega arith) in
        Safe-bind_lift (push done x) _ (rw room tt) (λ more e.
          rest more (
            omega
              (arith, ap length (ok-injective (sym room ∙ e)), length-append {0} done (x ∷ []))))

    one_more :
        (m : Option (M Operand))
        → SafeOperand m
        → Rest
        → Safe (elim m [
          | none ↦ pure done
          | some decode ↦ do
            operand ← decode
            more ← lift (push done operand)
            decode_operands modrm s more os
        ])
    one_more none q rest = search region_rules
    one_more (some m) q rest = Safe-bind m _ q (pushed rest)
