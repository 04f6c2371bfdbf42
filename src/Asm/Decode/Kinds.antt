-- ===== src/Asm/Decode/Kinds.antt =====
-- The operands of a decoded instruction are of the kinds that its format asks for.
use dis.Prelude.{
  ℕ, ◌≡◌, refl, sym, ap, ◌∙◌, Option, none, some, List, [], ◌∷◌, arith, ◌++◌, ◌/◌, ◌%◌,
}
use mathlib.Core.List.{append-nil, append_assoc, map}
use dis.Result.{Result, ok}
use dis.Region.{M, pure, lift, ◌>>=◌, fetch, fetch_sext, fetch_u16}
use dis.Region.Returns.{
  Returns, Returns-pure, Returns-err, Returns-if, Returns-bind, Returns-bind_with,
  Returns-bind_lift, Returns-weaken,
}
use dis.Asm.InstrFmt.{
  Oper, oper_none, oper_src8, oper_src16, oper_dst8, oper_dst16, oper_m8, oper_m16, oper_m32,
  oper_moff8, oper_moff16, oper_rm8, oper_rm16, oper_lit1, oper_lit3, oper_imm8, oper_imm8_ext,
  oper_imm16, oper_rel8, oper_rel16, oper_far32,
}
use dis.Asm.Instr.{
  Size, size8, size16, size32, Reg, Operand, reg, mem, imm, rel, far, push, reg8, reg16,
}
use dis.Asm.Operands.{
  operand_reg, operand_imm8, operand_imm16, operand_rel, operand_src, operand_dst, operand_far,
  operand_moff, displacement, rm_regs, rm_register, rm_indirect, operand_rm, require_mem, operand_m,
  operand_of, decode_operands,
}

-- The operand kinds of the instruction format.
pub data Kind : Type 0 where
  no_operand register memory register_or_memory immediate relative far_pointer : Kind

unfoldable pub kind : Oper → Kind
kind oper_none = no_operand
kind oper_src8 = memory
kind oper_src16 = memory
kind oper_dst8 = memory
kind oper_dst16 = memory
kind oper_m8 = memory
kind oper_m16 = memory
kind oper_m32 = memory
kind oper_moff8 = memory
kind oper_moff16 = memory
kind oper_rm8 = register_or_memory
kind oper_rm16 = register_or_memory
kind oper_lit1 = immediate
kind oper_lit3 = immediate
kind oper_imm8 = immediate
kind oper_imm8_ext = immediate
kind oper_imm16 = immediate
kind oper_rel8 = relative
kind oper_rel16 = relative
kind oper_far32 = far_pointer
kind _ = register

abbrev pub IsOfKind : Kind → Operand → Type 0
IsOfKind register (reg r) = Unit
IsOfKind memory (mem m) = Unit
IsOfKind register_or_memory (reg r) = Unit
IsOfKind register_or_memory (mem m) = Unit
IsOfKind immediate (imm sz v) = Unit
IsOfKind relative (rel v) = Unit
IsOfKind far_pointer (far s o) = Unit
IsOfKind _ _ = ⊥

kind_of_reg : (r : Result Reg) → Returns (IsOfKind register) (operand_reg r)
unfolding operand_reg
kind_of_reg r = Returns-bind _ (lift r) _ (λ x. Returns-pure _ _ tt)

kind_of_rel : (sz : Size) → Returns (IsOfKind relative) (operand_rel sz)
unfolding operand_rel
kind_of_rel size8 = Returns-bind _ fetch_sext _ (λ v. Returns-pure _ _ tt)
kind_of_rel size16 = Returns-bind _ fetch_u16 _ (λ v. Returns-pure _ _ tt)
kind_of_rel size32 = Returns-err _ _

kind_of_moff : (sz : Size) (s : Option Reg) → Returns (IsOfKind memory) (operand_moff sz s)
unfolding operand_moff
kind_of_moff sz s = Returns-bind _ fetch_u16 _ (λ v. Returns-pure _ _ tt)

kind_of_far : Returns (IsOfKind far_pointer) operand_far
unfolding operand_far
kind_of_far =
    Returns-bind _ fetch_u16 _ (λ o. Returns-bind _ fetch_u16 _ (λ s. Returns-pure _ _ tt))

rm_of_reg : (r : Result Reg) → Returns (IsOfKind register_or_memory) (operand_reg r)
unfolding operand_reg
rm_of_reg r = Returns-bind _ (lift r) _ (λ x. Returns-pure _ _ tt)

rm_of_register : (sz : Size) (rm : ℕ) → Returns (IsOfKind register_or_memory) (rm_register sz rm)
unfolding rm_register
rm_of_register size8 rm = rm_of_reg (reg8 rm)
rm_of_register size16 rm = rm_of_reg (reg16 rm)
rm_of_register size32 rm = Returns-err _ _

rm_of_moff :
    (sz : Size) (s : Option Reg) → Returns (IsOfKind register_or_memory) (operand_moff sz s)
unfolding operand_moff
rm_of_moff sz s = Returns-bind _ fetch_u16 _ (λ v. Returns-pure _ _ tt)

rm_of_indirect :
    (sz : Size) (mode rm : ℕ) (s : Option Reg)
    → Returns (IsOfKind register_or_memory) (rm_indirect sz mode rm s)
unfolding rm_indirect
rm_of_indirect sz mode rm s =
    Returns-bind _ (lift (rm_regs rm)) _
      (λ r. Returns-bind _ (displacement mode) _ (λ v. Returns-pure _ _ tt))

kind_of_rm :
    (sz : Size) (modrm : ℕ) (s : Option Reg)
    → Returns (IsOfKind register_or_memory) (operand_rm sz modrm s)
unfolding operand_rm
kind_of_rm sz modrm s =
    Returns-if _ _ _ _ (rm_of_register sz (modrm % 8))
      (Returns-if _ _ _ _ (rm_of_moff sz s) (rm_of_indirect sz (modrm / 64) (modrm % 8) s))

kind_of_require : (o : Operand) → Returns (IsOfKind memory) (require_mem o)
unfolding require_mem
kind_of_require (mem m) = Returns-pure _ _ tt
kind_of_require _ = Returns-err _ _

kind_of_m :
    (sz : Size) (modrm : ℕ) (s : Option Reg) → Returns (IsOfKind memory) (operand_m sz modrm s)
unfolding operand_m
kind_of_m sz modrm s = Returns-bind _ (operand_rm sz modrm s) _ kind_of_require

abbrev HasKind : Kind → Option (M Operand) → Type 0
HasKind k none = k ≡ no_operand
HasKind k (some m) = Returns (IsOfKind k) m

operand_of-HasKind :
    (modrm : ℕ) (s : Option Reg) (o : Oper) → HasKind (kind o) (operand_of modrm s o)
unfolding operand_of kind operand_imm8 operand_imm16 operand_src operand_dst
operand_of-HasKind modrm s oper_none = refl
operand_of-HasKind modrm s oper_m8 = kind_of_m _ modrm s
operand_of-HasKind modrm s oper_m16 = kind_of_m _ modrm s
operand_of-HasKind modrm s oper_m32 = kind_of_m _ modrm s
operand_of-HasKind modrm s oper_rm8 = kind_of_rm _ modrm s
operand_of-HasKind modrm s oper_rm16 = kind_of_rm _ modrm s
operand_of-HasKind modrm s oper_moff8 = kind_of_moff _ s
operand_of-HasKind modrm s oper_moff16 = kind_of_moff _ s
operand_of-HasKind modrm s oper_rel8 = kind_of_rel _
operand_of-HasKind modrm s oper_rel16 = kind_of_rel _
operand_of-HasKind modrm s oper_src8 = Returns-pure _ _ tt
operand_of-HasKind modrm s oper_src16 = Returns-pure _ _ tt
operand_of-HasKind modrm s oper_dst8 = Returns-pure _ _ tt
operand_of-HasKind modrm s oper_dst16 = Returns-pure _ _ tt
operand_of-HasKind modrm s oper_lit1 = Returns-pure _ _ tt
operand_of-HasKind modrm s oper_lit3 = Returns-pure _ _ tt
operand_of-HasKind modrm s oper_imm8 = Returns-bind _ fetch _ (λ v. Returns-pure _ _ tt)
operand_of-HasKind modrm s oper_imm8_ext = Returns-bind _ fetch_sext _ (λ v. Returns-pure _ _ tt)
operand_of-HasKind modrm s oper_imm16 = Returns-bind _ fetch_u16 _ (λ v. Returns-pure _ _ tt)
operand_of-HasKind modrm s oper_far32 = kind_of_far
operand_of-HasKind modrm s _ = kind_of_reg _

-- A list of operands for a list of kinds: the first `no_operand` ends it.
abbrev pub MatchKinds : List Kind → List Operand → Type 0
MatchKinds [] [] = Unit
MatchKinds [] (x ∷ xs) = ⊥
MatchKinds (no_operand ∷ ks) [] = Unit
MatchKinds (no_operand ∷ ks) (x ∷ xs) = ⊥
MatchKinds (k ∷ ks) [] = ⊥
MatchKinds (k ∷ ks) (x ∷ xs) = IsOfKind k x × MatchKinds ks xs

match_cons :
    (k : Kind) (x : Operand) (ks : List Kind) (xs : List Operand)
    → IsOfKind k x
    → MatchKinds ks xs
    → MatchKinds (k ∷ ks) (x ∷ xs)
match_cons no_operand x ks xs h m = absurd (no_kind x h)
  where
    no_kind : (x : Operand) → IsOfKind no_operand x → ⊥
    no_kind (reg r) h = h
    no_kind (mem r) h = h
    no_kind (imm a b) h = h
    no_kind (rel a) h = h
    no_kind (far a b) h = h
match_cons register x ks xs h m = (h, m)
match_cons _ x ks xs h m = (h, m)

match_nil : (k : Kind) (ks : List Kind) → k ≡ no_operand → MatchKinds (k ∷ ks) []
match_nil k ks e = rw e tt

-- What the loop adds behind the operands so far.
abbrev Extends : List Operand → List Kind → List Operand → Type 0
Extends done ks out = (more : List Operand) × (out ≡ done ++ more) × MatchKinds ks more

push_ok : (v : List Operand) (x : Operand) (w : List Operand) → push v x ≡ ok w → w ≡ v ++ x ∷ []
unfolding push
push_ok v x w h = ground arith

extend :
    (done : List Operand) (x : Operand) (k : Kind) (ks : List Kind) (w out : List Operand)
    → w ≡ done ++ x ∷ []
    → IsOfKind k x
    → Extends w ks out
    → Extends done (k ∷ ks) out
extend done x k ks w out e h (more, f, m) = (
  x ∷ more,
  f ∙ ap (λ v. v ++ more) e ∙ append_assoc done (x ∷ []) more,
  match_cons k x ks more h m,
)

pub decode_operands-Extends :
    (modrm : ℕ) (s : Option Reg) (done : List Operand) (os : List Oper)
    → Returns (Extends done (map kind os)) (decode_operands modrm s done os)
unfolding decode_operands
decode_operands-Extends modrm s done [] = Returns-pure _ done ([], sym (append-nil done), tt)
decode_operands-Extends modrm s done (o ∷ os) =
    one_more (operand_of modrm s o) (operand_of-HasKind modrm s o)
      (λ w. decode_operands-Extends modrm s w os)
  where
    one_more :
        (m : Option (M Operand))
        → HasKind (kind o) m
        → ((w : List Operand) → Returns (Extends w (map kind os)) (decode_operands modrm s w os))
        → Returns (Extends done (map kind (o ∷ os))) (elim m [
          | none ↦ pure done
          | some decode ↦ do
            operand ← decode
            more ← lift (push done operand)
            decode_operands modrm s more os
        ])
    one_more none e rest =
        Returns-pure _ done ([], sym (append-nil done), match_nil (kind o) (map kind os) e)
    one_more (some m) r rest = Returns-bind_with (IsOfKind (kind o)) _ m _ r (λ x h.
        Returns-bind_lift _ (push done x) _ (λ w e.
          Returns-weaken _ _
            (λ out. extend done x (kind o) (map kind os) w out (push_ok done x w e) h) _ (rest w)))
