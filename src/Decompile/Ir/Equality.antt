-- ===== src/Decompile/Ir/Equality.antt =====
-- The derived equality of dis86/src/decompile/ir/def.rs is equality.
use mathlib.Core.Path.{ap₂}
use dis.Prelude.{◌≡◌, refl, sym, ap, ◌∙◌, true, ◌==◌, ==_iff, &&-eq-true, arith, some, get_elem?}
use dis.Asm.Instr.{Reg, discriminant, regs}
use dis.Decompile.Ir.Def.{
  Table, SymbolRef, Ref, const, instr, init, block, symbol, func, param, local, global, register,
  reg_eq, table_eq, symbol_eq, ref_eq,
}

-- A register is the one with its number.
regs-discriminant : (r : Reg) → get_elem? regs (discriminant r) ≡ some r
unfolding discriminant
regs-discriminant Reg.ax = refl
regs-discriminant _ = refl

some-injective : {A : Type 0} {a b : A} → some a ≡ some b → a ≡ b
some-injective h = cc

reg_eq_sound : (a b : Reg) → reg_eq a b ≡ true → a ≡ b
unfolding reg_eq
reg_eq_sound a b h = some-injective (
    sym (regs-discriminant a)
    ∙ ap (get_elem? regs) ((==_iff (discriminant a) (discriminant b)).0 h)
    ∙ regs-discriminant b)

table_eq_sound : (a b : Table) → table_eq a b ≡ true → a ≡ b
unfolding table_eq
table_eq_sound param param h = refl
table_eq_sound local local h = refl
table_eq_sound global global h = refl
table_eq_sound register register h = refl
table_eq_sound _ _ h = cc

symbol_eq_sound : (a b : SymbolRef) → symbol_eq a b ≡ true → a ≡ b
symbol_eq_sound a b h =
    let t : a.table ≡ b.table = table_eq_sound a.table b.table (ground arith) in
    let i : a.idx ≡ b.idx = ground arith in
    let o : a.off ≡ b.off = ground arith in
    let s : a.sz ≡ b.sz = ground arith in
    λ k. record { table = t k; idx = i k; off = o k; sz = s k }

pub ref_eq_sound : (a b : Ref) → ref_eq a b ≡ true → a ≡ b
unfolding ref_eq
ref_eq_sound (const a) (const b) h = ap const ((==_iff a b).0 h)
ref_eq_sound (instr a i) (instr b j) h =
    let both = &&-eq-true (a == b) (i == j) h in
    ap₂ instr ((==_iff a b).0 both.0) ((==_iff i j).0 both.1)
ref_eq_sound (init a) (init b) h = ap init (reg_eq_sound a b h)
ref_eq_sound (block a) (block b) h = ap block ((==_iff a b).0 h)
ref_eq_sound (symbol a) (symbol b) h = ap symbol (symbol_eq_sound a b h)
ref_eq_sound (func a) (func b) h = ap func ((==_iff a b).0 h)
ref_eq_sound _ _ h = cc
