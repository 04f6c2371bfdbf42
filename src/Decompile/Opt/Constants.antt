-- ===== src/Decompile/Opt/Constants.antt =====
-- `constant_folding` of dis86/src/decompile/opt.rs over a whole representation.
use mathlib.Core.Path.{ap₂}
use dis.Prelude.{
  ℕ, ◌<◌, ◌^◌, ◌≡◌, ◌⊎◌, inl, inr, refl, ap, ◌∙◌, true, Option, none, some, [], ◌∷◌, ◌==◌, ltb,
  length, get_elem?-eq-some, all-get_elem?, Option-cases,
}
use dis.Result.{Result, ok, and_then}
use dis.Decompile.Ir.Def.{Ref, const, instr, Instr, Ir}
use dis.Decompile.Ir.Methods.{operand_at, const_lookup}
use dis.Decompile.Ir.Value.{find_instr, Valuation, value, is_valid, IsWellFormed, eval_2, or_zero}
use dis.Decompile.Ir.Rewrite.{Kept, instr_unwrap_lem}
use dis.Decompile.Ir.Consts.{lt_of_ltb}
use dis.Decompile.Opt.Fold.{fold_with, folded, constant_folding_at, constant_folding}
use dis.Decompile.Opt.Walk.{Keeps, KeepsStep, Keeps-refl, Keeps-if, for_each-Keeps}
use dis.Decompile.Opt.Replace.{
  IsBinary, IsBinary_of_count, make_const-Keeps, operand_at_0, operand_at_1, eval_binary,
}
use dis.Decompile.Opt.Folding.{folded_lem}

-- A constant that is looked up is a word, and the value of its reference.
pub record IsKnown (ir : Ir) (r : Ref) (k : ℕ) : Type 0 where
  pub small : k < 2 ^ 16
  pub is : (val : Valuation) → value ir val r ≡ k

pub const_lookup_lem :
    (ir : Ir) (r : Ref)
    → IsWellFormed ir
    → is_valid ir r ≡ true
    → (const_lookup ir r ≡ ok none) ⊎ ((k : ℕ) × (const_lookup ir r ≡ ok (some k)) × IsKnown ir r k)
unfolding const_lookup
const_lookup_lem ir (const n) w h =
    let at = get_elem?-eq-some ir.consts n (lt_of_ltb n (length ir.consts) h) in
    inr (
      at.0,
      rw at.1 refl,
      record {
        small =
            lt_of_ltb at.0 (2 ^ 16)
              (all-get_elem? (λ v. ltb v (2 ^ 16)) ir.consts n at.0 w.words at.1);
        is = λ val. ap or_zero at.1;
      },
    )
const_lookup_lem ir _ w h = inl refl

module _ (ir : Ir) (b i : ℕ) (x : Instr) (w : IsWellFormed ir) (e : find_instr ir b i ≡ some x)
    (p : IsBinary ir x) where
  fold_both :
      (m n : ℕ)
      → IsKnown ir p.lhs m
      → IsKnown ir p.rhs n
      → Keeps ir (fold_with (instr b i) ir x (some m) (some n))
  fold_both m n l r = elim (Option-cases (folded x.opcode x.typ x.compare_width m n)) [
    | inl none_found ↦ rw none_found (Keeps-refl ir w)
    | inr found ↦
        let f = folded_lem x.opcode x.typ x.compare_width m n found.0 l.small r.small found.1 in
        rw found.1 (
          make_const-Keeps ir b i x found.0 w e f.1 λ val.
            eval_binary ir val x p x.opcode refl
            ∙ ap₂ (eval_2 x.opcode x.typ x.compare_width) (l.is val) (r.is val)
            ∙ f.0)
  ]

  abbrev fold_rhs : Option ℕ → Result Ir
  fold_rhs lhs = and_then (const_lookup ir p.rhs) λ rhs. fold_with (instr b i) ir x lhs rhs

  fold_none : Keeps ir (fold_rhs none)
  fold_none = elim (const_lookup_lem ir p.rhs w p.rhs_valid) [
    | inl e ↦ rw e (Keeps-refl ir w)
    | inr r ↦ rw r.1 (Keeps-refl ir w)
  ]

  fold_some : (m : ℕ) → IsKnown ir p.lhs m → Keeps ir (fold_rhs (some m))
  fold_some m l = elim (const_lookup_lem ir p.rhs w p.rhs_valid) [
    | inl e ↦ rw e (Keeps-refl ir w)
    | inr r ↦ rw r.1 (fold_both m r.0 l r.2)
  ]

  fold_lhs : Keeps ir (and_then (const_lookup ir p.lhs) fold_rhs)
  fold_lhs = elim (const_lookup_lem ir p.lhs w p.lhs_valid) [
    | inl e ↦ rw e fold_none
    | inr l ↦ rw l.1 (fold_some l.0 l.2)
  ]

constant_folding_step : KeepsStep constant_folding_at
unfolding constant_folding_at
constant_folding_step ir b i x w e = rw (instr_unwrap_lem ir b i x w e) (
    Keeps-if ir (length x.operands == 2)
      (and_then (operand_at x 0) λ a. and_then (const_lookup ir a) λ lhs.
        and_then (operand_at x 1)
          λ c. and_then (const_lookup ir c) λ rhs. fold_with (instr b i) ir x lhs rhs)
      w
      λ h.
        let p = IsBinary_of_count ir x (w.fine b i x e) h in
        rw (operand_at_0 x p.lhs (p.rhs ∷ []) p.operands, operand_at_1 x p.lhs p.rhs [] p.operands)
          (fold_lhs ir b i x w e p))

-- On a well-formed representation `constant_folding` returns, and its result is
-- well formed, has the same blocks and places of instructions, and is satisfied by the same values.
pub constant_folding_lem :
    (ir : Ir) → IsWellFormed ir → (ir' : Ir) × (constant_folding ir ≡ ok ir') × Kept ir ir'
unfolding constant_folding
constant_folding_lem ir w = for_each-Keeps constant_folding_at constant_folding_step ir w
