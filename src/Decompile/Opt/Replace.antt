-- ===== src/Decompile/Opt/Replace.antt =====
-- The change that the passes of dis86/src/decompile/opt.rs make: an instruction becomes a reference
-- to a value that it equals, or to a new constant.
use mathlib.Core.List.{map}
use mathlib.Core.Path.{subst, ap₂}
use dis.Prelude.{
  ℕ, ◌<◌, ◌^◌, ◌≡◌, ◌↔◌, refl, sym, ap, ◌∙◌, true, ◌&&◌, some, List, [], ◌∷◌, ◌==◌, length,
  get_elem?, all, &&-eq-true, arith,
}
use dis.Result.{ok, from_option, no_operand_at}
use dis.Decompile.Ir.Opcode.{Opcode}
use dis.Decompile.Ir.Def.{Ref, instr, Instr, Ir, ref_eq}
use dis.Decompile.Ir.Methods.{const_new, instr_mut, operand_at}
use dis.Decompile.Ir.Value.{
  find_instr, Valuation, value, Computes, is_valid, IsFine, IsWellFormed, arity, has_arity, eval_1,
  eval_2, eval, eval_op, Equation,
}
use dis.Decompile.Ir.Rewrite.{Kept-trans}
use dis.Decompile.Ir.Changed.{instr_mut-Kept, SatisfiesBut}
use dis.Decompile.Ir.Consts.{const_new_lem}
use dis.Decompile.Opt.{make_ref, make_const, same_operands}
use dis.Decompile.Opt.Walk.{Keeps}

pub make_ref-IsFine :
    (ir : Ir) (x : Instr) (r : Ref) → is_valid ir r ≡ true → IsFine ir (make_ref r x)
unfolding arity
make_ref-IsFine ir x r h = record { count = refl; valid = rw h refl }

-- An instruction with a value becomes a reference to an equal one.
agree_of_eval :
    (ir : Ir) (x : Instr) (r s : Ref) (val : Valuation)
    → eval x (map (value ir val) x.operands) ≡ some (value ir val r)
    → Computes ir val s x ↔ Computes ir val s (make_ref r x)
unfolding eval_1
agree_of_eval ir x r s val h =
    (λ c. subst (Equation (val s)) h c, λ c. subst (Equation (val s)) (sym h) c)

pub make_ref-Keeps :
    (ir : Ir) (b i : ℕ) (x : Instr) (r : Ref)
    → IsWellFormed ir
    → find_instr ir b i ≡ some x
    → is_valid ir r ≡ true
    → ((val : Valuation)
        → SatisfiesBut ir b i val
        → eval x (map (value ir val) x.operands) ≡ some (value ir val r))
    → Keeps ir (instr_mut ir (instr b i) (make_ref r))
make_ref-Keeps ir b i x r w e valid same =
    instr_mut-Kept ir b i x (make_ref r) w e (make_ref-IsFine ir x r valid)
      λ val s. agree_of_eval ir x r (instr b i) val (same val s)

-- An instruction becomes a reference to a new constant that it equals.
pub make_const-Keeps :
    (ir : Ir) (b i : ℕ) (x : Instr) (k : ℕ)
    → IsWellFormed ir
    → find_instr ir b i ≡ some x
    → k < 2 ^ 16
    → ((val : Valuation) → eval x (map (value ir val) x.operands) ≡ some k)
    → Keeps ir (make_const (instr b i) ir k)
make_const-Keeps ir b i x k w e small same =
    let new = const_new_lem ir k w small in
    let ir1 = (const_new ir k).1 in
    let grown = new.0 in
    let last =
      make_ref-Keeps ir1 b i x (const_new ir k).0 grown.kept.well_formed (grown.instrs b i ∙ e)
        new.1.there
        λ val s.
          ap (eval x) (grown.maps val x.operands (w.fine b i x e).valid)
          ∙ same val
          ∙ ap some (sym (new.1.is val)) in
    (last.0, last.1, Kept-trans grown.kept last.2)

-- The operands of an operation of two.
two_operands : (rs : List Ref) → (length rs == 2) ≡ true → (a b : Ref) × (rs ≡ a ∷ b ∷ [])
two_operands [] h = absurd (ground arith)
two_operands (a ∷ []) h = absurd (ground arith)
two_operands (a ∷ b ∷ []) h = (a, b, refl)
two_operands (a ∷ b ∷ c ∷ rs) h = absurd (ground arith)

one_operand : (rs : List Ref) → (length rs == 1) ≡ true → (a : Ref) × (rs ≡ a ∷ [])
one_operand [] h = absurd (ground arith)
one_operand (a ∷ []) h = (a, refl)
one_operand (a ∷ b ∷ rs) h = absurd (ground arith)

-- The operands of an operation of one and of two.
pub record IsUnary (ir : Ir) (x : Instr) : Type 0 where
  pub src : Ref
  pub operands : x.operands ≡ src ∷ []
  pub src_valid : is_valid ir src ≡ true

pub record IsBinary (ir : Ir) (x : Instr) : Type 0 where
  pub lhs : Ref
  pub rhs : Ref
  pub operands : x.operands ≡ lhs ∷ rhs ∷ []
  pub lhs_valid : is_valid ir lhs ≡ true
  pub rhs_valid : is_valid ir rhs ≡ true

pub IsFine-IsUnary :
    (ir : Ir) (x : Instr) (op : Opcode)
    → IsFine ir x
    → x.opcode ≡ op
    → arity op ≡ some 1
    → IsUnary ir x
IsFine-IsUnary ir x op f o e =
    let h = ap arity o ∙ e in
    let at = one_operand x.operands (subst (λ n. has_arity n x.operands ≡ true) h f.count) in
    let valid = subst (λ rs. all (is_valid ir) rs ≡ true) at.1 f.valid in
    record { src = at.0; operands = at.1; src_valid = (&&-eq-true (is_valid ir at.0) true valid).0 }

pub IsBinary_of_count :
    (ir : Ir) (x : Instr) → IsFine ir x → (length x.operands == 2) ≡ true → IsBinary ir x
IsBinary_of_count ir x f h =
    let at = two_operands x.operands h in
    let valid = subst (λ rs. all (is_valid ir) rs ≡ true) at.2 f.valid in
    let both = &&-eq-true (is_valid ir at.0) (is_valid ir at.1 && true) valid in
    record {
      lhs = at.0;
      rhs = at.1;
      operands = at.2;
      lhs_valid = both.0;
      rhs_valid = (&&-eq-true (is_valid ir at.1) true both.1).0;
    }

pub IsFine-IsBinary :
    (ir : Ir) (x : Instr) (op : Opcode)
    → IsFine ir x
    → x.opcode ≡ op
    → arity op ≡ some 2
    → IsBinary ir x
IsFine-IsBinary ir x op f o e =
    IsBinary_of_count ir x f (subst (λ n. has_arity n x.operands ≡ true) (ap arity o ∙ e) f.count)

pub operand_at_0 :
    (x : Instr) (a : Ref) (rs : List Ref) → x.operands ≡ a ∷ rs → operand_at x 0 ≡ ok a
unfolding operand_at
operand_at_0 x a rs h = ap (λ ops. from_option no_operand_at (get_elem? ops 0)) h

pub operand_at_1 :
    (x : Instr) (a b : Ref) (rs : List Ref) → x.operands ≡ a ∷ b ∷ rs → operand_at x 1 ≡ ok b
unfolding operand_at
operand_at_1 x a b rs h = ap (λ ops. from_option no_operand_at (get_elem? ops 1)) h

pub eval_binary :
    (ir : Ir) (val : Valuation) (x : Instr) (p : IsBinary ir x) (op : Opcode)
    → x.opcode ≡ op
    → eval x (map (value ir val) x.operands)
      ≡ eval_2 op x.typ x.compare_width (value ir val p.lhs) (value ir val p.rhs)
eval_binary ir val x p op h =
    ap₂ (λ o ops. eval_op o x.typ x.compare_width (map (value ir val) ops)) h p.operands

pub eval_unary :
    (ir : Ir) (val : Valuation) (x : Instr) (p : IsUnary ir x) (op : Opcode)
    → x.opcode ≡ op
    → eval x (map (value ir val) x.operands) ≡ eval_1 op (value ir val p.src)
eval_unary ir val x p op h =
    ap₂ (λ o ops. eval_op o x.typ x.compare_width (map (value ir val) ops)) h p.operands

pub same_operands_lem :
    (ir : Ir) (x : Instr) (p : IsBinary ir x) → same_operands x ≡ ok (ref_eq p.lhs p.rhs)
same_operands_lem ir x p =
    rw (operand_at_0 x p.lhs (p.rhs ∷ []) p.operands, operand_at_1 x p.lhs p.rhs [] p.operands) refl
