-- ===== src/Decompile/Opt/Words.antt =====
-- `reduce_equal_zero_32` of dis86/src/decompile/opt.rs over a whole representation, and the passes on
-- words one after the other.
use mathlib.Core.Path.{subst, ap₂}
use dis.Prelude.{
  ℕ, ◌/◌, ◌%◌, ◌^◌, ◌≡◌, ◌⊎◌, inl, inr, refl, sym, ap, ◌∙◌, Bool, true, false, not, ◌||◌, some, [],
  ◌∷◌, ◌==◌, ==_iff, if◌then◌else◌,
}
use dis.Result.{Result, ok, and_then}
use dis.Decompile.Ir.Opcode.{Opcode}
use dis.Decompile.Ir.Def.{Ref, instr, Instr, Ir, ref_eq}
use dis.Decompile.Ir.Equality.{ref_eq_sound}
use dis.Decompile.Ir.Methods.{instr_mut, instr_matches, operand_at, const_lookup}
use dis.Decompile.Ir.Value.{find_instr, value, IsWellFormed}
use dis.Decompile.Ir.Rewrite.{Kept}
use dis.Decompile.Opt.{is_or, reduce_xor}
use dis.Decompile.Opt.Wide.{
  is_upper16, is_lower16, is_eq_or_neq, or_continue, first_operand, compare_wide, halves_of,
  reduce_equal_zero_32_at, reduce_equal_zero_32, reduce_make_32_signext_32,
  reduce_upper_lower_make32, reduce_words,
}
use dis.Decompile.Opt.Walk.{
  Keeps, KeepsStep, Keeps-refl, Keeps-bind, Keeps-if, Keeps-then, for_each-Keeps,
}
use dis.Decompile.Opt.Replace.{
  IsUnary, IsFine-IsUnary, IsBinary, IsFine-IsBinary, operand_at_0, operand_at_1,
}
use dis.Decompile.Opt.Constants.{IsKnown, const_lookup_lem}
use dis.Decompile.Opt.Halves.{
  IsMatch, Keeps-matches, is_upper16-eq, is_lower16-eq, arity_upper16, arity_lower16,
}
use dis.Decompile.Opt.Make32.{
  is_valid_of_found, instr-injective, reduce_make_32_signext_32_lem, reduce_upper_lower_make32_lem,
}
use dis.Decompile.Opt.Passes.{reduce_xor_lem}
use dis.Decompile.Opt.EqualZero.{
  matches_lem, first_operand_lem, one_opcode, arity_compare, is_or-eq, arity_or, upper_value,
  lower_value, wide_Keeps,
}

-- One operand is the upper half and the other the lower.
opposite :
    (ua la ub lb : Bool)
    → (ua ≡ true → la ≡ true → true ≡ false)
    → (ub ≡ true → lb ≡ true → true ≡ false)
    → (not (ua || ub) || not (la || lb)) ≡ false
    → ((ua ≡ true) × (lb ≡ true)) ⊎ ((la ≡ true) × (ub ≡ true))
opposite true la ub true p q h = inl (refl, refl)
opposite ua true true lb p q h = inr (refl, refl)
opposite true true false false p q h = absurd (let no = p refl refl in cc)
opposite true false ub false p q h = absurd (cc)
opposite false la false lb p q h = absurd (cc)
opposite false false true true p q h = absurd (let no = q refl refl in cc)
opposite false false true false p q h = absurd (cc)

Keeps-unless :
    (ir : Ir) (test : Bool) (res : Result Ir)
    → IsWellFormed ir
    → (test ≡ false → Keeps ir res)
    → Keeps ir (if test then ok ir else res)
Keeps-unless ir true res w f = Keeps-refl ir w
Keeps-unless ir false res w f = f refl

module _ (ir : Ir) (b i : ℕ) (x : Instr) (w : IsWellFormed ir) (e : find_instr ir b i ≡ some x)
    (h : is_eq_or_neq x.opcode ≡ true) (p : IsBinary ir x) (k : IsKnown ir p.rhs 0) (o : Instr)
    (m : IsMatch ir p.lhs is_or o) (po : IsBinary ir o) where
  upper-IsUnary : (r : Ref) (u : Instr) → IsMatch ir r is_upper16 u → IsUnary ir u
  upper-IsUnary r u mu =
      IsFine-IsUnary ir u Opcode.upper16 (w.fine mu.b mu.i u mu.found)
        (is_upper16-eq u.opcode mu.passes) arity_upper16

  lower-IsUnary : (r : Ref) (u : Instr) → IsMatch ir r is_lower16 u → IsUnary ir u
  lower-IsUnary r u mu =
      IsFine-IsUnary ir u Opcode.lower16 (w.fine mu.b mu.i u mu.found)
        (is_lower16-eq u.opcode mu.passes) arity_lower16

  abbrev rewrite : Result Ir
  rewrite = and_then (first_operand ir po.lhs) λ src.
      and_then (first_operand ir po.rhs)
        λ src'. if ref_eq src src' then instr_mut ir (instr b i) (compare_wide src) else ok ir

  upper_first :
      (u l : Instr)
      → IsMatch ir po.lhs is_upper16 u
      → IsMatch ir po.rhs is_lower16 l
      → Keeps ir rewrite
  upper_first u l mu ml =
      let pu = upper-IsUnary po.lhs u mu in
      let pl = lower-IsUnary po.rhs l ml in
      rw
        (
          first_operand_lem ir po.lhs is_upper16 u mu pu w,
          first_operand_lem ir po.rhs is_lower16 l ml pl w,
        )
        (Keeps-then ir (ref_eq pu.src pl.src) (instr_mut ir (instr b i) (compare_wide pu.src)) w
          λ same. wide_Keeps ir b i x w e h p o m po pu.src k pu.src_valid λ val s. inl (
            upper_value ir b i x w e h p po.lhs u mu pu val s,
            lower_value ir b i x w e h p po.rhs l ml pl val s
                ∙ ap (λ r. value ir val r % 2 ^ 16) (sym (ref_eq_sound pu.src pl.src same)),
          ))

  lower_first :
      (l u : Instr)
      → IsMatch ir po.lhs is_lower16 l
      → IsMatch ir po.rhs is_upper16 u
      → Keeps ir rewrite
  lower_first l u ml mu =
      let pu = upper-IsUnary po.rhs u mu in
      let pl = lower-IsUnary po.lhs l ml in
      rw
        (
          first_operand_lem ir po.lhs is_lower16 l ml pl w,
          first_operand_lem ir po.rhs is_upper16 u mu pu w,
        )
        (Keeps-then ir (ref_eq pl.src pu.src) (instr_mut ir (instr b i) (compare_wide pl.src)) w
          λ same. wide_Keeps ir b i x w e h p o m po pl.src k pl.src_valid λ val s. inr (
            lower_value ir b i x w e h p po.lhs l ml pl val s,
            upper_value ir b i x w e h p po.rhs u mu pu val s
                ∙ ap (λ r. value ir val r / 2 ^ 16 % 2 ^ 16)
                    (sym (ref_eq_sound pl.src pu.src same)),
          ))

  halves_Keeps : Keeps ir (halves_of ir (instr b i) o)
  halves_Keeps =
      let ua = matches_lem ir po.lhs is_upper16 w po.lhs_valid in
      let la = matches_lem ir po.lhs is_lower16 w po.lhs_valid in
      let ub = matches_lem ir po.rhs is_upper16 w po.rhs_valid in
      let lb = matches_lem ir po.rhs is_lower16 w po.rhs_valid in
      rw
        (
          operand_at_0 o po.lhs (po.rhs ∷ []) po.operands,
          operand_at_1 o po.lhs po.rhs [] po.operands,
          ua.1,
          la.1,
          ub.1,
          lb.1,
        )
        (Keeps-unless ir (not (ua.0 || ub.0) || not (la.0 || lb.0)) rewrite w λ c.
          elim (opposite ua.0 la.0 ub.0 lb.0
            (λ s t. one_opcode ir po.lhs (ua.2 s).0 (la.2 t).0 (ua.2 s).1 (la.2 t).1)
            (λ s t. one_opcode ir po.rhs (ub.2 s).0 (lb.2 t).0 (ub.2 s).1 (lb.2 t).1) c) [
              | inl q ↦ upper_first (ua.2 q.0).0 (lb.2 q.1).0 (ua.2 q.0).1 (lb.2 q.1).1
              | inr q ↦ lower_first (la.2 q.0).0 (ub.2 q.1).0 (la.2 q.0).1 (ub.2 q.1).1
            ])

module _ (ir : Ir) (b i : ℕ) (x : Instr) (w : IsWellFormed ir) (e : find_instr ir b i ≡ some x)
    (h : is_eq_or_neq x.opcode ≡ true) (p : IsBinary ir x) where
  or_operands : (o : Instr) → IsMatch ir p.lhs is_or o → IsBinary ir o
  or_operands o m =
      IsFine-IsBinary ir o Opcode.or (w.fine m.b m.i o m.found) (is_or-eq o.opcode m.passes)
        arity_or

  zero_Keeps :
      IsKnown ir p.rhs 0
      → Keeps ir (
          and_then (operand_at x 0) λ or_ref'.
            or_continue ir (instr_matches ir or_ref' is_or) λ o. halves_of ir (instr b i) o)
  zero_Keeps k = rw (operand_at_0 x p.lhs (p.rhs ∷ []) p.operands) (
      Keeps-matches ir p.lhs is_or _ w p.lhs_valid
        λ o m. halves_Keeps ir b i x w e h p k o m (or_operands o m))

  compare_Keeps : Keeps ir (
      and_then (operand_at x 1) λ k_ref. or_continue ir (const_lookup ir k_ref) λ k.
        if not (k == 0)
        then ok ir
        else and_then (operand_at x 0) λ or_ref'.
          or_continue ir (instr_matches ir or_ref' is_or) λ o. halves_of ir (instr b i) o)
  compare_Keeps =
      rw (operand_at_1 x p.lhs p.rhs [] p.operands)
        (elim (const_lookup_lem ir p.rhs w p.rhs_valid) [
          | inl none_there ↦ rw none_there (Keeps-refl ir w)
          | inr k ↦ rw k.1 (
              Keeps-if ir (k.0 == 0) _ w
                λ z. zero_Keeps (subst (IsKnown ir p.rhs) ((==_iff k.0 0).0 z) k.2))
        ])

reduce_equal_zero_32_step : KeepsStep reduce_equal_zero_32_at
unfolding reduce_equal_zero_32_at
reduce_equal_zero_32_step ir b i x w e =
    Keeps-matches ir (instr b i) is_eq_or_neq _ w (is_valid_of_found ir b i x e) λ y m.
      let at = instr-injective b i m.b m.i m.at in
      let f : find_instr ir b i ≡ some y = ap₂ (find_instr ir) at.0 at.1 ∙ m.found in
      compare_Keeps ir b i y w f m.passes
        (IsFine-IsBinary ir y y.opcode (w.fine b i y f) refl (arity_compare y.opcode m.passes))

reduce_equal_zero_32_lem :
    (ir : Ir) → IsWellFormed ir → (ir' : Ir) × (reduce_equal_zero_32 ir ≡ ok ir') × Kept ir ir'
unfolding reduce_equal_zero_32
reduce_equal_zero_32_lem ir w =
    for_each-Keeps reduce_equal_zero_32_at reduce_equal_zero_32_step ir w

-- On a well-formed representation the first four passes of a round of `optimize` return one after the
-- other, and their result is well formed, has the same blocks and places of instructions, and is
-- satisfied by the same values.
pub reduce_words_lem :
    (ir : Ir) → IsWellFormed ir → (ir' : Ir) × (reduce_words ir ≡ ok ir') × Kept ir ir'
unfolding reduce_words
reduce_words_lem ir w = Keeps-bind ir (reduce_xor ir) _ (reduce_xor_lem ir w) λ ir1 k1.
    Keeps-bind ir1 (reduce_make_32_signext_32 ir1) _
      (reduce_make_32_signext_32_lem ir1 k1.well_formed)
      λ ir2 k2.
        Keeps-bind ir2 (reduce_upper_lower_make32 ir2) _
          (reduce_upper_lower_make32_lem ir2 k2.well_formed)
          λ ir3 k3. reduce_equal_zero_32_lem ir3 k3.well_formed
