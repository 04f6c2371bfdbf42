-- ===== src/Decompile/Opt/Propagation.antt =====
-- `value_propagation` of dis86/src/decompile/opt.rs over a whole representation.
use mathlib.Core.List.{map}
use mathlib.Core.Path.{subst, ap₂}
use dis.Prelude.{
  ℕ, suc, ◌≡◌, inl, inr, refl, sym, ap, ◌∙◌, Bool, true, false, ◌||◌, Option, none, some, List, [],
  ◌∷◌, ◌==◌, arith, length, all, &&-eq-true,
}
use dis.Result.{ok}
use dis.Decompile.Ir.Opcode.{Opcode}
use dis.Decompile.Ir.Def.{Ref, instr, Instr, Ir, ref_eq}
use dis.Decompile.Ir.Equality.{ref_eq_sound}
use dis.Decompile.Ir.Methods.{instr_mut}
use dis.Decompile.Ir.Value.{
  find_instr, Valuation, value, is_valid, IsWellFormed, arity, has_arity, eval, Equation,
}
use dis.Decompile.Ir.Rewrite.{Kept, instr_unwrap_lem}
use dis.Decompile.Ir.Changed.{SatisfiesBut, instr_mut-Kept}
use dis.Decompile.Opt.Walk.{Keeps, KeepsStep, for_each-Keeps}
use dis.Decompile.Opt.Replace.{IsFine-IsUnary}
use dis.Decompile.Opt.Propagate.{
  is_ref, contains_ref, refs_of_blocks, operand_propagate, propagate_all, with_operands,
  value_propagation_at, value_propagation,
}
use dis.Decompile.Opt.Pigeonhole.{ref_eq_refl}
use dis.Decompile.Opt.Propagated.{propagate_from_lem, is_ref-eq, arity_ref, or_right}

or_false_right : (a : Bool) → (a || false) ≡ true → a ≡ true
or_false_right a h = ground arith

has_arity-length :
    (o : Option ℕ) (rs ss : List Ref) → length rs ≡ length ss → has_arity o rs ≡ has_arity o ss
has_arity-length none rs ss h = refl
has_arity-length (some n) rs ss h = ap (λ l. l == n) h

module _ (ir : Ir) (b i : ℕ) (x : Instr) (w : IsWellFormed ir)
    (e : find_instr ir b i ≡ some x) where
  pub operand_propagate_lem :
      (r : Ref)
      → (is_ref x.opcode ≡ true → x.operands ≡ r ∷ [])
      → is_valid ir r ≡ true
      → (r' : Ref) × (operand_propagate ir r ≡ ok r')
        × (is_valid ir r' ≡ true)
        × ((val : Valuation) → SatisfiesBut ir b i val → value ir val r' ≡ value ir val r)
  unfolding operand_propagate contains_ref
  operand_propagate_lem r only v =
      let all_refs = refs_of_blocks 0 ir.blocks in
      let run =
        propagate_from_lem ir b i x w e r only (suc (length all_refs)) [] r v refl refl
          (omega arith) (ap (λ t. t || false) (ref_eq_refl r)) in
      (run.0, run.1, run.2, λ val s. elim (run.3 val s) [ inl h ↦ ap (value ir val) h | inr h ↦ h ])

  abbrev Propagated : List Ref → Type 0
  Propagated rs =
      (ss : List Ref) × (propagate_all ir rs ≡ ok ss)
      × (all (is_valid ir) ss ≡ true)
      × (length ss ≡ length rs)
      × ((val : Valuation)
          → SatisfiesBut ir b i val
          → map (value ir val) ss ≡ map (value ir val) rs)

  propagate_all_lem :
      (rs : List Ref)
      → ((r : Ref) → contains_ref rs r ≡ true → is_ref x.opcode ≡ true → x.operands ≡ r ∷ [])
      → all (is_valid ir) rs ≡ true
      → Propagated rs
  unfolding propagate_all contains_ref
  propagate_all_lem [] only v = ([], refl, refl, refl, λ val s. refl)
  propagate_all_lem (r ∷ rs) only v =
      let both = &&-eq-true (is_valid ir r) (all (is_valid ir) rs) v in
      let first =
        operand_propagate_lem r (only r (ap (λ t. t || contains_ref rs r) (ref_eq_refl r)))
          both.0 in
      let rest =
        propagate_all_lem rs (λ s h. only s (or_right (ref_eq r s) (contains_ref rs s) h)) both.1 in
      (
        first.0 ∷ rest.0,
        rw (first.1, rest.1) refl,
        rw (first.2, rest.2) refl,
        ap suc rest.3,
        λ val s. ap₂ ◌∷◌ (first.3 val s) (rest.4 val s),
      )

  -- A reference instruction has one operand.
  pub only_operand :
      (r : Ref) → contains_ref x.operands r ≡ true → is_ref x.opcode ≡ true → x.operands ≡ r ∷ []
  unfolding contains_ref
  only_operand r h o =
      let p = IsFine-IsUnary ir x Opcode.ref (w.fine b i x e) (is_ref-eq x.opcode o) arity_ref in
      let here : contains_ref (p.src ∷ []) r ≡ true =
        sym (ap (λ rs. contains_ref rs r) p.operands) ∙ h in
      p.operands ∙ ap (λ s. s ∷ []) (ref_eq_sound p.src r (or_false_right (ref_eq p.src r) here))

  Propagated-Keeps :
      (p : Propagated x.operands) → Keeps ir (instr_mut ir (instr b i) (with_operands p.0))
  Propagated-Keeps p =
      let fine = w.fine b i x e in
      instr_mut-Kept ir b i x (with_operands p.0) w e
        (record {
          count = has_arity-length (arity x.opcode) p.0 x.operands p.3 ∙ fine.count;
          valid = p.2;
        })
        λ val s.
          let same = ap (eval x) (p.4 val s) in
          (
            λ q. subst (Equation (val (instr b i))) (sym same) q,
            λ q. subst (Equation (val (instr b i))) same q,
          )

value_propagation_step : KeepsStep value_propagation_at
unfolding value_propagation_at
value_propagation_step ir b i x w e =
    let p =
      propagate_all_lem ir b i x w e x.operands (only_operand ir b i x w e)
        (w.fine b i x e).valid in
    rw (instr_unwrap_lem ir b i x w e, p.1) (Propagated-Keeps ir b i x w e p)

-- On a well-formed representation, also one with cycles of references, `value_propagation` returns,
-- and its result is well formed, has the same blocks and places of instructions, and is satisfied by
-- the same values.
pub value_propagation_lem :
    (ir : Ir) → IsWellFormed ir → (ir' : Ir) × (value_propagation ir ≡ ok ir') × Kept ir ir'
unfolding value_propagation
value_propagation_lem ir w = for_each-Keeps value_propagation_at value_propagation_step ir w
