-- ===== src/Decompile/Opt/Propagated.antt =====
-- `operand_propagate` of dis86/src/decompile/opt.rs ends, also on a cycle of references, and returns a
-- reference of the same value.
use mathlib.Core.Path.{subst, ap₂}
use dis.Prelude.{
  ℕ, zero, suc, ◌+◌, ◌≡◌, ◌≢◌, ◌⊎◌, inl, inr, refl, sym, ap, ◌∙◌, Bool, true, false, not, ◌||◌,
  some, List, [], ◌∷◌, arith, length, all, Bool-cases,
}
use dis.Result.{Result, ok, ok-injective}
use dis.Decompile.Ir.Opcode.{Opcode}
use dis.Decompile.Ir.Def.{Ref, const, instr, Instr, Ir, ref_eq}
use dis.Decompile.Ir.Methods.{instr_at, operand_at}
use dis.Decompile.Ir.Value.{
  find_instr, Valuation, value, is_valid, IsWellFormed, arity, eval_1, Equation,
}
use dis.Decompile.Ir.Rewrite.{instr_at_lem, is_some-eq-true, eq_or_ne, some-injective}
use dis.Decompile.Ir.Changed.{SatisfiesBut}
use dis.Decompile.Opt.Replace.{IsUnary, IsFine-IsUnary, operand_at_0, eval_unary}
use dis.Decompile.Opt.Propagate.{is_ref, is_snapshot, contains_ref, propagate_from, refs_of_blocks}
use dis.Decompile.Opt.Pigeonhole.{
  length-le_of_distinct, contains-find_instr, is_distinct_refs, or_false,
}

pub is_ref-eq : (o : Opcode) → is_ref o ≡ true → o ≡ Opcode.ref
is_ref-eq Opcode.ref h = refl
is_ref-eq _ h = absurd (cc)

pub arity_ref : arity Opcode.ref ≡ some 1
unfolding arity
arity_ref = refl

pub head-injective : {A : Type 0} {a b : A} → a ∷ [] ≡ b ∷ [] → a ≡ b
head-injective h = cc

abbrev pub stops : List Ref → Ref → Instr → Bool
stops seen r y = not (is_ref y.opcode) || (is_snapshot y || contains_ref seen r)

-- The step of the loop at an instruction.
pub propagate-stop :
    (fuel : ℕ) (ir : Ir) (seen : List Ref) (c j : ℕ) (y : Instr)
    → IsWellFormed ir
    → find_instr ir c j ≡ some y
    → stops seen (instr c j) y ≡ true
    → propagate_from (suc fuel) ir seen (instr c j) ≡ ok (instr c j)
unfolding propagate_from
propagate-stop fuel ir seen c j y w e h = rw (instr_at_lem ir c j y w e, h) refl

pub propagate-next :
    (fuel : ℕ) (ir : Ir) (seen : List Ref) (c j : ℕ) (y : Instr) (s : Ref)
    → IsWellFormed ir
    → find_instr ir c j ≡ some y
    → stops seen (instr c j) y ≡ false
    → operand_at y 0 ≡ ok s
    → propagate_from (suc fuel) ir seen (instr c j) ≡ propagate_from fuel ir (instr c j ∷ seen) s
unfolding propagate_from
propagate-next fuel ir seen c j y s w e h o = rw (instr_at_lem ir c j y w e, h, o) refl

-- A reference that was seen is returned.
propagate-seen :
    (fuel : ℕ) (ir : Ir) (seen : List Ref) (r : Ref)
    → IsWellFormed ir
    → is_valid ir r ≡ true
    → contains_ref seen r ≡ true
    → propagate_from (suc fuel) ir seen r ≡ ok r
unfolding propagate_from instr_at
propagate-seen fuel ir seen (instr c j) w v h =
    let y = is_some-eq-true (find_instr ir c j) v in
    propagate-stop fuel ir seen c j y.0 w y.1 (ground (arith, h))
propagate-seen fuel ir seen (const n) w v h = refl
propagate-seen fuel ir seen r w v h = refl

pub or_right : (a b : Bool) → b ≡ true → (a || b) ≡ true
or_right a b h = ground arith

module _ (ir : Ir) (b i : ℕ) (x : Instr) (w : IsWellFormed ir)
    (e : find_instr ir b i ≡ some x) where
  abbrev all_refs : List Ref
  all_refs = refs_of_blocks 0 ir.blocks

  abbrev SameValue : Ref → Ref → Ref → Type 0
  SameValue start r' r =
      (val : Valuation)
      → SatisfiesBut ir b i val
      → (r' ≡ start) ⊎ (value ir val r' ≡ value ir val r)

  abbrev Propagates : Result Ref → Ref → Ref → Type 0
  Propagates res start r =
      (r' : Ref) × (res ≡ ok r') × (is_valid ir r' ≡ true) × SameValue start r' r

  stay :
      (res : Result Ref) (start r : Ref)
      → res ≡ ok r
      → is_valid ir r ≡ true
      → Propagates res start r
  stay res start r h v = (r, h, v, λ val s. inr refl)

  -- One step at another instruction keeps the value.
  ref_value :
      (c j : ℕ) (y : Instr) (p : IsUnary ir y) (val : Valuation)
      → SatisfiesBut ir b i val
      → find_instr ir c j ≡ some y
      → y.opcode ≡ Opcode.ref
      → (b ≢ c) ⊎ (i ≢ j)
      → val (instr c j) ≡ value ir val p.src
  unfolding eval_1
  ref_value c j y p val s f o n =
      subst (Equation (val (instr c j))) (eval_unary ir val y p Opcode.ref o) (s.computes c j y f n)

  same_or_other : (c j : ℕ) → ((b ≡ c) × (i ≡ j)) ⊎ ((b ≢ c) ⊎ (i ≢ j))
  same_or_other c j = elim (eq_or_ne b c) [
    | inl p ↦ elim (eq_or_ne i j) [ inl q ↦ inl (p, q) | inr n ↦ inr (inr n) ]
    | inr n ↦ inr (inl n)
  ]

  module _ (start : Ref) (only : is_ref x.opcode ≡ true → x.operands ≡ start ∷ []) where
    -- Behind the instruction itself stands the start, which was seen.
    through_itself :
        (fuel : ℕ) (seen : List Ref) (y : Instr) (p : IsUnary ir y) (r' : Ref)
        → x ≡ y
        → is_ref y.opcode ≡ true
        → contains_ref seen start ≡ true
        → propagate_from fuel ir seen p.src ≡ ok r'
        → r' ≡ start
    unfolding propagate_from
    through_itself zero seen y p r' same o h f = absurd (cc)
    through_itself (suc fuel) seen y p r' same o h f =
        let operands : start ∷ [] ≡ p.src ∷ [] =
          sym (only (ap (λ (t : Instr). is_ref t.opcode) same ∙ o))
          ∙ ap (λ (t : Instr). t.operands) same
          ∙ p.operands in
        let src : p.src ≡ start = sym (head-injective operands) in
        sym (
          ok-injective (
            sym (propagate-seen fuel ir seen p.src w p.src_valid (ap (contains_ref seen) src ∙ h))
            ∙ f))
        ∙ src

    -- One round at a reference instruction, from what the rest of the loop returns.
    propagate_step :
        (fuel : ℕ) (seen : List Ref) (c j : ℕ) (y : Instr) (p : IsUnary ir y)
        → find_instr ir c j ≡ some y
        → is_ref y.opcode ≡ true
        → stops seen (instr c j) y ≡ false
        → contains_ref (instr c j ∷ seen) start ≡ true
        → Propagates (propagate_from fuel ir (instr c j ∷ seen) p.src) start p.src
        → Propagates (propagate_from (suc fuel) ir seen (instr c j)) start (instr c j)
    propagate_step fuel seen c j y p f o h t rest = (
      rest.0,
      propagate-next fuel ir seen c j y p.src w f h (operand_at_0 y p.src [] p.operands) ∙ rest.1,
      rest.2,
      λ val s. elim (same_or_other c j) [
        | inl here ↦ inl (
            through_itself fuel (instr c j ∷ seen) y p rest.0
              (some-injective (sym e ∙ ap₂ (find_instr ir) here.0 here.1 ∙ f)) o t rest.1)
        | inr other ↦ elim (rest.3 val s) [
          | inl q ↦ inl q
          | inr q ↦ inr (q ∙ sym (ref_value c j y p val s f (is_ref-eq y.opcode o) other))
        ]
      ],
    )

    pub propagate_from_lem :
        (fuel : ℕ) (seen : List Ref) (r : Ref)
        → is_valid ir r ≡ true
        → is_distinct_refs seen ≡ true
        → all (contains_ref all_refs) seen ≡ true
        → fuel + length seen ≡ suc (length all_refs)
        → contains_ref (r ∷ seen) start ≡ true
        → Propagates (propagate_from fuel ir seen r) start r
    unfolding propagate_from contains_ref instr_at
    propagate_from_lem zero seen r v d k enough t =
        absurd (omega (arith, length-le_of_distinct seen all_refs d k))
    propagate_from_lem (suc fuel) seen (instr c j) v d k enough t =
        let y = is_some-eq-true (find_instr ir c j) v in
        elim (Bool-cases (stops seen (instr c j) y.0)) [
          | inl h ↦
              stay (propagate_from (suc fuel) ir seen (instr c j)) start (instr c j)
                (propagate-stop fuel ir seen c j y.0 w y.1 h) v
          | inr h ↦
              let parts =
                or_false (not (is_ref y.0.opcode))
                  (is_snapshot y.0 || contains_ref seen (instr c j)) h in
              let is_one : is_ref y.0.opcode ≡ true = ground (arith, parts.0) in
              let o = is_ref-eq y.0.opcode is_one in
              let unseen = (or_false (is_snapshot y.0) (contains_ref seen (instr c j)) parts.1).1 in
              let p = IsFine-IsUnary ir y.0 Opcode.ref (w.fine c j y.0 y.1) o arity_ref in
              let there = contains-find_instr ir c j y.0 y.1 in
              let distinct : is_distinct_refs (instr c j ∷ seen) ≡ true = rw (unseen, d) refl in
              let among : all (contains_ref all_refs) (instr c j ∷ seen) ≡ true =
                rw (there, k) refl in
              let started =
                or_right (ref_eq p.src start) (contains_ref (instr c j ∷ seen) start) t in
              propagate_step fuel seen c j y.0 p y.1 is_one h t (
                propagate_from_lem fuel (instr c j ∷ seen) p.src p.src_valid distinct among
                  (omega (arith, enough)) started)
        ]
    propagate_from_lem (suc fuel) seen (const n) v d k enough t =
        stay (propagate_from (suc fuel) ir seen (const n)) start (const n) refl v
    propagate_from_lem (suc fuel) seen r v d k enough t =
        stay (propagate_from (suc fuel) ir seen r) start r refl v
