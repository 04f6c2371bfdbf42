-- ===== src/Decompile/Opt/EqualZero.antt =====
-- `reduce_equal_zero_32` of dis86/src/decompile/opt.rs keeps what the instructions mean: both halves
-- of a value are zero exactly if the value is.
use mathlib.Core.Path.{subst, ap₂}
use Prim.Native.Nat.{bit_or}
use dis.Prelude.{
  ℕ, ◌/◌, ◌%◌, ◌<◌, ◌^◌, ◌≡◌, ◌⊎◌, inl, inr, refl, sym, ap, ◌∙◌, Bool, true, false, not, Option,
  none, some, List, [], ◌∷◌, ◌==◌, ==_iff, arith, Bool-cases, set_elem, all,
}
use dis.Prelude.Bits.{bit_or-eq-zero}
use dis.Result.{ok, and_then}
use dis.Types.{DataType}
use dis.Decompile.Ir.Opcode.{Opcode}
use dis.Decompile.Ir.Def.{Ref, instr, Instr, Ir}
use dis.Decompile.Ir.Methods.{instr_mut}
use dis.Decompile.Ir.Value.{
  find_instr, Valuation, value, is_valid, IsFine, IsWellFormed, arity, has_arity, eval_1, eval_2,
  one_if, Equation,
}
use dis.Decompile.Ir.Rewrite.{instr_unwrap_lem, some-injective}
use dis.Decompile.Ir.Changed.{SatisfiesBut, instr_mut-Kept}
use dis.Decompile.Opt.{is_or}
use dis.Decompile.Opt.Wide.{
  is_upper16, is_lower16, is_eq_or_neq, matches, is_there, first_operand, compare_wide,
}
use dis.Decompile.Opt.Walk.{Keeps}
use dis.Decompile.Opt.Replace.{IsUnary, IsBinary, operand_at_0, eval_binary}
use dis.Decompile.Opt.Constants.{IsKnown}
use dis.Decompile.Opt.Halves.{
  IsMatch, instr_matches_lem, is_upper16-eq, is_lower16-eq, unary_value, value_small, differs,
}
use dis.Decompile.Opt.Make32.{instr-injective}

-- The halves of a value are both zero exactly if it is.
halves_zero :
    (u l v : ℕ)
    → v < 2 ^ 32
    → ((u ≡ v / 2 ^ 16 % 2 ^ 16) × (l ≡ v % 2 ^ 16))
      ⊎ ((u ≡ v % 2 ^ 16) × (l ≡ v / 2 ^ 16 % 2 ^ 16))
    → (bit_or u l == 0) ≡ (v == 0)
halves_zero u l v s h = elim (Bool-cases (bit_or u l == 0)) [
  | inl e ↦
      let both = bit_or-eq-zero u l ((==_iff (bit_or u l) 0).0 e) in
      let zero_v : v ≡ 0 = elim h [
        | inl p ↦ omega (arith, p.0, p.1, both.0, both.1)
        | inr p ↦ omega (arith, p.0, p.1, both.0, both.1)
      ] in
      e ∙ sym ((==_iff v 0).1 zero_v)
  | inr e ↦ elim (Bool-cases (v == 0)) [
    | inl z ↦
        let zero_v : v ≡ 0 = (==_iff v 0).0 z in
        let zero_u : u ≡ 0 = elim h [
          | inl p ↦ omega (arith, p.0, zero_v)
          | inr p ↦ omega (arith, p.0, zero_v)
        ] in
        let zero_l : l ≡ 0 = elim h [
          | inl p ↦ omega (arith, p.1, zero_v)
          | inr p ↦ omega (arith, p.1, zero_v)
        ] in
        let zero_or : bit_or u l ≡ 0 = ap₂ bit_or zero_u zero_l in
        ((==_iff (bit_or u l) 0).1 zero_or) ∙ sym z
    | inr z ↦ e ∙ sym z
  ]
]

-- A match of `matches` that was found.
pub matches_lem :
    (ir : Ir) (r : Ref) (test : Opcode → Bool)
    → IsWellFormed ir
    → is_valid ir r ≡ true
    → (t : Bool) × (matches ir r test ≡ ok t) × (t ≡ true → (x : Instr) × IsMatch ir r test x)
matches_lem ir r test w h = elim (instr_matches_lem ir r test w h) [
  | inl e ↦ (false, ap (λ s. and_then s λ o. ok (is_there o)) e, λ n. absurd (cc))
  | inr m ↦ (true, ap (λ s. and_then s λ o. ok (is_there o)) m.1, λ n. (m.0, m.2))
]

pub first_operand_lem :
    (ir : Ir) (r : Ref) (test : Opcode → Bool) (u : Instr) (m : IsMatch ir r test u)
    (p : IsUnary ir u)
    → IsWellFormed ir
    → first_operand ir r ≡ ok p.src
first_operand_lem ir r test u m p w =
    ap (first_operand ir) m.at
    ∙ rw (instr_unwrap_lem ir m.b m.i u w m.found) (operand_at_0 u p.src [] p.operands)

-- An instruction has one opcode.
pub one_opcode :
    (ir : Ir) (r : Ref) (u l : Instr)
    → IsMatch ir r is_upper16 u
    → IsMatch ir r is_lower16 l
    → true ≡ false
one_opcode ir r u l mu ml =
    let at = instr-injective mu.b mu.i ml.b ml.i (sym mu.at ∙ ml.at) in
    let same : u ≡ l = some-injective (sym mu.found ∙ ap₂ (find_instr ir) at.0 at.1 ∙ ml.found) in
    let upper : l.opcode ≡ Opcode.upper16 =
      ap (λ (t : Instr). t.opcode) (sym same) ∙ is_upper16-eq u.opcode mu.passes in
    sym ml.passes ∙ ap is_lower16 upper

has_arity-swap :
    (o : Option ℕ) (a b : Ref) (rs : List Ref) → has_arity o (a ∷ rs) ≡ has_arity o (b ∷ rs)
has_arity-swap none a b rs = refl
has_arity-swap (some n) a b rs = refl

compare_wide-IsBinary :
    (ir : Ir) (x : Instr) (p : IsBinary ir x) (src : Ref)
    → is_valid ir src ≡ true
    → IsBinary ir (compare_wide src x)
compare_wide-IsBinary ir x p src h = record {
  lhs = src;
  rhs = p.rhs;
  operands = ap (λ rs. set_elem rs 0 src) p.operands;
  lhs_valid = h;
  rhs_valid = p.rhs_valid;
}

compare_wide-IsFine :
    (ir : Ir) (x : Instr) (p : IsBinary ir x) (src : Ref)
    → IsFine ir x
    → is_valid ir src ≡ true
    → IsFine ir (compare_wide src x)
compare_wide-IsFine ir x p src f h = record {
  count =
      subst (λ rs. has_arity (arity x.opcode) (set_elem rs 0 src) ≡ true) (sym p.operands)
        (has_arity-swap (arity x.opcode) src p.lhs (p.rhs ∷ [])
          ∙ subst (λ rs. has_arity (arity x.opcode) rs ≡ true) p.operands f.count);
  valid =
      subst (λ rs. all (is_valid ir) (set_elem rs 0 src) ≡ true) (sym p.operands)
        (rw (h, p.rhs_valid) refl);
}

-- Both comparisons with zero, of any width, are equal where the tests are.
compare_agree :
    (op : Opcode) (t t' : DataType) (x : Instr) (a v k : ℕ)
    → is_eq_or_neq op ≡ true
    → (a == k) ≡ (v == k)
    → eval_2 op t x.compare_width a k ≡ eval_2 op t' x.compare_width v k
unfolding eval_2
compare_agree Opcode.eq t t' x a v k h e = ap (λ c. some (one_if c)) e
compare_agree Opcode.neq t t' x a v k h e = ap (λ c. some (one_if (not c))) e
compare_agree _ t t' x a v k h e = absurd (cc)

not_both :
    (o : Opcode)
    → is_eq_or_neq o ≡ true
    → (is_or o ≡ false) × (is_upper16 o ≡ false) × (is_lower16 o ≡ false)
not_both Opcode.eq h = (refl, refl, refl)
not_both Opcode.neq h = (refl, refl, refl)
not_both _ h = absurd (cc)

pub arity_compare : (o : Opcode) → is_eq_or_neq o ≡ true → arity o ≡ some 2
unfolding arity
arity_compare Opcode.eq h = refl
arity_compare Opcode.neq h = refl
arity_compare _ h = absurd (cc)

pub is_or-eq : (o : Opcode) → is_or o ≡ true → o ≡ Opcode.or
is_or-eq Opcode.or h = refl
is_or-eq _ h = absurd (cc)

pub arity_or : arity Opcode.or ≡ some 2
unfolding arity
arity_or = refl

module _ (ir : Ir) (b i : ℕ) (x : Instr) (w : IsWellFormed ir) (e : find_instr ir b i ≡ some x)
    (h : is_eq_or_neq x.opcode ≡ true) (p : IsBinary ir x) where
  -- The value of the half at a reference.
  pub upper_value :
      (r : Ref) (u : Instr) (m : IsMatch ir r is_upper16 u) (pu : IsUnary ir u) (val : Valuation)
      → SatisfiesBut ir b i val
      → value ir val r ≡ value ir val pu.src / 2 ^ 16 % 2 ^ 16
  unfolding eval_1
  upper_value r u m pu val s =
      unary_value ir b i x r is_upper16 u m pu Opcode.upper16 val
        (value ir val pu.src / 2 ^ 16 % 2 ^ 16) s e (not_both x.opcode h).1
        (is_upper16-eq u.opcode m.passes) refl

  pub lower_value :
      (r : Ref) (u : Instr) (m : IsMatch ir r is_lower16 u) (pu : IsUnary ir u) (val : Valuation)
      → SatisfiesBut ir b i val
      → value ir val r ≡ value ir val pu.src % 2 ^ 16
  unfolding eval_1
  lower_value r u m pu val s =
      unary_value ir b i x r is_lower16 u m pu Opcode.lower16 val (value ir val pu.src % 2 ^ 16) s e
        (not_both x.opcode h).2 (is_lower16-eq u.opcode m.passes) refl

  or_value :
      (r : Ref) (o : Instr) (m : IsMatch ir r is_or o) (po : IsBinary ir o) (val : Valuation)
      → SatisfiesBut ir b i val
      → value ir val r ≡ bit_or (value ir val po.lhs) (value ir val po.rhs)
  unfolding eval_2
  or_value r o m po val s =
      ap (value ir val) m.at
      ∙ subst (Equation (val (instr m.b m.i)))
          (eval_binary ir val o po Opcode.or (is_or-eq o.opcode m.passes))
          (s.computes m.b m.i o m.found (differs ir b i x r is_or o m e (not_both x.opcode h).0))

  -- The comparison of a value in place of its halves.
  pub wide_Keeps :
      (o : Instr) (m : IsMatch ir p.lhs is_or o) (po : IsBinary ir o) (src : Ref)
      → IsKnown ir p.rhs 0
      → is_valid ir src ≡ true
      → ((val : Valuation)
          → SatisfiesBut ir b i val
          → ((value ir val po.lhs ≡ value ir val src / 2 ^ 16 % 2 ^ 16)
              × (value ir val po.rhs ≡ value ir val src % 2 ^ 16))
            ⊎ ((value ir val po.lhs ≡ value ir val src % 2 ^ 16)
                × (value ir val po.rhs ≡ value ir val src / 2 ^ 16 % 2 ^ 16)))
      → Keeps ir (instr_mut ir (instr b i) (compare_wide src))
  unfolding compare_wide-IsBinary
  wide_Keeps o m po src k valid halves =
      instr_mut-Kept ir b i x (compare_wide src) w e
        (compare_wide-IsFine ir x p src (w.fine b i x e) valid)
        λ val s.
          let tests =
            ap (λ a. a == 0) (or_value p.lhs o m po val s)
            ∙ halves_zero (value ir val po.lhs) (value ir val po.rhs) (value ir val src)
                (value_small ir val src w s.small) (halves val s) in
          let same =
            eval_binary ir val x p x.opcode refl
            ∙ ap (eval_2 x.opcode x.typ x.compare_width (value ir val p.lhs)) (k.is val)
            ∙ compare_agree x.opcode x.typ DataType.u32 x (value ir val p.lhs) (value ir val src) 0
                h tests
            ∙ ap (eval_2 x.opcode DataType.u32 x.compare_width (value ir val src)) (sym (k.is val))
            ∙ sym (
                eval_binary ir val (compare_wide src x) (compare_wide-IsBinary ir x p src valid)
                  x.opcode refl) in
          (
            λ q. subst (Equation (val (instr b i))) same q,
            λ q. subst (Equation (val (instr b i))) (sym same) q,
          )
