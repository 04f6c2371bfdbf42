-- ===== src/Decompile/Ir/Consts.antt =====
-- The constants of dis86/src/decompile/ir/methods.rs: a new constant has the value asked for, and
-- leaves what the instructions mean as it was.
use mathlib.Core.List.{map}
use mathlib.Core.Path.{subst, ap₂}
use dis.Prelude.{
  ℕ, suc, ◌+◌, ◌<◌, ◌^◌, ◌≡◌, refl, sym, ap, ◌∙◌, inl, inr, Bool, true, Option, none, some, List,
  [], ◌∷◌, ◌++◌, ◌==◌, ==_iff, ltb, arith, length, get_elem?, all, &&-eq-true, Bool-cases,
  if◌then◌else◌, length-append, get_elem?-append, get_elem?-append_length, lt-length_of_get_elem?,
}
use dis.Decompile.Ir.Def.{Ref, const, instr, Ir}
use dis.Decompile.Ir.Methods.{block_at, iter_instrs, find_const, const_or_push, const_new}
use dis.Decompile.Ir.Value.{
  find_instr, Valuation, value, is_valid, is_live, IsWellFormed, Equation, eval, or_zero,
}
use dis.Decompile.Ir.Rewrite.{Kept, Kept-refl, some-injective}

pub ltb-true : (a b : ℕ) → a < b → ltb a b ≡ true
ltb-true a b h = ground arith

pub lt_of_ltb : (a b : ℕ) → ltb a b ≡ true → a < b
lt_of_ltb a b h = ground arith

-- A constant that is found stands where it was found.
find_const_lem :
    (val : ℕ) (ks : List ℕ) (i n : ℕ)
    → find_const val ks i ≡ some n
    → (j : ℕ) × (n ≡ i + j) × (get_elem? ks j ≡ some val)
unfolding find_const
find_const_lem val [] i n h = absurd (cc)
find_const_lem val (k ∷ ks) i n h = elim (Bool-cases (val == k)) [
  | inl e ↦ (
    0,
    (let found : i ≡ n =
          some-injective (sym (ap (λ t. if t then some i else find_const val ks (suc i)) e) ∙ h) in
        omega arith),
    ap some (sym ((==_iff val k).0 e)),
  )
  | inr e ↦
      let rest =
        find_const_lem val ks (suc i) n
          (sym (ap (λ t. if t then some i else find_const val ks (suc i)) e) ∙ h) in
      (suc rest.0, omega (arith, rest.1), rest.2)
]

all-append :
    {A : Type 0} (p : A → Bool) (xs : List A) (v : A)
    → all p xs ≡ true
    → p v ≡ true
    → all p (xs ++ v ∷ []) ≡ true
all-append p [] v h k = ground arith
all-append p (x ∷ xs) v h k = ground (arith, all-append p xs v)

-- What every instruction and every later change may rely on when constants were added.
pub record IsGrown (ir ir' : Ir) : Type 0 where
  pub kept : Kept ir ir'
  pub maps :
      (val : Valuation) (rs : List Ref)
      → all (is_valid ir) rs ≡ true
      → map (value ir' val) rs ≡ map (value ir val) rs
  pub instrs : (b i : ℕ) → find_instr ir' b i ≡ find_instr ir b i

pub record IsConst (ir : Ir) (r : Ref) (k : ℕ) : Type 0 where
  pub there : is_valid ir r ≡ true
  pub is : (val : Valuation) → value ir val r ≡ k

module _ (ir : Ir) (k : ℕ) where
  abbrev push : Ir
  push = record ir { consts = ir.consts ++ k ∷ [] }

  push-valid : (r : Ref) → is_valid ir r ≡ true → is_valid push r ≡ true
  push-valid (const n) h =
      ltb-true n (length push.consts)
        (omega (arith, lt_of_ltb n (length ir.consts) h, length-append ir.consts (k ∷ [])))
  push-valid (instr b i) h = h
  push-valid _ h = h

  push-values :
      (val : Valuation) (r : Ref) → is_valid ir r ≡ true → value push val r ≡ value ir val r
  push-values val (const n) h =
      ap or_zero (get_elem?-append ir.consts (k ∷ []) n (lt_of_ltb n (length ir.consts) h))
  push-values val _ h = refl

  push-valids : (rs : List Ref) → all (is_valid ir) rs ≡ true → all (is_valid push) rs ≡ true
  push-valids [] h = refl
  push-valids (r ∷ rs) h =
      let both = &&-eq-true (is_valid ir r) (all (is_valid ir) rs) h in
      rw (push-valid r both.0, push-valids rs both.1) refl

  push-map :
      (val : Valuation) (rs : List Ref)
      → all (is_valid ir) rs ≡ true
      → map (value push val) rs ≡ map (value ir val) rs
  push-map val [] h = refl
  push-map val (r ∷ rs) h =
      let both = &&-eq-true (is_valid ir r) (all (is_valid ir) rs) h in
      ap₂ ◌∷◌ (push-values val r both.0) (push-map val rs both.1)

  push-live : (rs : List Ref) → all (is_live ir) rs ≡ true → all (is_live push) rs ≡ true
  push-live [] h = refl
  push-live (const n ∷ rs) h = absurd (cc)
  push-live (instr b i ∷ rs) h =
      let both = &&-eq-true (is_live ir (instr b i)) (all (is_live ir) rs) h in
      rw (both.0, push-live rs both.1) refl
  push-live (_ ∷ rs) h = absurd (cc)

  push-IsGrown : IsWellFormed ir → k < 2 ^ 16 → IsGrown ir push
  unfolding iter_instrs block_at
  push-IsGrown w small = record {
    kept = record {
      well_formed = record {
        blkref = w.blkref;
        walked = λ b e.
            let old = w.walked b e in
            record { refs = old.refs; walk = old.walk; live = push-live old.refs old.live };
        fine = λ b i x e.
            let old = w.fine b i x e in
            record { count = old.count; valid = push-valids x.operands old.valid };
        words = all-append (λ v. ltb v (2 ^ 16)) ir.consts k w.words (ltb-true k (2 ^ 16) small);
      };
      same_blocks = λ b. refl;
      same_instrs = λ b i. refl;
      same_values = λ val. (
        λ s. record {
          small = s.small;
          computes = λ b i x e.
              subst (λ vs. Equation (val (instr b i)) (eval x vs))
                (sym (push-map val x.operands (w.fine b i x e).valid)) (s.computes b i x e);
        },
        λ s. record {
          small = s.small;
          computes = λ b i x e.
              subst (λ vs. Equation (val (instr b i)) (eval x vs))
                (push-map val x.operands (w.fine b i x e).valid) (s.computes b i x e);
        },
      );
    };
    maps = push-map;
    instrs = λ b i. refl;
  }

  const_or_push_lem :
      (o : Option ℕ)
      → IsWellFormed ir
      → k < 2 ^ 16
      → ((n : ℕ) → o ≡ some n → get_elem? ir.consts n ≡ some k)
      → IsGrown ir (const_or_push o ir k).1
        × IsConst (const_or_push o ir k).1 (const_or_push o ir k).0 k
  const_or_push_lem none w small f = (
    push-IsGrown w small,
    record {
      there =
          ltb-true (length ir.consts) (length push.consts)
            (omega (arith, length-append ir.consts (k ∷ [])));
      is = λ val. ap or_zero (get_elem?-append_length ir.consts k);
    },
  )
  const_or_push_lem (some n) w small f = (
    record { kept = Kept-refl ir w; maps = λ val rs h. refl; instrs = λ b i. refl },
    record {
      there = ltb-true n (length ir.consts) (lt-length_of_get_elem? ir.consts n k (f n refl));
      is = λ val. ap or_zero (f n refl);
    },
  )

  pub const_new_lem :
      IsWellFormed ir
      → k < 2 ^ 16
      → IsGrown ir (const_new ir k).1 × IsConst (const_new ir k).1 (const_new ir k).0 k
  unfolding const_new
  const_new_lem w small = const_or_push_lem (find_const k ir.consts 0) w small λ n e.
      let at = find_const_lem k ir.consts 0 n e in
      subst (λ j. get_elem? ir.consts j ≡ some k) (omega (arith, at.1)) at.2
