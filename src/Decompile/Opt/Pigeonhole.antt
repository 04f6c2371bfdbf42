-- ===== src/Decompile/Opt/Pigeonhole.antt =====
-- References without repetition are at most as many as the instructions of the representation, which
-- bounds the loop of `operand_propagate` (dis86/src/decompile/opt.rs).
use dis.Prelude.{
  ℕ, zero, suc, ◌+◌, ◌≤◌, ◌<◌, ◌≡◌, refl, sym, ap, ◌∙◌, Bool, true, false, not, ◌&&◌, ◌||◌, Option,
  none, some, List, [], ◌∷◌, ◌++◌, ◌==◌, ==_iff, arith, if◌then◌else◌, length, get_elem?, all,
  &&-eq-true, Bool-cases, inl, inr, ◌⊎◌, lt-length_of_get_elem?,
}
use mathlib.Core.Path.{subst}
use dis.Asm.Instr.{discriminant}
use dis.Decompile.Ir.Def.{
  Table, param, local, global, register, Ref, const, instr, init, block, symbol, func, Instr, Block,
  Ir, ref_eq, reg_eq, table_eq,
}
use dis.Decompile.Ir.Equality.{ref_eq_sound}
use dis.Decompile.Ir.Value.{find_block, find_instr}
use dis.Decompile.Ir.Rewrite.{some-injective, bind-eq-some, bind_id-eq-some}
use dis.Decompile.Opt.Propagate.{contains_ref, refs_below, refs_of_blocks}

or_cases : (a b : Bool) → (a || b) ≡ true → (a ≡ true) ⊎ (b ≡ true)
or_cases true b h = inl refl
or_cases false b h = inr h

-- The list without the first occurrence of a reference.
remove : Ref → List Ref → List Ref
remove r [] = []
remove r (s ∷ ss) = if ref_eq s r then ss else s ∷ remove r ss

length-remove :
    (r : Ref) (ss : List Ref) → contains_ref ss r ≡ true → suc (length (remove r ss)) ≡ length ss
unfolding contains_ref remove
length-remove r [] h = absurd (cc)
length-remove r (s ∷ ss) h = elim (Bool-cases (ref_eq s r)) [
  | inl e ↦ rw e refl
  | inr e ↦
      let rest = length-remove r ss (sym (ap (λ t. t || contains_ref ss r) e) ∙ h) in
      rw e (ap suc rest)
]

contains-remove :
    (r : Ref) (ss : List Ref) (t : Ref)
    → ref_eq r t ≡ false
    → contains_ref ss t ≡ true
    → contains_ref (remove r ss) t ≡ true
unfolding contains_ref remove
contains-remove r [] t n h = absurd (cc)
contains-remove r (s ∷ ss) t n h = elim (Bool-cases (ref_eq s r)) [
  | inl e ↦
      let other : ref_eq s t ≡ false = ap (λ u. ref_eq u t) (ref_eq_sound s r e) ∙ n in
      rw e (sym (ap (λ c. c || contains_ref ss t) other) ∙ h)
  | inr e ↦ rw e (elim (or_cases (ref_eq s t) (contains_ref ss t) h) [
    | inl f ↦ rw f refl
    | inr f ↦ let rest = contains-remove r ss t n f in ground (arith, rest)
  ])
]

abbrev pub is_distinct_refs : List Ref → Bool
is_distinct_refs [] = true
is_distinct_refs (r ∷ rs) = not (contains_ref rs r) && is_distinct_refs rs

table_same : (t : Table) → table_eq t t ≡ true
unfolding table_eq
table_same param = refl
table_same local = refl
table_same global = refl
table_same register = refl

same : (a : ℕ) → (a == a) ≡ true
same a = (==_iff a a).1 refl

pub ref_eq_refl : (r : Ref) → ref_eq r r ≡ true
unfolding ref_eq reg_eq
ref_eq_refl (const a) = same a
ref_eq_refl (instr a i) = rw (same a, same i) refl
ref_eq_refl (init a) = same (discriminant a)
ref_eq_refl (block a) = same a
ref_eq_refl (symbol a) = rw (table_same a.table, same a.idx, same a.off, same a.sz) refl
ref_eq_refl (func a) = same a

ref_eq_sym : (r s : Ref) → ref_eq s r ≡ false → ref_eq r s ≡ false
ref_eq_sym r s h = elim (Bool-cases (ref_eq r s)) [
  | inl e ↦ absurd (
      let both : true ≡ false =
        sym (ref_eq_refl r) ∙ ap (λ t. ref_eq t r) (ref_eq_sound r s e) ∙ h in
      cc)
  | inr e ↦ e
]

pub or_false : (a b : Bool) → (a || b) ≡ false → (a ≡ false) × (b ≡ false)
or_false true b h = absurd (cc)
or_false false b h = (refl, h)

all-contains-remove :
    (r : Ref) (rs L : List Ref)
    → contains_ref rs r ≡ false
    → all (contains_ref L) rs ≡ true
    → all (contains_ref (remove r L)) rs ≡ true
unfolding contains_ref
all-contains-remove r [] L n h = refl
all-contains-remove r (s ∷ rs) L n h =
    let both = &&-eq-true (contains_ref L s) (all (contains_ref L) rs) h in
    let parts = or_false (ref_eq s r) (contains_ref rs r) n in
    let apart = ref_eq_sym r s parts.0 in
    rw (contains-remove r L s apart both.0, all-contains-remove r rs L parts.1 both.1) refl

pub length-le_of_distinct :
    (rs L : List Ref)
    → is_distinct_refs rs ≡ true
    → all (contains_ref L) rs ≡ true
    → length rs ≤ length L
length-le_of_distinct [] L d h = omega arith
length-le_of_distinct (r ∷ rs) L d h =
    let new = &&-eq-true (not (contains_ref rs r)) (is_distinct_refs rs) d in
    let both = &&-eq-true (contains_ref L r) (all (contains_ref L) rs) h in
    let fresh : contains_ref rs r ≡ false = ground (arith, new.0) in
    omega (
      arith,
      length-remove r L both.0,
      length-le_of_distinct rs (remove r L) new.1 (all-contains-remove r rs L fresh both.1),
    )

-- The instructions that are there are among the references of the blocks.
contains-append-left :
    (ss ts : List Ref) (r : Ref) → contains_ref ss r ≡ true → contains_ref (ss ++ ts) r ≡ true
unfolding contains_ref
contains-append-left [] ts r h = absurd (cc)
contains-append-left (s ∷ ss) ts r h = elim (or_cases (ref_eq s r) (contains_ref ss r) h) [
  | inl e ↦ rw e refl
  | inr e ↦ let rest = contains-append-left ss ts r e in ground (arith, rest)
]

contains-append-right :
    (ss ts : List Ref) (r : Ref) → contains_ref ts r ≡ true → contains_ref (ss ++ ts) r ≡ true
unfolding contains_ref
contains-append-right [] ts r h = h
contains-append-right (s ∷ ss) ts r h =
    let rest = contains-append-right ss ts r h in ground (arith, rest)

below : (b n i : ℕ) → i < suc n → ref_eq (instr b n) (instr b i) ≡ false → i < n
unfolding ref_eq
below b n i h e = let here = same b in ground (arith, here)

contains-refs_below : (b n i : ℕ) → i < n → contains_ref (refs_below b n) (instr b i) ≡ true
unfolding contains_ref
contains-refs_below b zero i h = absurd (omega arith)
contains-refs_below b (suc n) i h = elim (Bool-cases (ref_eq (instr b n) (instr b i))) [
  | inl e ↦ rw e refl
  | inr e ↦
      let lower : i < n = below b n i h e in
      let rest = contains-refs_below b n i lower in ground (arith, rest)
]

contains-refs_of_blocks :
    (bs : List (Option Block)) (n j i : ℕ) (blk : Block)
    → get_elem? bs j ≡ some (some blk)
    → i < length blk.instr_data.instrs
    → contains_ref (refs_of_blocks n bs) (instr (n + j) i) ≡ true
contains-refs_of_blocks [] n j i blk e h = absurd (cc)
contains-refs_of_blocks (none ∷ bs) n zero i blk e h = absurd (cc)
contains-refs_of_blocks (none ∷ bs) n (suc j) i blk e h =
    let at : suc n + j ≡ n + suc j = omega arith in
    subst (λ k. contains_ref (refs_of_blocks (suc n) bs) (instr k i) ≡ true) at
      (contains-refs_of_blocks bs (suc n) j i blk e h)
contains-refs_of_blocks (some b ∷ bs) n zero i blk e h =
    let same_block : b ≡ blk = some-injective (some-injective e) in
    let at : n ≡ n + 0 = omega arith in
    let range : i < length b.instr_data.instrs =
      subst (λ (c : Block). i < length c.instr_data.instrs) (sym same_block) h in
    contains-append-left (refs_below n (length b.instr_data.instrs)) (refs_of_blocks (suc n) bs)
      (instr (n + 0) i)
      (subst (λ k. contains_ref (refs_below n (length b.instr_data.instrs)) (instr k i) ≡ true) at
        (contains-refs_below n (length b.instr_data.instrs) i range))
contains-refs_of_blocks (some b ∷ bs) n (suc j) i blk e h =
    let at : suc n + j ≡ n + suc j = omega arith in
    contains-append-right (refs_below n (length b.instr_data.instrs)) (refs_of_blocks (suc n) bs)
      (instr (n + suc j) i)
      (subst (λ k. contains_ref (refs_of_blocks (suc n) bs) (instr k i) ≡ true) at
        (contains-refs_of_blocks bs (suc n) j i blk e h))

pub contains-find_instr :
    (ir : Ir) (b i : ℕ) (x : Instr)
    → find_instr ir b i ≡ some x
    → contains_ref (refs_of_blocks 0 ir.blocks) (instr b i) ≡ true
contains-find_instr ir b i x h =
    let at = bind-eq-some (find_block ir b) (λ blk. get_elem? blk.instr_data.instrs i) x h in
    let e : 0 + b ≡ b = omega arith in
    subst (λ k. contains_ref (refs_of_blocks 0 ir.blocks) (instr k i) ≡ true) e
      (contains-refs_of_blocks ir.blocks 0 b i at.0
        (bind_id-eq-some (get_elem? ir.blocks b) at.0 at.1)
        (lt-length_of_get_elem? at.0.instr_data.instrs i x at.2))
