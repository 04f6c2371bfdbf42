-- ===== src/Decompile/Ir/Refine.antt =====
-- The abstract insertion that `insert` of dis86/src/decompile/ir/block_data.rs implements.
use mathlib.Core.Path.{subst}
use dis.Prelude.{
  ℕ, ◌≡◌, refl, sym, ap, ◌∙◌, Bool, true, false, not, ◌&&◌, inl, inr, List, [], ◌∷◌, ◌++◌, ◌==◌,
  ==_iff, arith, length, &&-eq-true, if◌then◌else◌, Bool-cases,
}
use dis.Result.{ok}
use dis.Decompile.Ir.Def.{instr, const, init, block, symbol, func, Instr, InstrData}
use dis.Decompile.Ir.BlockData.{Loc, at_first, at_last, before, after, data_new, insert}
use dis.Decompile.Ir.Chain.{is_new, IsChain}
use dis.Decompile.Ir.Insert.{Inserted, n, first_lem, last_lem}
use dis.Decompile.Ir.InsertBefore.{before_lem}

-- The abstract insertion, by indices: first, last, or in front of another index.
unfoldable pub place_before : ℕ → ℕ → List ℕ → List ℕ
place_before j k [] = []
place_before j k (i ∷ xs) =
    let rest = place_before j k xs in if j == i then k ∷ i ∷ xs else i ∷ rest

unfoldable pub placed : Loc → ℕ → List ℕ → List ℕ
unfolding place_before
placed at_first k xs = k ∷ xs
placed at_last k xs = xs ++ k ∷ []
placed (before (instr b j)) k xs = place_before j k xs
placed _ k xs = xs

-- Only in front of an instruction of the block may another one stand.
unfoldable pub can_place : ℕ → Loc → List ℕ → Bool
can_place blk at_first xs = true
can_place blk at_last xs = true
can_place blk (before (instr b j)) xs = b == blk && not (is_new j xs)
can_place blk _ xs = false

place_before_lem :
    (j k : ℕ) (xs : List ℕ)
    → is_new j xs ≡ false
    → (ys zs : List ℕ) × (xs ≡ ys ++ j ∷ zs) × (place_before j k xs ≡ ys ++ k ∷ j ∷ zs)
unfolding place_before
place_before_lem j k [] h = absurd (cc)
place_before_lem j k (i ∷ xs) h = elim (Bool-cases (j == i)) [
  | inl e ↦ (
    [],
    xs,
    ap (λ t. t ∷ xs) (sym ((==_iff j i).0 e)),
    ap (λ t. if t then k ∷ i ∷ xs else i ∷ place_before j k xs) e
        ∙ ap (λ t. k ∷ t ∷ xs) (sym ((==_iff j i).0 e)),
  )
  | inr e ↦
      let rest = place_before_lem j k xs (sym (ap (λ t. not t && is_new j xs) e) ∙ h) in
      (
        i ∷ rest.0,
        rest.1,
        ap (◌∷◌ i) rest.2,
        ap (λ t. if t then k ∷ i ∷ xs else i ∷ place_before j k xs) e ∙ ap (◌∷◌ i) rest.3,
      )
]

insert_before-Inserted :
    (d : InstrData) (x : Instr) (j : ℕ) (xs : List ℕ)
    → IsChain d xs
    → is_new j xs ≡ false
    → Inserted d x (before (instr d.blkref j)) (place_before j (n d x) xs)
insert_before-Inserted d x j xs c h =
    let at = place_before_lem j (n d x) xs h in
    subst (Inserted d x (before (instr d.blkref j))) (sym at.3)
      (before_lem d x at.0 j at.1 (subst (IsChain d) at.2 c))

-- Inserting an instruction first, last, or in front of an instruction of the block succeeds: it
-- appends the instruction to the vector, returns the reference to it, and the list that the links
-- form is the old one with the new index at that place.
pub insert_lem :
    (d : InstrData) (x : Instr) (loc : Loc) (xs : List ℕ)
    → IsChain d xs
    → can_place d.blkref loc xs ≡ true
    → (d' : InstrData) × (insert d x loc ≡ ok (instr d.blkref (length d.instrs), d'))
      × IsChain d' (placed loc (length d.instrs) xs)
      × (d'.instrs ≡ d.instrs ++ x ∷ [])
unfolding placed can_place
insert_lem d x at_first xs c h = first_lem d x xs c
insert_lem d x at_last xs c h = last_lem d x xs c
insert_lem d x (before (instr b j)) xs c h =
    let both = &&-eq-true (b == d.blkref) (not (is_new j xs)) h in
    let old_j : is_new j xs ≡ false = ground (arith, both.1) in
    subst (λ t. Inserted d x (before (instr t j)) (place_before j (n d x) xs))
      (sym ((==_iff b d.blkref).0 both.0)) (insert_before-Inserted d x j xs c old_j)
insert_lem d x (before (const i)) xs c h = absurd (cc)
insert_lem d x (before (init i)) xs c h = absurd (cc)
insert_lem d x (before (block i)) xs c h = absurd (cc)
insert_lem d x (before (symbol i)) xs c h = absurd (cc)
insert_lem d x (before (func i)) xs c h = absurd (cc)
insert_lem d x (after i) xs c h = absurd (cc)

pub data_new-IsChain : (blkref : ℕ) → IsChain (data_new blkref) []
data_new-IsChain blkref = record {
  links_length = refl;
  all_there = refl;
  counted = refl;
  distinct = refl;
  first = refl;
  last = refl;
  linked = tt;
}
