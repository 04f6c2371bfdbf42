-- ===== src/Decompile/Opt/Walk.antt =====
-- The loops of dis86/src/decompile/opt.rs: a pass over all blocks and instructions returns, and
-- keeps what each of its steps keeps.
use mathlib.Core.Path.{subst, fun_ext}
use dis.Prelude.{
  ℕ, false, not, if◌then◌else◌, suc, ◌+◌, ◌≡◌, refl, sym, ap, ◌∙◌, Bool, true, Option, none, some,
  List, [], ◌∷◌, get_elem?, all, &&-eq-true, arith,
}
use dis.Result.{Result, ok, and_then}
use dis.Decompile.Ir.Def.{Ref, const, instr, Instr, Block, Ir}
use dis.Decompile.Ir.Methods.{iter_blocks, present}
use dis.Decompile.Ir.Value.{find_block, find_instr, is_some, is_live, IsWellFormed}
use dis.Decompile.Ir.Rewrite.{Kept, Kept-refl, Kept-trans, is_some-eq-true}
use dis.Decompile.Opt.{Step, over_refs, over_blocks, for_each}

-- The result is there and keeps the representation.
abbrev pub Keeps : Ir → Result Ir → Type 0
Keeps ir res = (ir' : Ir) × (res ≡ ok ir') × Kept ir ir'

abbrev pub KeepsStep : Step → Type 0
KeepsStep step =
    (ir : Ir) (b i : ℕ) (x : Instr)
    → IsWellFormed ir
    → find_instr ir b i ≡ some x
    → Keeps ir (step (instr b i) ir)

pub Keeps-refl : (ir : Ir) → IsWellFormed ir → Keeps ir (ok ir)
Keeps-refl ir w = (ir, refl, Kept-refl ir w)

-- A run that goes on from a kept representation.
pub Keeps-bind :
    (ir : Ir) (res : Result Ir) (f : Ir → Result Ir)
    → Keeps ir res
    → ((ir' : Ir) → Kept ir ir' → Keeps ir' (f ir'))
    → Keeps ir (and_then res f)
Keeps-bind ir res f p q =
    let next = q p.0 p.2 in (next.0, ap (λ r. and_then r f) p.1 ∙ next.1, Kept-trans p.2 next.2)

-- A step that looks at one opcode leaves the others.
pub Keeps-if :
    (ir : Ir) (test : Bool) (res : Result Ir)
    → IsWellFormed ir
    → (test ≡ true → Keeps ir res)
    → Keeps ir (if not test then ok ir else res)
Keeps-if ir true res w f = f refl
Keeps-if ir false res w f = Keeps-refl ir w

pub Keeps-then :
    (ir : Ir) (test : Bool) (res : Result Ir)
    → IsWellFormed ir
    → (test ≡ true → Keeps ir res)
    → Keeps ir (if test then res else ok ir)
Keeps-then ir true res w f = f refl
Keeps-then ir false res w f = Keeps-refl ir w

same_live : {ir ir' : Ir} → Kept ir ir' → (r : Ref) → is_live ir' r ≡ is_live ir r
same_live k (instr b i) = k.same_instrs b i
same_live k _ = refl

still_live :
    {ir ir' : Ir}
    → Kept ir ir'
    → (rs : List Ref) → all (is_live ir) rs ≡ true
    → all (is_live ir') rs ≡ true
still_live k rs h = rw (fun_ext (same_live k)) h

module _ (step : Step) (keeps : KeepsStep step) where
  Keeps-ref : (ir : Ir) (r : Ref) → IsWellFormed ir → is_live ir r ≡ true → Keeps ir (step r ir)
  Keeps-ref ir (instr b i) w h =
      let x = is_some-eq-true (find_instr ir b i) h in keeps ir b i x.0 w x.1
  Keeps-ref ir (const n) w h = absurd (cc)
  Keeps-ref ir _ w h = absurd (cc)

  over_refs-Keeps :
      (rs : List Ref) (ir : Ir)
      → IsWellFormed ir
      → all (is_live ir) rs ≡ true
      → Keeps ir (over_refs step rs ir)
  over_refs-Keeps [] ir w h = Keeps-refl ir w
  over_refs-Keeps (r ∷ rs) ir w h =
      let both = &&-eq-true (is_live ir r) (all (is_live ir) rs) h in
      Keeps-bind ir (step r ir) (over_refs step rs) (Keeps-ref ir r w both.0)
        λ ir' k. over_refs-Keeps rs ir' k.well_formed (still_live k rs both.1)

  abbrev is_present : Ir → ℕ → Bool
  is_present ir b = is_some (find_block ir b)

  over_blocks-Keeps :
      (bs : List ℕ) (ir : Ir)
      → IsWellFormed ir
      → all (is_present ir) bs ≡ true
      → Keeps ir (over_blocks step bs ir)
  over_blocks-Keeps [] ir w h = Keeps-refl ir w
  over_blocks-Keeps (b ∷ bs) ir w h =
      let both = &&-eq-true (is_present ir b) (all (is_present ir) bs) h in
      let walked = w.walked b both.0 in
      subst
        (λ res. Keeps ir (and_then res λ rs. and_then (over_refs step rs ir) (over_blocks step bs)))
        (sym walked.walk)
        (Keeps-bind ir (over_refs step walked.refs ir) (over_blocks step bs)
          (over_refs-Keeps walked.refs ir w walked.live)
          λ ir' k. over_blocks-Keeps bs ir' k.well_formed (rw (fun_ext k.same_blocks) both.1))

  shifted :
      (ir : Ir) (n : ℕ) (o : Option Block) (os : List (Option Block))
      → ((j : ℕ) → get_elem? (o ∷ os) j ≡ get_elem? ir.blocks (n + j))
      → (j : ℕ) → get_elem? os j ≡ get_elem? ir.blocks (suc n + j)
  shifted ir n o os h j =
      let e : n + suc j ≡ suc n + j = omega arith in h (suc j) ∙ ap (get_elem? ir.blocks) e

  present-present :
      (ir : Ir) (n : ℕ) (os : List (Option Block))
      → ((j : ℕ) → get_elem? os j ≡ get_elem? ir.blocks (n + j))
      → all (is_present ir) (present n os) ≡ true
  present-present ir n [] h = refl
  present-present ir n (none ∷ os) h = present-present ir (suc n) os (shifted ir n none os h)
  present-present ir n (some blk ∷ os) h =
      let e : n + 0 ≡ n = omega arith in
      let there : get_elem? ir.blocks n ≡ some (some blk) =
        sym (h 0 ∙ ap (get_elem? ir.blocks) e) in
      rw (there, present-present ir (suc n) os (shifted ir n (some blk) os h)) refl

  pub for_each-Keeps : (ir : Ir) → IsWellFormed ir → Keeps ir (for_each step ir)
  unfolding for_each iter_blocks
  for_each-Keeps ir w = over_blocks-Keeps (present 0 ir.blocks) ir w (
      present-present ir 0 ir.blocks
        λ j. let e : j ≡ 0 + j = omega arith in ap (get_elem? ir.blocks) e)
