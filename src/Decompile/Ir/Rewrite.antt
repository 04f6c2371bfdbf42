-- ===== src/Decompile/Ir/Rewrite.antt =====
-- What one changed instruction, or one more constant, keeps of the intermediate representation.
use mathlib.Core.Path.{fun_ext}
use dis.Prelude.{
  ℕ, zero, suc, ◌≡◌, ◌≢◌, refl, sym, ap, ◌∙◌, ◌⊎◌, ◌↔◌, true, Option, none, some, List, ◌∷◌, ==_iff,
  arith, get_elem?, set_elem, ◌>>=◌, get_elem?-set_elem, get_elem?-set_elem_ne,
  lt-length_of_get_elem?,
}
use dis.Result.{ok, and_then}
use dis.Decompile.Ir.Def.{Ref, instr, Instr, InstrData, Block, Ir}
use dis.Decompile.Ir.BlockData.{lookup, modify, index_of, data_next, lookup_link}
use dis.Decompile.Ir.Methods.{block_at, block_mut, instr_at, instr_unwrap, instr_mut, refs_from}
use dis.Decompile.Ir.Value.{find_block, find_instr, Valuation, Satisfies, is_some, IsWellFormed}

-- The same blocks and places of instructions, still well formed, and the same values satisfy both.
pub record Kept (ir ir' : Ir) : Type 0 where
  pub well_formed : IsWellFormed ir'
  pub same_blocks : (b : ℕ) → is_some (find_block ir' b) ≡ is_some (find_block ir b)
  pub same_instrs : (b i : ℕ) → is_some (find_instr ir' b i) ≡ is_some (find_instr ir b i)
  pub same_values : (val : Valuation) → Satisfies ir val ↔ Satisfies ir' val

pub Kept-refl : (ir : Ir) → IsWellFormed ir → Kept ir ir
Kept-refl ir w = record {
  well_formed = w;
  same_blocks = λ b. refl;
  same_instrs = λ b i. refl;
  same_values = λ val. (λ s. s, λ s. s);
}

pub Kept-trans : {a b c : Ir} → Kept a b → Kept b c → Kept a c
Kept-trans p q = record {
  well_formed = q.well_formed;
  same_blocks = λ b. q.same_blocks b ∙ p.same_blocks b;
  same_instrs = λ b i. q.same_instrs b i ∙ p.same_instrs b i;
  same_values = λ val. (
    λ s. (q.same_values val).0 ((p.same_values val).0 s),
    λ s. (p.same_values val).1 ((q.same_values val).1 s),
  );
}

-- A value that a chain of options returns comes from its parts.
pub bind-eq-some :
    {A B : Type 0} (o : Option A) (f : A → Option B) (b : B)
    → (o >>= f) ≡ some b
    → (a : A) × (o ≡ some a) × (f a ≡ some b)
bind-eq-some none f b h = absurd (cc)
bind-eq-some (some a) f b h = (a, refl, h)

pub bind_id-eq-some :
    {A : Type 0} (o : Option (Option A)) (a : A) → (o >>= λ p. p) ≡ some a → o ≡ some (some a)
bind_id-eq-some none a h = absurd (cc)
bind_id-eq-some (some p) a h = ap some h

pub is_some-eq-true : {A : Type 0} (o : Option A) → is_some o ≡ true → (a : A) × (o ≡ some a)
is_some-eq-true none h = absurd (cc)
is_some-eq-true (some a) h = (a, refl)

pub some-injective : {A : Type 0} {a b : A} → some a ≡ some b → a ≡ b
some-injective h = cc

-- Finding a block, as the code does it.
pub block_at_lem :
    (ir : Ir) (b : ℕ) (blk : Block) → find_block ir b ≡ some blk → block_at ir b ≡ ok blk
unfolding block_at
block_at_lem ir b blk h = rw (bind_id-eq-some (get_elem? ir.blocks b) blk h) refl

pub lookup_lem :
    (d : InstrData) (b i : ℕ) (x : Instr)
    → d.blkref ≡ b
    → get_elem? d.instrs i ≡ some x
    → lookup d (instr b i) ≡ ok x
unfolding lookup index_of
lookup_lem d b i x e h = rw ((==_iff b d.blkref).1 (sym e), h) refl

pub instr_at_lem :
    (ir : Ir) (b i : ℕ) (x : Instr)
    → IsWellFormed ir
    → find_instr ir b i ≡ some x
    → instr_at ir (instr b i) ≡ ok (some x)
unfolding instr_at
instr_at_lem ir b i x w h =
    let found = bind-eq-some (find_block ir b) (λ blk. get_elem? blk.instr_data.instrs i) x h in
    rw
      (
        block_at_lem ir b found.0 found.1,
        lookup_lem found.0.instr_data b i x (w.blkref b found.0 found.1) found.2,
      )
      refl

pub instr_unwrap_lem :
    (ir : Ir) (b i : ℕ) (x : Instr)
    → IsWellFormed ir
    → find_instr ir b i ≡ some x
    → instr_unwrap ir (instr b i) ≡ ok x
unfolding instr_unwrap
instr_unwrap_lem ir b i x w h = rw (instr_at_lem ir b i x w h) refl

pub eq_or_ne : (a b : ℕ) → (a ≡ b) ⊎ (a ≢ b)
eq_or_ne a b = omega arith

pub find_block-mut :
    (ir : Ir) (b : ℕ) (old new : Block)
    → find_block ir b ≡ some old
    → find_block (block_mut ir b new) b ≡ some new
unfolding block_mut
find_block-mut ir b old new h =
    let there =
      lt-length_of_get_elem? ir.blocks b (some old)
        (bind_id-eq-some (get_elem? ir.blocks b) old h) in
    rw (get_elem?-set_elem ir.blocks b (some new) there) refl

pub find_block-mut_ne :
    (ir : Ir) (b c : ℕ) (new : Block) → b ≢ c → find_block (block_mut ir b new) c ≡ find_block ir c
unfolding block_mut
find_block-mut_ne ir b c new h = rw (get_elem?-set_elem_ne ir.blocks b c (some new) h) refl

-- The walk over a block's instructions reads the links alone.
abbrev pub with_instrs : List Instr → InstrData → InstrData
with_instrs xs d = record d { instrs = xs }

data_next-with_instrs :
    (xs : List Instr) (d : InstrData) (r : Ref) → data_next (with_instrs xs d) r ≡ data_next d r
unfolding data_next lookup_link index_of
data_next-with_instrs xs d (instr b i) = refl
data_next-with_instrs xs d _ = refl

pub refs_from-with_instrs :
    (xs : List Instr) (fuel : ℕ) (d : InstrData) (o : Option Ref)
    → refs_from fuel (with_instrs xs d) o ≡ refs_from fuel d o
unfolding refs_from
refs_from-with_instrs xs zero d none = refl
refs_from-with_instrs xs (suc fuel) d none = refl
refs_from-with_instrs xs zero d (some r) = refl
refs_from-with_instrs xs (suc fuel) d (some r) = rw (data_next-with_instrs xs d r) (
    ap (and_then (data_next d r)) (
      fun_ext
        λ next. ap (λ t. and_then t λ rest. ok (r ∷ rest)) (refs_from-with_instrs xs fuel d next)))

abbrev pub changed : Block → ℕ → Instr → Block
changed blk i y = record blk {
  instr_data = with_instrs (set_elem blk.instr_data.instrs i y) blk.instr_data;
}

pub instr_mut_lem :
    (ir : Ir) (b i : ℕ) (x : Instr) (f : Instr → Instr) (blk : Block)
    → blk.instr_data.blkref ≡ b
    → find_block ir b ≡ some blk
    → get_elem? blk.instr_data.instrs i ≡ some x
    → instr_mut ir (instr b i) f ≡ ok (block_mut ir b (changed blk i (f x)))
unfolding instr_mut modify index_of
instr_mut_lem ir b i x f blk e h k =
    rw
      (
        block_at_lem ir b blk h,
        lookup_lem blk.instr_data b i x e k,
        (==_iff b blk.instr_data.blkref).1 (sym e),
      )
      refl
