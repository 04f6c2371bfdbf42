-- ===== src/Decompile/Ir/Chain.antt =====
-- The abstract view of dis86/src/decompile/ir/block_data.rs: the order of a block's instructions, as
-- the list of their indices, and what the links say of it.
use mathlib.Core.List.{map}
use dis.Prelude.{
  ℕ, zero, suc, ◌≤◌, ◌≡◌, ◌≢◌, refl, ap, ◌∙◌, Bool, true, not, ◌&&◌, Option, none, some, List, [],
  ◌∷◌, ◌++◌, ◌==◌, ==_iff, arith, length, get_elem?, set_elem, get_elem?-set_elem_ne,
  get_elem?-append, lt-length_of_get_elem?, &&-eq-true,
}
use dis.Result.{ok}
use dis.Decompile.Ir.Def.{Ref, instr, InstrLink, InstrData}
use dis.Decompile.Ir.BlockData.{index_of, lookup_link, data_next}
use dis.Decompile.Ir.Methods.{refs_from, data_refs}

-- The first of a list of indices as a reference, or what stands behind them.
abbrev pub head_or : ℕ → List ℕ → Option Ref → Option Ref
head_or blk [] q = q
head_or blk (i ∷ xs) q = some (instr blk i)

-- The last one, or what stands before them.
abbrev pub last_or : ℕ → Option Ref → List ℕ → Option Ref
last_or blk p [] = p
last_or blk p (i ∷ xs) = last_or blk (some (instr blk i)) xs

-- The links of a part of the list, between `p` and `q`.
abbrev pub Segment : ℕ → List InstrLink → Option Ref → List ℕ → Option Ref → Type 0
Segment blk links p [] q = Unit
Segment blk links p (i ∷ xs) q =
    (get_elem? links i ≡ some (record { prev = p; next = head_or blk xs q }))
    × Segment blk links (some (instr blk i)) xs q

abbrev pub is_new : ℕ → List ℕ → Bool
is_new k [] = true
is_new k (i ∷ xs) = not (k == i) && is_new k xs

abbrev pub is_distinct : List ℕ → Bool
is_distinct [] = true
is_distinct (i ∷ xs) = is_new i xs && is_distinct xs

-- The instructions stand in the order `xs`: each of the vector, once.
pub record IsChain (d : InstrData) (xs : List ℕ) : Type 0 where
  pub links_length : length d.links ≡ length d.instrs
  pub all_there : length xs ≡ length d.instrs
  pub counted : d.count ≡ length d.instrs
  pub distinct : is_distinct xs ≡ true
  pub first : d.first ≡ head_or d.blkref xs none
  pub last : d.last ≡ last_or d.blkref none xs
  pub linked : Segment d.blkref d.links none xs none

-- A link outside of the part is changed, or links are added.
pub Segment-set :
    (blk : ℕ) (links : List InstrLink) (p : Option Ref) (xs : List ℕ) (q : Option Ref) (k : ℕ)
    (l : InstrLink)
    → is_new k xs ≡ true
    → Segment blk links p xs q
    → Segment blk (set_elem links k l) p xs q
Segment-set blk links p [] q k l n s = s
Segment-set blk links p (i ∷ xs) q k l n s =
    let both = &&-eq-true (not (k == i)) (is_new k xs) n in
    let apart : k ≢ i = ground (arith, both.0) in
    (
      get_elem?-set_elem_ne links k i l apart ∙ s.0,
      Segment-set blk links (some (instr blk i)) xs q k l both.1 s.1,
    )

pub Segment-append :
    (blk : ℕ) (links more : List InstrLink) (p : Option Ref) (xs : List ℕ) (q : Option Ref)
    → Segment blk links p xs q
    → Segment blk (links ++ more) p xs q
Segment-append blk links more p [] q s = s
Segment-append blk links more p (i ∷ xs) q s = (
  get_elem?-append links more i
        (lt-length_of_get_elem? links i (record { prev = p; next = head_or blk xs q }) s.0)
      ∙ s.0,
  Segment-append blk links more (some (instr blk i)) xs q s.1,
)

-- A number that is no index of the links is new.
pub Segment-is_new :
    (blk : ℕ) (links : List InstrLink) (p : Option Ref) (xs : List ℕ) (q : Option Ref) (k : ℕ)
    → length links ≤ k
    → Segment blk links p xs q
    → is_new k xs ≡ true
Segment-is_new blk links p [] q k h s = refl
Segment-is_new blk links p (i ∷ xs) q k h s =
    let below = lt-length_of_get_elem? links i (record { prev = p; next = head_or blk xs q }) s.0 in
    let rest = Segment-is_new blk links (some (instr blk i)) xs q k h s.1 in
    ground (arith, below, rest)

-- Two parts that follow each other.
pub Segment-join :
    (blk : ℕ) (links : List InstrLink) (p : Option Ref) (xs ys : List ℕ) (q : Option Ref)
    → Segment blk links p xs (head_or blk ys q)
    → Segment blk links (last_or blk p xs) ys q
    → Segment blk links p (xs ++ ys) q
Segment-join blk links p [] ys q s t = t
Segment-join blk links p (i ∷ []) ys q s t = (s.0, t)
Segment-join blk links p (i ∷ j ∷ xs) ys q s t =
    (s.0, Segment-join blk links (some (instr blk i)) (j ∷ xs) ys q s.1 t)

pub Segment-split :
    (blk : ℕ) (links : List InstrLink) (p : Option Ref) (xs ys : List ℕ) (q : Option Ref)
    → Segment blk links p (xs ++ ys) q
    → Segment blk links p xs (head_or blk ys q) × Segment blk links (last_or blk p xs) ys q
Segment-split blk links p [] ys q s = (tt, s)
Segment-split blk links p (i ∷ []) ys q s = ((s.0, tt), s.1)
Segment-split blk links p (i ∷ j ∷ xs) ys q s =
    let rest = Segment-split blk links (some (instr blk i)) (j ∷ xs) ys q s.1 in
    ((s.0, rest.0), rest.1)

data_next_lem :
    (d : InstrData) (i : ℕ) (l : InstrLink)
    → get_elem? d.links i ≡ some l
    → data_next d (instr d.blkref i) ≡ ok l.next
unfolding data_next lookup_link index_of
data_next_lem d i l h = rw ((==_iff d.blkref d.blkref).1 refl, h) refl

refs_from-Segment :
    (d : InstrData) (fuel : ℕ) (p : Option Ref) (xs : List ℕ)
    → length xs ≤ fuel
    → Segment d.blkref d.links p xs none
    → refs_from fuel d (head_or d.blkref xs none) ≡ ok (map (instr d.blkref) xs)
unfolding refs_from
refs_from-Segment d zero p [] h s = refl
refs_from-Segment d (suc fuel) p [] h s = refl
refs_from-Segment d zero p (i ∷ xs) h s = absurd (omega arith)
refs_from-Segment d (suc fuel) p (i ∷ xs) h s =
    rw
      (
        data_next_lem d i (record { prev = p; next = head_or d.blkref xs none }) s.0,
        refs_from-Segment d fuel (some (instr d.blkref i)) xs (omega arith) s.1,
      )
      refl

-- The walk over the instructions of a chain ends, within the links that there are, and returns the
-- references in the order of the chain.
pub data_refs-IsChain :
    (d : InstrData) (xs : List ℕ) → IsChain d xs → data_refs d ≡ ok (map (instr d.blkref) xs)
unfolding data_refs
data_refs-IsChain d xs c =
    let enough : length xs ≤ length d.links = omega (arith, c.all_there, c.links_length) in
    ap (refs_from (length d.links) d) c.first
    ∙ refs_from-Segment d (length d.links) none xs enough c.linked
