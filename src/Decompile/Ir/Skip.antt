-- ===== src/Decompile/Ir/Skip.antt =====
-- `instr_prev` and `instr_next` of dis86/src/decompile/ir/methods.rs, which skip instructions that
-- were erased.
use mathlib.Core.Path.{subst}
use mathlib.Core.List.{append_assoc}
use dis.Prelude.{
  ℕ, zero, suc, ◌≡◌, refl, sym, ap, ◌∙◌, Bool, true, false, Option, none, some, List, [], ◌∷◌, ◌++◌,
  if◌then◌else◌, ==_iff, length, get_elem?, ◌<◌, inl, inr, arith, length-append,
  lt-length_of_get_elem?, get_elem?-eq-some, Bool-cases,
}
use dis.Result.{ok}
use dis.Decompile.Ir.Def.{Ref, instr, Instr, InstrData, Block, Ir}
use dis.Decompile.Ir.BlockData.{index_of, lookup_link, data_next, data_prev}
use dis.Decompile.Ir.Methods.{
  instr_unwrap, is_nop, skip_nops, skip_nops_forward, instr_prev, instr_next,
}
use dis.Decompile.Ir.Value.{find_block, find_instr, IsWellFormed}
use dis.Decompile.Ir.Rewrite.{block_at_lem, instr_unwrap_lem}
use dis.Decompile.Ir.Spliced.{snoc_cases, last_or-append}
use dis.Decompile.Ir.Chain.{head_or, last_or, Segment-split, IsChain}

link_of :
    (d : InstrData) (ys : List ℕ) (i : ℕ) (zs : List ℕ)
    → IsChain d (ys ++ i ∷ zs)
    → get_elem? d.links i
      ≡ some (record { prev = last_or d.blkref none ys; next = head_or d.blkref zs none })
link_of d ys i zs c = (Segment-split d.blkref d.links none ys (i ∷ zs) none c.linked).1.0

pub data_next-IsChain :
    (d : InstrData) (ys : List ℕ) (i : ℕ) (zs : List ℕ)
    → IsChain d (ys ++ i ∷ zs)
    → data_next d (instr d.blkref i) ≡ ok (head_or d.blkref zs none)
unfolding data_next lookup_link index_of
data_next-IsChain d ys i zs c = rw ((==_iff d.blkref d.blkref).1 refl, link_of d ys i zs c) refl

pub data_prev-IsChain :
    (d : InstrData) (ys : List ℕ) (i : ℕ) (zs : List ℕ)
    → IsChain d (ys ++ i ∷ zs)
    → data_prev d (instr d.blkref i) ≡ ok (last_or d.blkref none ys)
unfolding data_prev lookup_link index_of
data_prev-IsChain d ys i zs c = rw ((==_iff d.blkref d.blkref).1 refl, link_of d ys i zs c) refl

-- An erased instruction is passed over, another one ends the loop.
skip_nops-stop :
    (fuel : ℕ) (ir : Ir) (d : InstrData) (r : Ref) (x : Instr)
    → instr_unwrap ir r ≡ ok x
    → is_nop x.opcode ≡ false
    → skip_nops (suc fuel) ir d (some r) ≡ ok (some r)
unfolding skip_nops
skip_nops-stop fuel ir d r x e n = rw (e, n) refl

skip_nops-back :
    (fuel : ℕ) (ir : Ir) (d : InstrData) (r : Ref) (x : Instr) (p : Option Ref)
    → instr_unwrap ir r ≡ ok x
    → is_nop x.opcode ≡ true
    → data_prev d r ≡ ok p
    → skip_nops (suc fuel) ir d (some r) ≡ skip_nops fuel ir d p
unfolding skip_nops
skip_nops-back fuel ir d r x p e n h = rw (e, n, h) refl

skip_nops_forward-stop :
    (fuel : ℕ) (ir : Ir) (d : InstrData) (r : Ref) (x : Instr)
    → instr_unwrap ir r ≡ ok x
    → is_nop x.opcode ≡ false
    → skip_nops_forward (suc fuel) ir d (some r) ≡ ok (some r)
unfolding skip_nops_forward
skip_nops_forward-stop fuel ir d r x e n = rw (e, n) refl

skip_nops_forward-on :
    (fuel : ℕ) (ir : Ir) (d : InstrData) (r : Ref) (x : Instr) (p : Option Ref)
    → instr_unwrap ir r ≡ ok x
    → is_nop x.opcode ≡ true
    → data_next d r ≡ ok p
    → skip_nops_forward (suc fuel) ir d (some r) ≡ skip_nops_forward fuel ir d p
unfolding skip_nops_forward
skip_nops_forward-on fuel ir d r x p e n h = rw (e, n, h) refl

abbrev pub is_nop_or_none : Option Instr → Bool
is_nop_or_none none = true
is_nop_or_none (some x) = is_nop x.opcode

-- Whether the instruction of an index was erased.
abbrev pub is_erased : Ir → ℕ → ℕ → Bool
is_erased ir b k = is_nop_or_none (find_instr ir b k)

-- The last index of a list that was not erased, as a reference.
unfoldable pub last_kept : Ir → ℕ → Option Ref → List ℕ → Option Ref
last_kept ir b p [] = p
last_kept ir b p (i ∷ xs) = last_kept ir b (if is_erased ir b i then p else some (instr b i)) xs

-- The first index of a list that was not erased, as a reference.
unfoldable pub first_kept : Ir → ℕ → List ℕ → Option Ref
first_kept ir b [] = none
first_kept ir b (i ∷ xs) = if is_erased ir b i then first_kept ir b xs else some (instr b i)

last_kept-snoc :
    (ir : Ir) (b : ℕ) (p : Option Ref) (xs : List ℕ) (k : ℕ)
    → last_kept ir b p (xs ++ k ∷ [])
      ≡ (if is_erased ir b k then last_kept ir b p xs else some (instr b k))
unfolding last_kept
last_kept-snoc ir b p [] k = refl
last_kept-snoc ir b p (i ∷ xs) k =
    last_kept-snoc ir b (if is_erased ir b i then p else some (instr b i)) xs k

if_erased : {A : Type 0} {t : Bool} (a b : A) → t ≡ true → (if t then a else b) ≡ a
if_erased a b h = ap (λ c. if c then a else b) h

if_kept : {A : Type 0} {t : Bool} (a b : A) → t ≡ false → (if t then a else b) ≡ b
if_kept a b h = ap (λ c. if c then a else b) h

module _ (ir : Ir) (blk : Block) (w : IsWellFormed ir)
    (found : find_block ir blk.instr_data.blkref ≡ some blk) where
  abbrev d : InstrData
  d = blk.instr_data

  -- The instruction of an index of the chain.
  there :
      (ys : List ℕ) (i : ℕ) (zs : List ℕ)
      → IsChain d (ys ++ i ∷ zs)
      → (x : Instr) × (find_instr ir d.blkref i ≡ some x)
  there ys i zs c =
      let below =
        lt-length_of_get_elem? d.links i
          (record { prev = last_or d.blkref none ys; next = head_or d.blkref zs none })
          (link_of d ys i zs c) in
      let at = get_elem?-eq-some d.instrs i (omega (arith, below, c.links_length)) in
      (at.0, rw found at.1)

  skip_nops-last_kept :
      (fuel : ℕ) (ys zs : List ℕ)
      → length ys < fuel
      → IsChain d (ys ++ zs)
      → skip_nops fuel ir d (last_or d.blkref none ys) ≡ ok (last_kept ir d.blkref none ys)
  unfolding skip_nops last_kept
  skip_nops-last_kept zero ys zs h c = absurd (omega arith)
  skip_nops-last_kept (suc fuel) ys zs h c = elim (snoc_cases ys) [
    | inl e ↦
        subst
          (λ us.
            skip_nops (suc fuel) ir d (last_or d.blkref none us)
            ≡ ok (last_kept ir d.blkref none us))
          (sym e) refl
    | inr e ↦
        let ws = e.0 in
        let k = e.1 in
        let c' : IsChain d (ws ++ k ∷ zs) =
          subst (IsChain d) (append_assoc ws (k ∷ []) zs)
            (subst (λ us. IsChain d (us ++ zs)) e.2 c) in
        let x = there ws k zs c' in
        let shorter : length ws < fuel = omega (arith, ap length e.2, length-append ws (k ∷ [])) in
        let unwrapped = instr_unwrap_lem ir d.blkref k x.0 w x.1 in
        subst
          (λ us.
            skip_nops (suc fuel) ir d (last_or d.blkref none us)
            ≡ ok (last_kept ir d.blkref none us))
          (sym e.2)
          (ap (skip_nops (suc fuel) ir d) (last_or-append d.blkref none ws (k ∷ []))
            ∙ elim (Bool-cases (is_nop x.0.opcode)) [
              | inl n ↦
                  skip_nops-back fuel ir d (instr d.blkref k) x.0 (last_or d.blkref none ws)
                    unwrapped n (data_prev-IsChain d ws k zs c')
                  ∙ skip_nops-last_kept fuel ws (k ∷ zs) shorter c'
                  ∙ ap ok (
                      sym (
                        last_kept-snoc ir d.blkref none ws k
                        ∙ if_erased _ _ (ap is_nop_or_none x.1 ∙ n)))
              | inr n ↦
                  skip_nops-stop fuel ir d (instr d.blkref k) x.0 unwrapped n
                  ∙ ap ok (
                      sym (
                        last_kept-snoc ir d.blkref none ws k
                        ∙ if_kept _ _ (ap is_nop_or_none x.1 ∙ n)))
            ])
  ]

  skip_nops_forward-first_kept :
      (fuel : ℕ) (ys zs : List ℕ)
      → length zs < fuel
      → IsChain d (ys ++ zs)
      → skip_nops_forward fuel ir d (head_or d.blkref zs none) ≡ ok (first_kept ir d.blkref zs)
  unfolding skip_nops_forward first_kept
  skip_nops_forward-first_kept fuel ys [] h c = refl
  skip_nops_forward-first_kept zero ys (k ∷ zs) h c = absurd (omega arith)
  skip_nops_forward-first_kept (suc fuel) ys (k ∷ zs) h c =
      let x = there ys k zs c in
      let unwrapped = instr_unwrap_lem ir d.blkref k x.0 w x.1 in
      let c' : IsChain d ((ys ++ k ∷ []) ++ zs) =
        subst (IsChain d) (sym (append_assoc ys (k ∷ []) zs)) c in
      elim (Bool-cases (is_nop x.0.opcode)) [
        | inl n ↦
            skip_nops_forward-on fuel ir d (instr d.blkref k) x.0 (head_or d.blkref zs none)
              unwrapped n (data_next-IsChain d ys k zs c)
            ∙ skip_nops_forward-first_kept fuel (ys ++ k ∷ []) zs (omega arith) c'
            ∙ ap ok (sym (if_erased _ _ (ap is_nop_or_none x.1 ∙ n)))
        | inr n ↦
            skip_nops_forward-stop fuel ir d (instr d.blkref k) x.0 unwrapped n
            ∙ ap ok (sym (if_kept _ _ (ap is_nop_or_none x.1 ∙ n)))
      ]

-- For an instruction in the chain of its block `instr_prev` returns the nearest instruction before it
-- that was not erased, or none if there is none.
pub instr_prev_lem :
    (ir : Ir) (blk : Block) (ys : List ℕ) (i : ℕ) (zs : List ℕ)
    → IsWellFormed ir
    → find_block ir blk.instr_data.blkref ≡ some blk
    → IsChain blk.instr_data (ys ++ i ∷ zs)
    → instr_prev ir (instr blk.instr_data.blkref i)
      ≡ ok (last_kept ir blk.instr_data.blkref none ys)
unfolding instr_prev
instr_prev_lem ir blk ys i zs w found c =
    let enough : length ys < suc (suc (length blk.instr_data.links)) =
      omega (arith, c.links_length, c.all_there, length-append ys (i ∷ zs)) in
    rw (block_at_lem ir blk.instr_data.blkref blk found, data_prev-IsChain blk.instr_data ys i zs c)
      (skip_nops-last_kept ir blk w found (suc (suc (length blk.instr_data.links))) ys (i ∷ zs)
        enough c)

-- For an instruction in the chain of its block `instr_next` returns the nearest instruction behind it
-- that was not erased, or none if there is none.
pub instr_next_lem :
    (ir : Ir) (blk : Block) (ys : List ℕ) (i : ℕ) (zs : List ℕ)
    → IsWellFormed ir
    → find_block ir blk.instr_data.blkref ≡ some blk
    → IsChain blk.instr_data (ys ++ i ∷ zs)
    → instr_next ir (instr blk.instr_data.blkref i) ≡ ok (first_kept ir blk.instr_data.blkref zs)
unfolding instr_next
instr_next_lem ir blk ys i zs w found c =
    let d = blk.instr_data in
    let enough : length zs < suc (suc (length d.links)) =
      omega (arith, c.links_length, c.all_there, length-append ys (i ∷ zs)) in
    rw (block_at_lem ir d.blkref blk found, data_next-IsChain d ys i zs c)
      (skip_nops_forward-first_kept ir blk w found (suc (suc (length d.links))) (ys ++ i ∷ []) zs
        enough (subst (IsChain d) (sym (append_assoc ys (i ∷ []) zs)) c))
