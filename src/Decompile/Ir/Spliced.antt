-- ===== src/Decompile/Ir/Spliced.antt =====
-- Links of dis86/src/decompile/ir/block_data.rs around a new instruction: what a list of links has to
-- hold so that the instruction stands between two parts of the order.
use dis.Prelude.{
  ℕ, ◌≡◌, ◌⊎◌, inl, inr, refl, sym, ap, ◌∙◌, true, not, ◌&&◌, Option, none, some, List, [], ◌∷◌,
  ◌++◌, ◌==◌, arith, get_elem?, set_elem, get_elem?-set_elem, lt-length_of_get_elem?, &&-eq-true,
}
use dis.Decompile.Ir.Def.{Ref, instr, InstrLink}
use dis.Decompile.Ir.BlockData.{or_ref}
use dis.Decompile.Ir.Chain.{
  head_or, last_or, Segment, Segment-set, Segment-join, Segment-split, is_new, is_distinct,
}

pub is_new-append : (k : ℕ) (xs ys : List ℕ) → is_new k (xs ++ ys) ≡ (is_new k xs && is_new k ys)
is_new-append k [] ys = refl
is_new-append k (i ∷ xs) ys = ground (arith, is_new-append k xs ys)

-- In a list without repetition an element is new to what stands before and behind it.
pub is_distinct-apart :
    (ys : List ℕ) (j : ℕ) (zs : List ℕ)
    → is_distinct (ys ++ j ∷ zs) ≡ true
    → (is_new j ys ≡ true) × (is_new j zs ≡ true)
is_distinct-apart [] j zs h = (refl, (&&-eq-true (is_new j zs) (is_distinct zs) h).0)
is_distinct-apart (i ∷ ys) j zs h =
    let both = &&-eq-true (is_new i (ys ++ j ∷ zs)) (is_distinct (ys ++ j ∷ zs)) h in
    let rest = is_distinct-apart ys j zs both.1 in
    let parts =
      &&-eq-true (is_new i ys) (is_new i (j ∷ zs)) (sym (is_new-append i ys (j ∷ zs)) ∙ both.0) in
    let here = (&&-eq-true (not (i == j)) (is_new i zs) parts.1).0 in
    (ground (arith, here, rest.0), rest.1)

-- A new element may stand anywhere.
pub is_distinct-insert :
    (ys : List ℕ) (n : ℕ) (zs : List ℕ)
    → is_new n (ys ++ zs) ≡ true
    → is_distinct (ys ++ zs) ≡ true
    → is_distinct (ys ++ n ∷ zs) ≡ true
is_distinct-insert [] n zs h d = rw (h, d) refl
is_distinct-insert (i ∷ ys) n zs h d =
    let both = &&-eq-true (is_new i (ys ++ zs)) (is_distinct (ys ++ zs)) d in
    let new = &&-eq-true (not (n == i)) (is_new n (ys ++ zs)) h in
    let rest = is_distinct-insert ys n zs new.1 both.1 in
    let parts = &&-eq-true (is_new i ys) (is_new i zs) (sym (is_new-append i ys zs) ∙ both.0) in
    let apart : is_new i (ys ++ n ∷ zs) ≡ true =
      is_new-append i ys (n ∷ zs) ∙ ground (arith, parts.0, parts.1, new.0) in
    rw (apart, rest) refl

pub last_or-append :
    (blk : ℕ) (p : Option Ref) (xs ys : List ℕ)
    → last_or blk p (xs ++ ys) ≡ last_or blk (last_or blk p xs) ys
last_or-append blk p [] ys = refl
last_or-append blk p (i ∷ xs) ys = last_or-append blk (some (instr blk i)) xs ys

pub or_ref-last :
    (blk i : ℕ) (xs : List ℕ) (r : Ref)
    → or_ref (last_or blk (some (instr blk i)) xs) r ≡ last_or blk (some (instr blk i)) xs
or_ref-last blk i [] r = refl
or_ref-last blk i (j ∷ xs) r = or_ref-last blk j xs r

-- The link before or behind a part is changed.
pub Segment-front :
    (blk : ℕ) (links : List InstrLink) (p p' : Option Ref) (j : ℕ) (zs : List ℕ) (q : Option Ref)
    → is_new j zs ≡ true
    → Segment blk links p (j ∷ zs) q
    → Segment blk (set_elem links j (record { prev = p'; next = head_or blk zs q })) p' (j ∷ zs) q
Segment-front blk links p p' j zs q n s = (
  get_elem?-set_elem links j (record { prev = p'; next = head_or blk zs q })
      (lt-length_of_get_elem? links j (record { prev = p; next = head_or blk zs q }) s.0),
  Segment-set blk links (some (instr blk j)) zs q j (record { prev = p'; next = head_or blk zs q })
      n s.1,
)

pub Segment-back :
    (blk : ℕ) (links : List InstrLink) (p : Option Ref) (ys : List ℕ) (k : ℕ) (q q' : Option Ref)
    → is_new k ys ≡ true
    → Segment blk links p (ys ++ k ∷ []) q
    → Segment blk
        (set_elem links k (record { prev = last_or blk p ys; next = q' }))
        p
        (ys ++ k ∷ [])
        q'
Segment-back blk links p ys k q q' n s =
    let parts = Segment-split blk links p ys (k ∷ []) q s in
    Segment-join blk (set_elem links k (record { prev = last_or blk p ys; next = q' })) p ys
      (k ∷ []) q'
      (Segment-set blk links p ys (some (instr blk k)) k
        (record { prev = last_or blk p ys; next = q' }) n parts.0)
      (
        get_elem?-set_elem links k (record { prev = last_or blk p ys; next = q' })
            (lt-length_of_get_elem? links k (record { prev = last_or blk p ys; next = q })
              parts.1.0),
        tt,
      )

-- A list is empty or has a last element.
pub snoc_cases : (xs : List ℕ) → (xs ≡ []) ⊎ ((ys : List ℕ) × (k : ℕ) × (xs ≡ ys ++ k ∷ []))
snoc_cases [] = inl refl
snoc_cases (i ∷ xs) = elim (snoc_cases xs) [
  | inl e ↦ inr ([], i, ap (◌∷◌ i) e)
  | inr r ↦ inr (i ∷ r.0, r.1, ap (◌∷◌ i) r.2)
]

-- What the links hold around the new instruction `n`.
pub record IsSpliced (blk : ℕ) (links : List InstrLink) (ys : List ℕ) (n : ℕ) (zs : List ℕ)
    : Type 0 where
  pub here :
      get_elem? links n ≡ some (record { prev = last_or blk none ys; next = head_or blk zs none })
  pub before : Segment blk links none ys (some (instr blk n))
  pub behind : Segment blk links (some (instr blk n)) zs none

pub IsSpliced-Segment :
    (blk : ℕ) (links : List InstrLink) (ys : List ℕ) (n : ℕ) (zs : List ℕ)
    → IsSpliced blk links ys n zs
    → Segment blk links none (ys ++ n ∷ zs) none
IsSpliced-Segment blk links ys n zs s =
    Segment-join blk links none ys (n ∷ zs) none s.before (s.here, s.behind)
