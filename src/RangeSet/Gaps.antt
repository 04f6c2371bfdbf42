-- ===== src/RangeSet/Gaps.antt =====
-- `gaps_within` returns what a query leaves uncovered.
use dis.Prelude.{
  ℕ, suc, ◌≤◌, ◌<◌, max, ◌≡◌, refl, ◌∙◌, inl, inr, false, not, ◌&&◌, Option, some, List, [], ◌∷◌,
  arith, ltb, leb, take, length, Bool, Bool-cases,
}
use dis.RangeSet.{
  Range, partition_point, gaps_from, subslice, gaps_within, covers, IsSortedFrom, IsRangeSet,
}
use dis.RangeSet.Order.{covers_below, sorted_weaken}

pub record AreGaps (rs : List Range) (s e : ℕ) (result : Option (List Range)) : Type 0 where
  pub out : List Range
  pub returns : result ≡ some out
  pub sorted : IsSortedFrom s out
  pub uncovered : (a : ℕ) → covers out a ≡ ((leb s a && ltb a e) && not (covers rs a))

-- The ranges that `gaps_within` reads: those that start before `e`.
abbrev before : ℕ → List Range → List Range
before e rs = take (partition_point (λ r. ltb r.start e) rs) rs

gaps_from_sorted :
    (b c e : ℕ) (rs : List Range) → IsSortedFrom b rs → IsSortedFrom c (gaps_from c e (before e rs))
unfolding gaps_from partition_point
gaps_from_sorted b c e [] w = ground arith
gaps_from_sorted b c e (r ∷ rs) w = elim (Bool-cases (ltb r.start e)) [
  | inr later ↦ rw later (ground arith)
  | inl starts ↦ rw starts (
      let rest = gaps_from_sorted (suc r.end) (max c r.end) e rs w.2 in
      elim (Bool-cases (ltb c r.start)) [
        | inl gap ↦ rw gap (
            (
              omega arith,
              ground arith,
              sorted_weaken (suc r.start) (max c r.end) _ (omega (arith, w.1)) rest,
            ))
        | inr none_here ↦ rw none_here (sorted_weaken c (max c r.end) _ (omega arith) rest)
      ])
]

gaps_from_uncovered :
    (b c e : ℕ) (rs : List Range) (a : ℕ)
    → IsSortedFrom b rs
    → covers (gaps_from c e (before e rs)) a ≡ ((leb c a && ltb a e) && not (covers rs a))
unfolding gaps_from partition_point
gaps_from_uncovered b c e [] a w = ground arith
gaps_from_uncovered b c e (r ∷ rs) a w = elim (Bool-cases (ltb r.start e)) [
  | inr later ↦ rw later (ground (arith, covers_below r.start (r ∷ rs) a))
  | inl starts ↦ rw starts (
      ground (
        arith,
        gaps_from_uncovered (suc r.end) (max c r.end) e rs a w.2,
        covers_below (suc r.end) rs a w.2,
        w.1,
      ))
]

-- A range that ends by the query's start is not read.
gaps_skip :
    (r : Range) (rs : List Range) (s e : ℕ)
    → s < e
    → r.start < r.end
    → r.end ≤ s
    → gaps_within (r ∷ rs) s e ≡ gaps_within rs s e
unfolding gaps_within subslice
gaps_skip r rs s e h k p = ground arith

-- The searches end inside the list.
partition_point-le-length : (p : Range → Bool) (rs : List Range) → partition_point p rs ≤ length rs
unfolding partition_point
partition_point-le-length p [] = omega arith
partition_point-le-length p (r ∷ rs) = ground (arith, partition_point-le-length p rs)

lt→leb-false : (s e : ℕ) → s < e → leb e s ≡ false
lt→leb-false s e h = ground arith

-- With no range to skip the query starts at the first one.
gaps_start :
    (b s e : ℕ) (rs : List Range)
    → s < e
    → IsSortedFrom b rs
    → partition_point (λ r. leb r.end s) rs ≡ 0
    → gaps_within rs s e ≡ some (gaps_from s e (before e rs))
unfolding gaps_within subslice
gaps_start b s e rs h w none_skipped =
    rw (lt→leb-false s e h, none_skipped)
      (ground (arith, partition_point-le-length (λ r. ltb r.start e) rs))

gaps_sorted :
    (b : ℕ) (rs : List Range) (s e : ℕ)
    → s < e
    → IsSortedFrom b rs
    → AreGaps rs s e (gaps_within rs s e)
gaps_sorted b [] s e h w = record {
  out = gaps_from s e (before e []);
  returns = gaps_start b s e [] h w (unfold partition_point in refl);
  sorted = gaps_from_sorted b s e [] w;
  uncovered = λ a. gaps_from_uncovered b s e [] a w;
}
gaps_sorted b (r ∷ rs) s e h w = elim (Bool-cases (leb r.end s)) [
  | inl early ↦
      let rest = gaps_sorted (suc r.end) rs s e h w.2 in
      record {
        out = rest.out;
        returns = gaps_skip r rs s e h w.1 (ground arith) ∙ rest.returns;
        sorted = rest.sorted;
        uncovered = λ a. ground (arith, rest.uncovered a);
      }
  | inr late ↦ record {
    out = gaps_from s e (before e (r ∷ rs));
    returns = gaps_start b s e (r ∷ rs) h w (unfold partition_point in rw late);
    sorted = gaps_from_sorted b s e (r ∷ rs) w;
    uncovered = λ a. gaps_from_uncovered b s e (r ∷ rs) a w;
  }
]

-- On a sorted list of non-empty ranges with gaps between them `gaps_within` does not panic, and
-- returns sorted, separated ranges that cover exactly the addresses of the query that the list does
-- not cover.
pub gaps_within-AreGaps :
    (rs : List Range) (s e : ℕ) → IsRangeSet rs → AreGaps rs s e (gaps_within rs s e)
gaps_within-AreGaps rs s e w = elim (Bool-cases (leb e s)) [
  | inl empty ↦ record {
    out = [];
    returns = unfold gaps_within in rw empty;
    sorted = tt;
    uncovered = λ a. ground arith;
  }
  | inr full ↦ gaps_sorted 0 rs s e (ground arith) w
]
