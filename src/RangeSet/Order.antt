-- ===== src/RangeSet/Order.antt =====
-- Facts about sorted lists of ranges: what lies below them, and that the searches of `insert` and
-- `gaps_within` meet slices that their predicate partitions.
use dis.Prelude.{
  ℕ, suc, ◌≤◌, ◌<◌, ◌≡◌, refl, inl, inr, Bool, true, false, List, [], ◌∷◌, arith, ltb, leb, all,
  not, drop, Bool-cases,
}
use dis.RangeSet.{Range, partition_point, covers, IsSortedFrom, IsRangeSet}

pub covers_below :
    (b : ℕ) (rs : List Range) (a : ℕ) → IsSortedFrom b rs → a < b → covers rs a ≡ false
covers_below b [] a w h = refl
covers_below b (r ∷ rs) a w h =
    ground (arith, covers_below (suc r.end) rs a w.2 (omega (arith, w.0, w.1)))

pub sorted_weaken : (b c : ℕ) (rs : List Range) → b ≤ c → IsSortedFrom c rs → IsSortedFrom b rs
sorted_weaken b c [] h w = tt
sorted_weaken b c (r ∷ rs) h w = (omega (arith, w.0), w.1, w.2)

-- No element behind the partition point satisfies the predicate.
abbrev IsPartitioned : (Range → Bool) → List Range → Type 0
IsPartitioned p rs = all (λ r. not (p r)) (drop (partition_point p rs) rs) ≡ true

-- Behind an address below every end, no range ends before that address; likewise for starts.
none_end_before :
    (b n : ℕ) (rs : List Range) → IsSortedFrom b rs → n ≤ b → all (λ r. not (ltb r.end n)) rs ≡ true
none_end_before b n [] w h = refl
none_end_before b n (r ∷ rs) w h =
    ground (arith, none_end_before (suc r.end) n rs w.2 (omega (arith, w.0, w.1)))

none_start_by :
    (b n : ℕ) (rs : List Range)
    → IsSortedFrom b rs
    → n < b
    → all (λ r. not (leb r.start n)) rs ≡ true
none_start_by b n [] w h = refl
none_start_by b n (r ∷ rs) w h =
    ground (arith, none_start_by (suc r.end) n rs w.2 (omega (arith, w.0, w.1)))

ends_partition :
    (b n : ℕ) (rs : List Range) → IsSortedFrom b rs → IsPartitioned (λ r. ltb r.end n) rs
unfolding partition_point
ends_partition b n [] w = refl
ends_partition b n (r ∷ rs) w = elim (Bool-cases (ltb r.end n)) [
  | inl before ↦ rw before (ends_partition (suc r.end) n rs w.2)
  | inr after ↦ rw (after, after) (none_end_before (suc r.end) n rs w.2 (ground arith))
]

starts_partition :
    (b n : ℕ) (rs : List Range) → IsSortedFrom b rs → IsPartitioned (λ r. leb r.start n) rs
unfolding partition_point
starts_partition b n [] w = refl
starts_partition b n (r ∷ rs) w = elim (Bool-cases (leb r.start n)) [
  | inl before ↦ rw before (starts_partition (suc r.end) n rs w.2)
  | inr after ↦ rw (after, after) (none_start_by (suc r.end) n rs w.2 (ground (arith, w.0, w.1)))
]

-- On a sorted list of non-empty ranges with gaps between them both searches of `insert` meet a
-- slice that their predicate partitions, which is what `partition_point` asks for.
insert_searches-IsPartitioned :
    (rs : List Range) (s e : ℕ)
    → IsRangeSet rs
    → IsPartitioned (λ r. ltb r.end s) rs × IsPartitioned (λ r. leb r.start e) rs
insert_searches-IsPartitioned rs s e w = (ends_partition 0 s rs w, starts_partition 0 e rs w)
