-- ===== src/RangeSet/Tests.antt =====
-- The theorems on dis86/src/util/range_set.rs at concrete lists, and its unit tests.
use dis.Prelude.{◌≡◌, refl, ◌⊎◌, false, some, none, ℕ, List, [], ◌∷◌, arith, ◌>>=◌}
use dis.RangeSet.{
  Range, partition_point, splice, merged, insert, span, gaps_from, subslice, gaps_within, covers,
  IsRangeSet,
}
use dis.RangeSet.Insert.{IsInserted, insert-IsInserted}
use dis.RangeSet.Span.{IsHull, span-IsHull}
use dis.RangeSet.Canonical.{insert_comm}
use dis.RangeSet.Gaps.{AreGaps, gaps_within-AreGaps}

abbrev range : ℕ → ℕ → Range
range s e = record { start = s; end = e }

abbrev two : List Range
two = range 10 20 ∷ range 30 40 ∷ []

two_sorted : IsRangeSet two
two_sorted = (omega arith, omega arith, (omega arith, omega arith, tt))

insert-IsInserted_example : IsInserted 0 two 15 30 (insert two 15 30)
insert-IsInserted_example = insert-IsInserted two 15 30 two_sorted

insert_comm_example :
    (insert two 5 6 >>= λ xs. insert xs 6 12) ≡ (insert two 6 12 >>= λ xs. insert xs 5 6)
insert_comm_example = insert_comm two 5 6 6 12 two_sorted

gaps_within-AreGaps_example : AreGaps two 15 50 (gaps_within two 15 50)
gaps_within-AreGaps_example = gaps_within-AreGaps two 15 50 two_sorted

span-IsHull_example : ((span two ≡ none) × ((a : ℕ) → covers two a ≡ false)) ⊎ IsHull two (span two)
span-IsHull_example = span-IsHull two two_sorted

merge_multiple : insert two 15 35 ≡ some (range 10 40 ∷ [])
unfolding insert merged splice partition_point
merge_multiple = refl

insert_middle : insert two 24 26 ≡ some (range 10 20 ∷ range 24 26 ∷ range 30 40 ∷ [])
unfolding insert merged splice partition_point
insert_middle = refl

span_multiple : span two ≡ some (range 10 40)
unfolding span
span_multiple = refl

gaps_within_basic : gaps_within two 0 50 ≡ some (range 0 10 ∷ range 20 30 ∷ range 40 50 ∷ [])
unfolding gaps_within gaps_from subslice
gaps_within_basic = refl
