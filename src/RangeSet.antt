-- ===== src/RangeSet.antt =====
-- dis86/src/util/range_set.rs: a set of u32 addresses as a sorted list of half-open ranges.
pub mod Order
pub mod Insert
pub mod Span
pub mod Canonical
pub mod Gaps
mod Tests
use dis.Prelude.{
  ℕ, suc, ◌-◌, ◌≤◌, ◌<◌, min, max, Bool, ◌&&◌, ◌||◌, false, Option, none, some, List, [], ◌∷◌, ◌++◌,
  ltb, leb, if◌then◌else◌, ◌>>=◌, length, get_elem?, take, drop,
}

pub record Range : Type 0 where
  pub start : ℕ
  pub end : ℕ

-- `slice::partition_point`: on a slice that `p` partitions, the length of the prefix on which
-- it holds.
unfoldable pub partition_point : (Range → Bool) → List Range → ℕ
partition_point p [] = 0
partition_point p (r ∷ rs) = if p r then suc (partition_point p rs) else 0

-- `Vec::splice(lo..hi, [m])`; `none` is the panic on a range that is reversed or too long.
unfoldable pub splice : ℕ → ℕ → Range → List Range → Option (List Range)
splice lo hi m rs =
    if leb lo hi && leb hi (length rs) then some (take lo rs ++ m ∷ drop hi rs) else none

unfoldable pub merged : ℕ → ℕ → Range → List Range → Option Range
merged lo hi new rs =
    if ltb lo hi
    then (do
      first ← get_elem? rs lo
      last ← get_elem? rs (hi - 1)
      some (record { start = min first.start new.start; end = max last.end new.end }))
    else some new

-- `none` is a panic.
unfoldable pub insert : List Range → ℕ → ℕ → Option (List Range)
insert rs start end =
    let new : Range = record { start = start; end = end } in
    let lo = partition_point (λ r. ltb r.end start) rs in
    let hi = partition_point (λ r. leb r.start end) rs in
    if leb end start then some rs else (do m ← merged lo hi new rs; splice lo hi m rs)

abbrev pub first? : List Range → Option Range
first? [] = none
first? (r ∷ rs) = some r

abbrev pub last? : List Range → Option Range
last? [] = none
last? (r ∷ []) = some r
last? (r ∷ s ∷ rs) = last? (s ∷ rs)

unfoldable pub span : List Range → Option Range
span rs = do
  first ← first? rs
  last ← last? rs
  some (record { start = first.start; end = last.end })

unfoldable pub span_start : List Range → Option ℕ
unfolding span
span_start rs = do r ← span rs; some r.start

-- The loop of `gaps_within` over the ranges that are left, with the gap behind the last.
unfoldable pub gaps_from : ℕ → ℕ → List Range → List Range
gaps_from cursor end [] = if ltb cursor end then record { start = cursor; end = end } ∷ [] else []
gaps_from cursor end (r ∷ rs) =
    let rest = gaps_from (max cursor r.end) end rs in
    if ltb cursor r.start then record { start = cursor; end = r.start } ∷ rest else rest

-- `&ranges[lo..hi]`
unfoldable pub subslice : ℕ → ℕ → List Range → Option (List Range)
subslice lo hi rs =
    if leb lo hi && leb hi (length rs) then some (take (hi - lo) (drop lo rs)) else none

-- `none` is a panic.
unfoldable pub gaps_within : List Range → ℕ → ℕ → Option (List Range)
unfolding partition_point
gaps_within rs start end =
    let lo = partition_point (λ r. leb r.end start) rs in
    let hi = partition_point (λ r. ltb r.start end) rs in
    if leb end start
    then some []
    else (do overlapping ← subslice lo hi rs; some (gaps_from start end overlapping))

-- The set of addresses that a list of ranges stands for.
abbrev pub covers : List Range → ℕ → Bool
covers [] a = false
covers (r ∷ rs) a = (leb r.start a && ltb a r.end) || covers rs a

-- Sorted, no range empty, and a gap between neighbours; everything lies at `b` or above.
abbrev pub IsSortedFrom : ℕ → List Range → Type 0
IsSortedFrom b [] = Unit
IsSortedFrom b (r ∷ rs) = (b ≤ r.start) × (r.start < r.end) × IsSortedFrom (suc r.end) rs

abbrev pub IsRangeSet : List Range → Type 0
IsRangeSet rs = IsSortedFrom 0 rs
