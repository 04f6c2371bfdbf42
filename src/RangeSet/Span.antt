-- ===== src/RangeSet/Span.antt =====
-- `span` is the hull of the covered addresses.
use dis.Prelude.{
  ℕ, suc, ◌≤◌, ◌<◌, ◌≡◌, refl, ◌⊎◌, inl, inr, true, false, ◌&&◌, Option, none, some, List, [], ◌∷◌,
  arith, ltb, leb, ◌-◌, Bool-cases,
}
use dis.RangeSet.Order.{covers_below}
use dis.RangeSet.{Range, last?, span, covers, IsSortedFrom, IsRangeSet}

-- `r` reaches from the lowest to the highest address that the list covers.
pub record IsHull (rs : List Range) (result : Option Range) : Type 0 where
  pub hull : Range
  pub returns : result ≡ some hull
  pub within : (a : ℕ) → covers rs a ≡ (covers rs a && (leb hull.start a && ltb a hull.end))
  pub lowest : covers rs hull.start ≡ true
  pub highest : covers rs (hull.end - 1) ≡ true

record HasLast (rs : List Range) (b : ℕ) : Type 0 where
  top : Range
  found : last? rs ≡ some top
  above : b < top.end
  bound : (a : ℕ) → covers rs a ≡ true → a < top.end
  reached : covers rs (top.end - 1) ≡ true

last-HasLast : (b : ℕ) (r : Range) (rs : List Range) → IsSortedFrom b (r ∷ rs) → HasLast (r ∷ rs) b
last-HasLast b r [] w = record {
  top = r;
  found = refl;
  above = omega (arith, w.0, w.1);
  bound = λ a h. ground arith;
  reached = ground (arith, w.1);
}
last-HasLast b r (x ∷ xs) w =
    let rest = last-HasLast (suc r.end) x xs w.2 in
    record {
      top = rest.top;
      found = rest.found;
      above = omega (arith, rest.above, w.0, w.1);
      bound = λ a h. ground (arith, rest.bound a, rest.above);
      reached = ground (arith, rest.reached);
    }

starts_bound :
    (b : ℕ) (r : Range) (rs : List Range) (a : ℕ)
    → IsSortedFrom b (r ∷ rs)
    → covers (r ∷ rs) a ≡ true
    → r.start ≤ a
starts_bound b r rs a w h = ground (arith, covers_below (suc r.end) rs a w.2, w.1)

-- On a sorted list of non-empty ranges with gaps between them `span` is absent exactly when no
-- address is covered; otherwise it runs from the lowest covered address to just behind the highest.
pub span-IsHull :
    (rs : List Range)
    → IsRangeSet rs
    → ((span rs ≡ none) × ((a : ℕ) → covers rs a ≡ false)) ⊎ IsHull rs (span rs)
unfolding span
span-IsHull [] w = inl (refl, λ a. refl)
span-IsHull (r ∷ rs) w =
    let top = last-HasLast 0 r rs w in
    inr (record {
      hull = record { start = r.start; end = top.top.end };
      returns = rw top.found;
      within = λ a. elim (Bool-cases (covers (r ∷ rs) a)) [
        | inl inside ↦ ground (arith, starts_bound 0 r rs a w inside, top.bound a inside)
        | inr outside ↦ rw outside refl
      ];
      lowest = ground (arith, w.1);
      highest = top.reached;
    })
