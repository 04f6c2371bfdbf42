-- ===== src/RangeSet/Canonical.antt =====
-- A sorted list is determined by the addresses that it covers, so the order of insertions is
-- forgotten.
use dis.Prelude.{ℕ, suc, ◌≤◌, ◌≡◌, refl, sym, List, [], ◌∷◌, arith, ◌>>=◌}
use mathlib.Core.Path.{ap₂}
use dis.RangeSet.{Range, insert, covers, IsSortedFrom, IsRangeSet}
use dis.RangeSet.Insert.{insert-IsInserted}
use dis.RangeSet.Order.{covers_below}

abbrev SameAddresses : List Range → List Range → Type 0
SameAddresses xs ys = (a : ℕ) → covers xs a ≡ covers ys a

module _ (x y : Range) (xs ys : List Range) where
  start-le :
      {b c : ℕ}
      → IsSortedFrom b (x ∷ xs)
      → IsSortedFrom c (y ∷ ys)
      → SameAddresses (x ∷ xs) (y ∷ ys)
      → y.start ≤ x.start
  start-le v w same = ground (arith, same x.start, v.1, covers_below y.start (y ∷ ys) x.start)

  end-le :
      {b c : ℕ}
      → IsSortedFrom b (x ∷ xs)
      → IsSortedFrom c (y ∷ ys)
      → x.start ≡ y.start
      → SameAddresses (x ∷ xs) (y ∷ ys)
      → y.end ≤ x.end
  end-le v w e same = ground (arith, same x.end, v.1, covers_below (suc x.end) xs x.end v.2)

  rest_same :
      {b c : ℕ}
      → IsSortedFrom b (x ∷ xs)
      → IsSortedFrom c (y ∷ ys)
      → x.start ≡ y.start
      → x.end ≡ y.end
      → SameAddresses (x ∷ xs) (y ∷ ys)
      → SameAddresses xs ys
  rest_same v w e f same a =
      ground (arith, same a, covers_below (suc x.end) xs a v.2, covers_below (suc y.end) ys a w.2)

canonical :
    (b c : ℕ) (xs ys : List Range)
    → IsSortedFrom b xs
    → IsSortedFrom c ys
    → SameAddresses xs ys
    → xs ≡ ys
canonical b c [] [] v w same = refl
canonical b c [] (y ∷ ys) v w same = ground (arith, same y.start, w.1)
canonical b c (x ∷ xs) [] v w same = ground (arith, same x.start, v.1)
canonical b c (x ∷ xs) (y ∷ ys) v w same =
    let starts : x.start ≡ y.start =
      omega (arith, start-le x y xs ys v w same, start-le y x ys xs w v (λ a. sym (same a))) in
    let ends : x.end ≡ y.end = omega (
      arith,
      end-le x y xs ys v w starts same,
      end-le y x ys xs w v (sym starts) (λ a. sym (same a)),
    ) in
    ap₂ ◌∷◌ (λ i. record { start = starts i; end = ends i })
      (canonical (suc x.end) (suc y.end) xs ys v.2 w.2 (rest_same x y xs ys v w starts ends same))

-- Two sorted lists that cover the same addresses are the same list.
pub canonical_lem :
    (xs ys : List Range)
    → IsRangeSet xs
    → IsRangeSet ys
    → ((a : ℕ) → covers xs a ≡ covers ys a)
    → xs ≡ ys
canonical_lem xs ys v w same = canonical 0 0 xs ys v w same

-- On a sorted list of non-empty ranges with gaps between them two insertions can be made in either
-- order, with the same list as the result.
pub insert_comm :
    (rs : List Range) (s e s' e' : ℕ)
    → IsRangeSet rs
    → (insert rs s e >>= λ xs. insert xs s' e') ≡ (insert rs s' e' >>= λ xs. insert xs s e)
insert_comm rs s e s' e' w =
    let p = insert-IsInserted rs s e w in
    let q = insert-IsInserted rs s' e' w in
    let pq = insert-IsInserted p.out s' e' p.sorted in
    let qp = insert-IsInserted q.out s e q.sorted in
    let same : pq.out ≡ qp.out =
      canonical_lem pq.out qp.out pq.sorted qp.sorted
        λ a. ground (arith, p.union a, q.union a, pq.union a, qp.union a) in
    rw (p.returns, q.returns, pq.returns, qp.returns, same)
