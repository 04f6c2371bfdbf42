-- ===== src/RangeSet/Insert.antt =====
-- `insert` adds the addresses of one range, and keeps the list sorted and merged.
use dis.Prelude.{
  ℕ, suc, ◌≤◌, ◌<◌, min, max, ◌≡◌, refl, ap, ◌∙◌, inl, inr, Bool, true, false, ◌&&◌, ◌||◌, Option,
  none, some, List, [], ◌∷◌, arith, ltb, leb, length, get_elem?, drop, Bool-cases,
}
use dis.RangeSet.{Range, partition_point, splice, merged, insert, covers, IsSortedFrom, IsRangeSet}

abbrev push_front : Range → Option (List Range) → Option (List Range)
push_front r none = none
push_front r (some rs) = some (r ∷ rs)

-- A range that ends before the new one starts stays in front.
insert_skip :
    (r : Range) (rs : List Range) (s e : ℕ)
    → s < e
    → r.start < r.end
    → r.end < s
    → insert (r ∷ rs) s e ≡ push_front r (insert rs s e)
unfolding insert merged splice partition_point
insert_skip r rs s e h k p = ground arith

-- Where the ranges that touch the new one end: `last` is the last of them.
record IsAbsorbed (e : ℕ) (r : Range) (rs : List Range) : Type 0 where
  last : Range
  found : get_elem? (r ∷ rs) (partition_point (λ x. leb x.start e) rs) ≡ some last
  in_range : partition_point (λ x. leb x.start e) rs ≤ length rs
  later : r.end ≤ last.end
  sorted : IsSortedFrom (suc (max last.end e)) (drop (partition_point (λ x. leb x.start e) rs) rs)
  same :
      (a : ℕ)
      → ((leb r.start a && ltb a (max last.end e))
          || covers (drop (partition_point (λ x. leb x.start e) rs) rs) a)
        ≡ ((leb r.start a && ltb a (max r.end e)) || covers rs a)

module _ (e : ℕ) (r x : Range) (xs : List Range) where
  absorb_above :
      leb x.start e ≡ false
      → r.start < r.end
      → IsSortedFrom (suc r.end) (x ∷ xs)
      → IsAbsorbed e r (x ∷ xs)
  unfolding partition_point
  absorb_above above k w = record {
    last = r;
    found = rw above;
    in_range = rw above (omega arith);
    later = omega arith;
    sorted = rw above (ground arith);
    same = λ a. rw above (ground arith);
  }

  -- The ranges up to `x` count as one that ends where `x` does.
  same_touch :
      (m a : ℕ) (c : Bool)
      → leb x.start e ≡ true
      → r.start < r.end
      → r.end < x.start
      → x.start < x.end
      → x.end ≤ m
      → (d : Bool)
      → ((leb x.start a && ltb a (max m e)) || d) ≡ ((leb x.start a && ltb a (max x.end e)) || c)
      → ((leb r.start a && ltb a (max m e)) || d)
        ≡ ((leb r.start a && ltb a (max r.end e)) || ((leb x.start a && ltb a x.end) || c))
  same_touch m a c touches k l n later d h = ground arith

  absorb_touch :
      leb x.start e ≡ true
      → r.start < r.end
      → IsSortedFrom (suc r.end) (x ∷ xs)
      → IsAbsorbed e x xs
      → IsAbsorbed e r (x ∷ xs)
  unfolding partition_point
  absorb_touch touches k w rest = record {
    last = rest.last;
    found = rw touches rest.found;
    in_range = rw touches (omega (arith, rest.in_range));
    later = omega (arith, rest.later, w.0, w.1);
    sorted = rw touches rest.sorted;
    same = λ a.
        rw touches
          (same_touch rest.last.end a (covers xs a) touches k w.0 w.1 rest.later _ (rest.same a));
  }

absorb :
    (e : ℕ) (r : Range) (rs : List Range)
    → r.start < r.end
    → IsSortedFrom (suc r.end) rs
    → IsAbsorbed e r rs
unfolding partition_point
absorb e r [] k w = record {
  last = r;
  found = refl;
  in_range = omega arith;
  later = omega arith;
  sorted = tt;
  same = λ a. refl;
}
absorb e r (x ∷ xs) k w = elim (Bool-cases (leb x.start e)) [
  | inr above ↦ absorb_above e r x xs above k w
  | inl touches ↦ absorb_touch e r x xs touches k w (absorb e x xs w.1 w.2)
]

-- What `insert` promises: it does not panic, and returns a sorted list that covers one range more.
pub record IsInserted (b : ℕ) (rs : List Range) (s e : ℕ) (result : Option (List Range))
    : Type 0 where
  pub out : List Range
  pub returns : result ≡ some out
  pub sorted : IsSortedFrom b out
  pub union : (a : ℕ) → covers out a ≡ ((leb s a && ltb a e) || covers rs a)

module _ (b : ℕ) (r : Range) (rs : List Range) (s e : ℕ) where
  insert_front :
      s < e
      → b ≤ s
      → IsSortedFrom b (r ∷ rs)
      → e < r.start
      → IsInserted b (r ∷ rs) s e (insert (r ∷ rs) s e)
  unfolding insert merged splice partition_point
  insert_front h l w p = record {
    out = record { start = s; end = e } ∷ r ∷ rs;
    returns = ground arith;
    sorted = (l, h, (p, w.1, w.2));
    union = λ a. refl;
  }

  -- With the first range touched, the search from below stops at once.
  insert_returns :
      s < e
      → s ≤ r.end
      → r.start ≤ e
      → (ab : IsAbsorbed e r rs)
      → insert (r ∷ rs) s e
        ≡ some (
            record { start = min r.start s; end = max ab.last.end e }
            ∷ drop (partition_point (λ x. leb x.start e) rs) rs)
  unfolding insert merged splice partition_point
  insert_returns h p q ab = ground (arith, ab.found, ab.in_range)

  union_merge :
      (m a : ℕ) (c d : Bool)
      → s < e
      → r.start < r.end
      → s ≤ r.end
      → r.start ≤ e
      → ((leb r.start a && ltb a (max m e)) || d) ≡ ((leb r.start a && ltb a (max r.end e)) || c)
      → r.end ≤ m
      → ((leb (min r.start s) a && ltb a (max m e)) || d)
        ≡ ((leb s a && ltb a e) || ((leb r.start a && ltb a r.end) || c))
  union_merge m a c d h k p q same later = ground arith

  insert_merge :
      s < e
      → b ≤ s
      → IsSortedFrom b (r ∷ rs)
      → s ≤ r.end
      → r.start ≤ e
      → IsAbsorbed e r rs
      → IsInserted b (r ∷ rs) s e (insert (r ∷ rs) s e)
  insert_merge h l w p q ab = record {
    out =
        record { start = min r.start s; end = max ab.last.end e }
        ∷ drop (partition_point (λ x. leb x.start e) rs) rs;
    returns = insert_returns h p q ab;
    sorted = (omega arith, omega (arith, w.1), ab.sorted);
    union = λ a. union_merge ab.last.end a _ _ h w.1 p q (ab.same a) ab.later;
  }

insert_sorted :
    (b : ℕ) (rs : List Range) (s e : ℕ)
    → s < e
    → b ≤ s
    → IsSortedFrom b rs
    → IsInserted b rs s e (insert rs s e)
insert_sorted b [] s e h l w = record {
  out = record { start = s; end = e } ∷ [];
  returns = unfold insert merged splice partition_point in ground arith;
  sorted = (l, h, tt);
  union = λ a. refl;
}
insert_sorted b (r ∷ rs) s e h l w = elim (Bool-cases (ltb r.end s)) [
  | inl below ↦
      let rest = insert_sorted (suc r.end) rs s e h (ground arith) w.2 in
      record {
        out = r ∷ rest.out;
        returns = insert_skip r rs s e h w.1 (ground arith) ∙ ap (push_front r) rest.returns;
        sorted = (w.0, w.1, rest.sorted);
        union = λ a. ground (arith, rest.union a);
      }
  | inr near ↦ elim (Bool-cases (leb r.start e)) [
    | inl touches ↦
        insert_merge b r rs s e h l w (ground arith) (ground arith) (absorb e r rs w.1 w.2)
    | inr above ↦ insert_front b r rs s e h l w (ground arith)
  ]
]

-- Inserting any range, an empty or reversed one included, into a sorted list of non-empty ranges
-- with gaps between them does not panic. The list stays so, and covers exactly the old addresses
-- and those of the new range.
pub insert-IsInserted :
    (rs : List Range) (s e : ℕ) → IsRangeSet rs → IsInserted 0 rs s e (insert rs s e)
insert-IsInserted rs s e w = elim (Bool-cases (leb e s)) [
  | inl empty ↦ record {
    out = rs;
    returns = unfold insert in rw empty;
    sorted = w;
    union = λ a. ground arith;
  }
  | inr full ↦ insert_sorted 0 rs s e (ground arith) (omega arith) w
]
