-- ===== src/Analyze/CodeSegment/Find.antt =====
-- The search of dis86/src/analyze/code_segment.rs for the segment of an address.
use dis.Prelude.{
  ℕ, suc, ◌≡◌, refl, ◌⊎◌, inl, inr, true, not, Option, none, some, List, [], ◌∷◌, get_elem?, take,
  all, Bool-cases,
}
use dis.SegOff.{Seg, seg_eq}
use dis.SegOff.Laws.{seg_eq_sound}
use dis.Analyze.CodeSegment.{CodeSegment, find_by_segment}

-- No segment of the list has this number.
abbrev pub IsAbsent : Seg → List CodeSegment → Type 0
IsAbsent seg cs = all (λ c. not (seg_eq c.primary.seg seg)) cs ≡ true

-- The result is the first segment of the list with this number.
pub record IsFirst (cs : List CodeSegment) (seg : Seg) (result : Option CodeSegment) : Type 0 where
  pub index : ℕ
  pub found : CodeSegment
  pub returns : result ≡ some found
  pub at : get_elem? cs index ≡ some found
  pub seg_is : found.primary.seg ≡ seg
  pub earlier : IsAbsent seg (take index cs)

-- `find_by_segment` returns the first segment of the list with that number, or nothing, and then no
-- segment has it.
pub find_by_segment-IsFirst :
    (cs : List CodeSegment) (seg : Seg)
    → ((find_by_segment cs seg ≡ none) × IsAbsent seg cs) ⊎ IsFirst cs seg (find_by_segment cs seg)
unfolding find_by_segment
find_by_segment-IsFirst [] seg = inl (refl, refl)
find_by_segment-IsFirst (c ∷ cs) seg = elim (Bool-cases (seg_eq c.primary.seg seg)) [
  | inl same ↦ inr (record {
    index = 0;
    found = c;
    returns = rw same;
    at = refl;
    seg_is = seg_eq_sound c.primary.seg seg same;
    earlier = refl;
  })
  | inr other ↦ elim (find_by_segment-IsFirst cs seg) [
    | inl rest ↦ inl (rw (other, rest.0), rw (other, rest.1))
    | inr f ↦ inr (record {
      index = suc f.index;
      found = f.found;
      returns = rw (other, f.returns);
      at = f.at;
      seg_is = f.seg_is;
      earlier = rw (other, f.earlier);
    })
  ]
]
