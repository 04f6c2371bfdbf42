-- ===== src/Analyze/CodeSegment/Fits.antt =====
-- Every segment that is found fits into 16-bit offsets, and what that gives.
use dis.Prelude.{
  ℕ, suc, ◌+◌, ◌^◌, ◌≡◌, refl, inl, inr, Bool, true, false, ◌&&◌, Option, none, some, List, [], ◌∷◌,
  arith, ltb, leb, ◌==◌, if◌then◌else◌, length, get_elem?, all, all-get_elem?, &&-eq-true,
  Bool-cases,
}
use mathlib.Core.Path.{subst}
use dis.Result.{
  Result, ok, err, panic, and_then, from_option, index_out_of_range, stub_not_at_start,
}
use dis.SegOff.{SegOff, seg_eq}
use dis.Analyze.CodeSegment.{
  SegInfo, SegRegion, OverlaySeg, OverlayInfo, Exe, CodeSegment, seginfo_size, start, end, contains,
  classify, collect, overlay_segments, append, overlay_segment, from_overlay_info, plain_image,
  segments_of, from_binary, exe_data,
}

abbrev pub fits : CodeSegment → Bool
fits c = ltb (c.primary.skip_off + c.primary.size) (2 ^ 16)

-- Every segment of a result fits.
abbrev AllFit : Result (List CodeSegment) → Type 0
AllFit (ok cs) = all fits cs ≡ true
AllFit (err e) = Unit
AllFit (panic p) = Unit

abbrev CodeFits : Result (List CodeSegment × List SegRegion) → Type 0
CodeFits (ok found) = all fits found.0 ≡ true
CodeFits (err e) = Unit
CodeFits (panic p) = Unit

classify-fits :
    (s : SegInfo) (r : Result (List CodeSegment × List SegRegion))
    → leb (2 ^ 16) (s.minoff + seginfo_size s) ≡ false
    → CodeFits r
    → CodeFits (and_then r λ x. ok (classify s x))
unfolding classify
classify-fits s (ok found) small h = ground arith
classify-fits s (err e) small h = tt
classify-fits s (panic p) small h = tt

collect-CodeFits : (ss : List SegInfo) → CodeFits (collect ss)
unfolding collect
collect-CodeFits [] = refl
collect-CodeFits (s ∷ ss) = elim (Bool-cases (leb (2 ^ 16) (s.minoff + seginfo_size s))) [
  | inl large ↦ rw large tt
  | inr small ↦ rw small (classify-fits s (collect ss) small (collect-CodeFits ss))
]

AllFit-if :
    (b : Bool) (r q : Result (List CodeSegment)) → AllFit r → AllFit q → AllFit (if b then r else q)
AllFit-if true r q h k = h
AllFit-if false r q h k = k

AllFit-and_then :
    (r : Result (List CodeSegment)) (f : List CodeSegment → List CodeSegment)
    → AllFit r
    → ((cs : List CodeSegment) → all fits cs ≡ true → all fits (f cs) ≡ true)
    → AllFit (and_then r λ cs. ok (f cs))
AllFit-and_then (ok cs) f h k = k cs h
AllFit-and_then (err e) f h k = tt
AllFit-and_then (panic p) f h k = tt

overlay_step :
    (stub : Option SegRegion) (i : ℕ) (s : OverlaySeg) (r : Result (List CodeSegment))
    → ltb s.segment_size (2 ^ 16) ≡ true
    → AllFit r
    → AllFit (
        and_then (from_option index_out_of_range stub) λ t.
          if t.skip_off == 0
          then and_then r (λ x. ok (overlay_segment i s t ∷ x))
          else panic stub_not_at_start)
overlay_step none i s r small h = tt
overlay_step (some t) i s r small h =
    AllFit-if (t.skip_off == 0) _ _
      (AllFit-and_then r (λ x. overlay_segment i s t ∷ x) h (λ cs k. ground arith)) tt

abbrev pub word_sizes : List OverlaySeg → Bool
word_sizes ss = all (λ s. ltb s.segment_size (2 ^ 16)) ss

overlay_segments-AllFit :
    (stubs : List SegRegion) (i : ℕ) (ss : List OverlaySeg)
    → word_sizes ss ≡ true
    → AllFit (overlay_segments stubs i ss)
unfolding overlay_segments
overlay_segments-AllFit stubs i [] h = refl
overlay_segments-AllFit stubs i (s ∷ ss) h =
    let both = &&-eq-true (ltb s.segment_size (2 ^ 16)) (word_sizes ss) h in
    overlay_step (get_elem? stubs i) i s _ both.0 (overlay_segments-AllFit stubs (suc i) ss both.1)

all-append :
    (xs ys : List CodeSegment)
    → all fits xs ≡ true
    → all fits ys ≡ true
    → all fits (append xs ys) ≡ true
all-append [] ys h k = k
all-append (x ∷ xs) ys h k =
    let both = &&-eq-true (fits x) (all fits xs) h in rw (both.0, all-append xs ys both.1 k)

join-AllFit :
    (stubs : List SegRegion) (code : List CodeSegment) (ss : List OverlaySeg)
    → all fits code ≡ true
    → word_sizes ss ≡ true
    → AllFit (and_then (overlay_segments stubs 0 ss) λ overlays. ok (append code overlays))
join-AllFit stubs code ss h k =
    AllFit-and_then (overlay_segments stubs 0 ss) (append code)
      (overlay_segments-AllFit stubs 0 ss k) (λ cs m. all-append code cs h m)

found-AllFit :
    (r : Result (List CodeSegment × List SegRegion)) (ss : List OverlaySeg)
    → CodeFits r
    → word_sizes ss ≡ true
    → AllFit (
        and_then r λ found.
          and_then (overlay_segments found.1 0 ss) λ overlays. ok (append found.0 overlays))
found-AllFit (ok (code, stubs)) ss h k = join-AllFit stubs code ss h k
found-AllFit (err e) ss h k = tt
found-AllFit (panic p) ss h k = tt

image-AllFit : (r : Result (List ℕ)) → AllFit (and_then r plain_image)
image-AllFit (ok image) = elim (Bool-cases (leb (2 ^ 16) (length image))) [
  | inl large ↦ unfold plain_image in rw large tt
  | inr small ↦ unfold plain_image in rw small (ground arith)
]
image-AllFit (err e) = tt
image-AllFit (panic p) = tt

abbrev pub overlay_word_sizes : Option OverlayInfo → Bool
overlay_word_sizes none = true
overlay_word_sizes (some ovr) = word_sizes ovr.segs

segments_of-AllFit :
    (e : Exe) (seginfo : Option (List SegInfo)) (ovr : Option OverlayInfo)
    → overlay_word_sizes ovr ≡ true
    → AllFit (segments_of e seginfo ovr)
unfolding from_overlay_info
segments_of-AllFit e (some seginfo) (some ovr) h =
    found-AllFit (collect seginfo) ovr.segs (collect-CodeFits seginfo) h
segments_of-AllFit e none ovr h = image-AllFit (exe_data e)
segments_of-AllFit e (some seginfo) none h = image-AllFit (exe_data e)

from_binary-AllFit : (e : Exe) → overlay_word_sizes e.ovr ≡ true → AllFit (from_binary (some e))
unfolding from_binary
from_binary-AllFit e h = segments_of-AllFit e e.seginfo e.ovr h

contains_lem :
    (c : CodeSegment) (a : SegOff)
    → fits c ≡ true
    → contains c a
      ≡ ok (
          seg_eq a.seg c.primary.seg
          && (leb c.primary.skip_off a.off && ltb a.off (c.primary.skip_off + c.primary.size)))
unfolding contains start end
contains_lem c a h = ground arith

-- If the overlays of an executable have 16-bit sizes, then each code segment that `from_binary`
-- finds has an end, and `contains` answers for it without a panic whether an address is in its
-- segment, from its first offset on and below its last.
pub from_binary-contains :
    (e : Exe) (cs : List CodeSegment) (i : ℕ) (c : CodeSegment) (a : SegOff)
    → overlay_word_sizes e.ovr ≡ true
    → from_binary (some e) ≡ ok cs
    → get_elem? cs i ≡ some c
    → contains c a
      ≡ ok (
          seg_eq a.seg c.primary.seg
          && (leb c.primary.skip_off a.off && ltb a.off (c.primary.skip_off + c.primary.size)))
from_binary-contains e cs i c a h f g =
    contains_lem c a (all-get_elem? fits cs i c (subst AllFit f (from_binary-AllFit e h)) g)
