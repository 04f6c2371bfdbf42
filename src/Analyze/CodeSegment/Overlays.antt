-- ===== src/Analyze/CodeSegment/Overlays.antt =====
-- `from_overlay_info` of dis86/src/analyze/code_segment.rs, without its loops and indices.
use mathlib.Core.List.{map}
use dis.Prelude.{
  ℕ, suc, ◌+◌, ◌^◌, ◌≡◌, refl, ap, inl, inr, Bool, true, not, ◌&&◌, Option-cases, none, List, [],
  ◌∷◌, ◌++◌, arith, ltb, ◌==◌, if◌then◌else◌, length, get_elem?, drop, drop-at_elem, length-drop,
  length-le_of_none, all, all-get_elem?, Bool-cases,
}
use dis.Result.{Result, ok, err, panic, and_then, index_out_of_range, seginfo_too_large}
use dis.Analyze.CodeSegment.{
  SegInfo, SegRegion, OverlaySeg, OverlayInfo, CodeSegment, seginfo_size, region_of, classify,
  collect, overlay_segment, overlay_segments, append, from_overlay_info,
}

-- A header whose end is a 16-bit offset.
abbrev pub header_fits : SegInfo → Bool
header_fits s = ltb (s.minoff + seginfo_size s) (2 ^ 16)

-- A code header of a segment that is not empty.
abbrev pub is_code : SegInfo → Bool
is_code s = s.typ == 1 && not (seginfo_size s == 0)

abbrev pub is_stub : SegInfo → Bool
is_stub s = s.typ == 3

-- The headers of a kind, in order.
unfoldable pub selected : (SegInfo → Bool) → List SegInfo → List SegInfo
selected p [] = []
selected p (s ∷ ss) = let rest = selected p ss in if p s then s ∷ rest else rest

abbrev pub code_of : SegInfo → CodeSegment
code_of s = record { primary = region_of s; stub = none }

abbrev pub stubs_in : List SegInfo → List SegRegion
stubs_in ss = map region_of (selected is_stub ss)

abbrev pub starts_at_zero : SegRegion → Bool
starts_at_zero t = t.skip_off == 0

-- Each overlay with the stub at its place, numbered from `i` on.
unfoldable pub paired : ℕ → List OverlaySeg → List SegRegion → List CodeSegment
paired i [] ts = []
paired i (s ∷ ss) [] = []
paired i (s ∷ ss) (t ∷ ts) = overlay_segment i s t ∷ paired (suc i) ss ts

collected : List SegInfo → Result (List CodeSegment × List SegRegion)
collected ss =
    if all header_fits ss
    then ok (map code_of (selected is_code ss), stubs_in ss)
    else err seginfo_too_large

collect_step :
    (s : SegInfo) (ss : List SegInfo)
    → collect ss ≡ collected ss
    → collect (s ∷ ss) ≡ collected (s ∷ ss)
unfolding collect collected selected classify
collect_step s ss h = elim (Bool-cases (all header_fits ss)) [
  | inl f ↦ rw (h, f) (ground arith)
  | inr f ↦ rw (h, f) (ground arith)
]

collect_lem : (ss : List SegInfo) → collect ss ≡ collected ss
unfolding collect collected selected
collect_lem [] = refl
collect_lem (s ∷ ss) = collect_step s ss (collect_lem ss)

-- The overlays from index `i` on, with the stubs that are left.
matched : ℕ → List OverlaySeg → List SegRegion → Result (List CodeSegment)
matched i ss ts =
    if ltb (length ts) (length ss) then panic index_out_of_range else ok (paired i ss ts)

overlay_segments_lem :
    (stubs : List SegRegion) (i : ℕ) (ss : List OverlaySeg)
    → all starts_at_zero stubs ≡ true
    → overlay_segments stubs i ss ≡ matched i ss (drop i stubs)
unfolding overlay_segments matched paired
overlay_segments_lem stubs i [] h = ground arith
overlay_segments_lem stubs i (s ∷ ss) h = elim (Option-cases (get_elem? stubs i)) [
  | inl e ↦
      let none_left : length (drop i stubs) ≡ 0 =
        omega (arith, length-drop i stubs, length-le_of_none stubs i e) in
      rw (e, none_left) (ground arith)
  | inr found ↦
      rw
        (
          found.1,
          all-get_elem? starts_at_zero stubs i found.0 h found.1,
          overlay_segments_lem stubs (suc i) ss h,
          drop-at_elem stubs i found.0 found.1,
        )
        (ground arith)
]

append_lem : (xs ys : List CodeSegment) → append xs ys ≡ xs ++ ys
append_lem [] ys = refl
append_lem (x ∷ xs) ys = ap (λ zs. x ∷ zs) (append_lem xs ys)

joined :
    (stubs : List SegRegion) (code : List CodeSegment) (ss : List OverlaySeg)
    → and_then (matched 0 ss stubs) (λ overlays. ok (append code overlays)) ≡ (
        if ltb (length stubs) (length ss)
        then panic index_out_of_range
        else ok (code ++ paired 0 ss stubs))
unfolding matched
joined stubs code ss = elim (Bool-cases (ltb (length stubs) (length ss))) [
  | inl few ↦ rw few refl
  | inr enough ↦ rw enough (ap ok (append_lem code (paired 0 ss stubs)))
]

-- If every stub segment starts at offset 0, then `from_overlay_info` is an error if some header's
-- end is no 16-bit offset. Else it panics if there are fewer stub headers than overlays, and
-- otherwise returns the segments of the non-empty code headers in order, and behind them the
-- overlays, numbered from 0 on, each with the stub at its own place among the stub headers.
pub from_overlay_info_lem :
    (seginfo : List SegInfo) (ovr : OverlayInfo)
    → all starts_at_zero (stubs_in seginfo) ≡ true
    → from_overlay_info seginfo ovr ≡ (
        if all header_fits seginfo
        then if ltb (length (stubs_in seginfo)) (length ovr.segs)
          then panic index_out_of_range
          else ok (map code_of (selected is_code seginfo) ++ paired 0 ovr.segs (stubs_in seginfo))
        else err seginfo_too_large)
unfolding from_overlay_info collected
from_overlay_info_lem seginfo ovr h = elim (Bool-cases (all header_fits seginfo)) [
  | inl f ↦
      let stubs = stubs_in seginfo in
      rw (collect_lem seginfo, f, overlay_segments_lem stubs 0 ovr.segs h)
        (joined stubs (map code_of (selected is_code seginfo)) ovr.segs)
  | inr f ↦ rw (collect_lem seginfo, f) refl
]
