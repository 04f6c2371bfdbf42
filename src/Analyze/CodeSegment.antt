-- ===== src/Analyze/CodeSegment.antt =====
-- dis86/src/analyze/code_segment.rs: the code segments of an executable, with the parts of
-- dis86/src/binfmt/mz that it reads.
pub mod Fits
pub mod Overlays
pub mod Find
mod Tests
use dis.Prelude.{
  ℕ, suc, ◌+◌, ◌-◌, ◌^◌, Bool, true, false, not, ◌&&◌, Option, none, some, List, [], ◌∷◌, ltb, leb,
  ◌==◌, if◌then◌else◌, length, get_elem?, take, drop,
}
use dis.Prelude.Words.{u16}
use dis.Result.{
  Result, ok, err, panic, and_then, from_option, not_mz, image_too_large, seginfo_too_large,
  slice_out_of_range, stub_not_at_start, index_out_of_range,
}
use dis.SegOff.{Seg, SegOff, normal, overlay, seg_eq}
use dis.Region.{try_u16}

-- Of the header of a segment, the fields that are read. `typ` is 1 for code and 3 for stubs.
pub record SegInfo : Type 0 where
  pub seg : ℕ
  pub maxoff : ℕ
  pub typ : ℕ
  pub minoff : ℕ

pub record OverlaySeg : Type 0 where
  pub segment_size : ℕ

pub record OverlayInfo : Type 0 where
  pub segs : List OverlaySeg

pub record Exe : Type 0 where
  pub exe_start : ℕ
  pub exe_end : ℕ
  pub seginfo : Option (List SegInfo)
  pub ovr : Option OverlayInfo
  pub rawdata : List ℕ

-- `maxoff.wrapping_sub(minoff)` on u16
unfoldable pub seginfo_size : SegInfo → ℕ
seginfo_size s = u16 (s.maxoff + 2 ^ 16 - s.minoff)

unfoldable pub exe_data : Exe → Result (List ℕ)
exe_data e =
    if leb e.exe_start e.exe_end && leb e.exe_end (length e.rawdata)
    then ok (take (e.exe_end - e.exe_start) (drop e.exe_start e.rawdata))
    else panic slice_out_of_range

-- `Region` of code_segment.rs
pub record SegRegion : Type 0 where
  pub seg : Seg
  pub skip_off : ℕ
  pub size : ℕ

pub record CodeSegment : Type 0 where
  pub primary : SegRegion
  pub stub : Option SegRegion

unfoldable pub start : CodeSegment → SegOff
start c = record { seg = c.primary.seg; off = u16 c.primary.skip_off }

unfoldable pub end : CodeSegment → Result SegOff
end c =
    and_then (try_u16 (c.primary.skip_off + c.primary.size))
      λ off. ok (record { seg = c.primary.seg; off = off })

-- `&&` evaluates `end` only if the tests before it hold.
unfoldable pub contains : CodeSegment → SegOff → Result Bool
unfolding start end
contains c addr =
    if seg_eq addr.seg c.primary.seg && leb (start c).off addr.off
    then and_then (end c) (λ e. ok (ltb addr.off e.off))
    else ok false

abbrev pub region_of : SegInfo → SegRegion
region_of s = record { seg = normal s.seg; skip_off = s.minoff; size = seginfo_size s }

-- One round of the loop over the segment headers.
unfoldable pub classify :
    SegInfo → List CodeSegment × List SegRegion → List CodeSegment × List SegRegion
classify s rest =
    if s.typ == 1 && not (seginfo_size s == 0)
    then (record { primary = region_of s; stub = none } ∷ rest.0, rest.1)
    else if s.typ == 3
    then (rest.0, region_of s ∷ rest.1)
    else rest

-- The code and the stub segments, in order.
unfoldable pub collect : List SegInfo → Result (List CodeSegment × List SegRegion)
unfolding classify
collect [] = ok ([], [])
collect (s ∷ ss) =
    let rest = collect ss in
    if leb (2 ^ 16) (s.minoff + seginfo_size s)
    then err seginfo_too_large
    else and_then rest λ r. ok (classify s r)

abbrev pub overlay_segment : ℕ → OverlaySeg → SegRegion → CodeSegment
overlay_segment i s stub = record {
  primary = record { seg = overlay (u16 i); skip_off = 0; size = s.segment_size };
  stub = some stub;
}

-- The overlay segments from index `i` on, matched with the stubs.
unfoldable pub overlay_segments : List SegRegion → ℕ → List OverlaySeg → Result (List CodeSegment)
overlay_segments stubs i [] = ok []
overlay_segments stubs i (s ∷ ss) =
    let rest = overlay_segments stubs (suc i) ss in
    and_then (from_option index_out_of_range (get_elem? stubs i)) λ stub.
      if stub.skip_off == 0
      then and_then rest (λ r. ok (overlay_segment i s stub ∷ r))
      else panic stub_not_at_start

abbrev pub append : List CodeSegment → List CodeSegment → List CodeSegment
append [] ys = ys
append (x ∷ xs) ys = x ∷ append xs ys

unfoldable pub from_overlay_info : List SegInfo → OverlayInfo → Result (List CodeSegment)
unfolding collect overlay_segments
from_overlay_info seginfo ovr =
    and_then (collect seginfo) λ found.
      and_then (overlay_segments found.1 0 ovr.segs) λ overlays. ok (append found.0 overlays)

-- One segment over the whole image.
unfoldable pub plain_image : List ℕ → Result (List CodeSegment)
plain_image image =
    if leb (2 ^ 16) (length image)
    then err image_too_large
    else ok (
        record {
          primary = record { seg = normal 0; skip_off = 0; size = length image };
          stub = none;
        }
        ∷ [])

abbrev pub segments_of :
    Exe → Option (List SegInfo) → Option OverlayInfo → Result (List CodeSegment)
segments_of e (some seginfo) (some ovr) = from_overlay_info seginfo ovr
segments_of e none ovr = and_then (exe_data e) plain_image
segments_of e (some seginfo) none = and_then (exe_data e) plain_image

-- The argument is `binary.exe()`.
unfoldable pub from_binary : Option Exe → Result (List CodeSegment)
unfolding from_overlay_info plain_image exe_data
from_binary none = err not_mz
from_binary (some e) = segments_of e e.seginfo e.ovr

unfoldable pub find_by_segment : List CodeSegment → Seg → Option CodeSegment
find_by_segment [] seg = none
find_by_segment (c ∷ cs) seg =
    let rest = find_by_segment cs seg in if seg_eq c.primary.seg seg then some c else rest
