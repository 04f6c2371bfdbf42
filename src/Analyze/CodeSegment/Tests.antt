-- ===== src/Analyze/CodeSegment/Tests.antt =====
-- The theorems on dis86/src/analyze/code_segment.rs at small executables.
use mathlib.Core.List.{map}
use dis.Prelude.{
  ◌+◌, ◌≡◌, ◌⊎◌, refl, ◌&&◌, none, some, [], ◌∷◌, leb, ltb, ◌++◌, true, all, length, if◌then◌else◌,
}
use dis.Result.{ok, err, panic, index_out_of_range, seginfo_too_large}
use dis.SegOff.{normal, overlay, new, seg_eq}
use dis.Analyze.CodeSegment.{
  SegInfo, Exe, CodeSegment, contains, seginfo_size, from_overlay_info, from_binary,
  find_by_segment,
}
use dis.Analyze.CodeSegment.Find.{IsAbsent, IsFirst, find_by_segment-IsFirst}
use dis.Analyze.CodeSegment.Fits.{from_binary-contains}
use dis.Analyze.CodeSegment.Overlays.{
  header_fits, is_code, selected, code_of, stubs_in, starts_at_zero, paired, from_overlay_info_lem,
}

abbrev code_info : SegInfo
code_info = record { seg = 0x10; maxoff = 0x120; typ = 1; minoff = 0x20 }

abbrev stub_info : SegInfo
stub_info = record { seg = 0x30; maxoff = 0x40; typ = 3; minoff = 0 }

abbrev code_segment : CodeSegment
code_segment = record {
  primary = record { seg = normal 0x10; skip_off = 0x20; size = 0x100 };
  stub = none;
}

abbrev overlay_code : CodeSegment
overlay_code = record {
  primary = record { seg = overlay 0; skip_off = 0; size = 0x200 };
  stub = some (record { seg = normal 0x30; skip_off = 0; size = 0x40 });
}

abbrev game : Exe
game = record {
  exe_start = 0;
  exe_end = 0;
  rawdata = [];
  seginfo = some (code_info ∷ stub_info ∷ []);
  ovr = some (record { segs = record { segment_size = 0x200 } ∷ [] });
}

game_segments : from_binary (some game) ≡ ok (code_segment ∷ overlay_code ∷ [])
unfolding from_binary seginfo_size
game_segments = refl

game_overlay : find_by_segment (code_segment ∷ overlay_code ∷ []) (overlay 0) ≡ some overlay_code
unfolding find_by_segment
game_overlay = refl

from_binary-contains_example :
    contains code_segment (new 0x10 0x11f)
    ≡ ok (seg_eq (normal 0x10) (normal 0x10) && (leb 0x20 0x11f && ltb 0x11f (0x20 + 0x100)))
from_binary-contains_example =
    from_binary-contains game (code_segment ∷ overlay_code ∷ []) 0 code_segment (new 0x10 0x11f)
      refl game_segments refl

stub_starts : all starts_at_zero (stubs_in (code_info ∷ stub_info ∷ [])) ≡ true
unfolding selected
stub_starts = refl

from_overlay_info_lem_example :
    from_overlay_info
      (code_info ∷ stub_info ∷ [])
      (record { segs = record { segment_size = 0x200 } ∷ [] })
    ≡ (if all header_fits (code_info ∷ stub_info ∷ [])
        then if ltb (length (stubs_in (code_info ∷ stub_info ∷ []))) 1
          then panic index_out_of_range
          else ok (
              map code_of (selected is_code (code_info ∷ stub_info ∷ []))
              ++ paired 0
                  (record { segment_size = 0x200 } ∷ [])
                  (stubs_in (code_info ∷ stub_info ∷ [])))
        else err seginfo_too_large)
from_overlay_info_lem_example =
    from_overlay_info_lem (code_info ∷ stub_info ∷ [])
      (record { segs = record { segment_size = 0x200 } ∷ [] }) stub_starts

-- An overlay without a stub.
no_stub :
    from_overlay_info (code_info ∷ []) (record { segs = record { segment_size = 0x200 } ∷ [] })
    ≡ panic index_out_of_range
unfolding from_overlay_info seginfo_size
no_stub = refl

find_by_segment-IsFirst_example :
    ((find_by_segment (code_segment ∷ overlay_code ∷ []) (overlay 0) ≡ none)
      × IsAbsent (overlay 0) (code_segment ∷ overlay_code ∷ []))
    ⊎ IsFirst
        (code_segment ∷ overlay_code ∷ [])
        (overlay 0)
        (find_by_segment (code_segment ∷ overlay_code ∷ []) (overlay 0))
find_by_segment-IsFirst_example =
    find_by_segment-IsFirst (code_segment ∷ overlay_code ∷ []) (overlay 0)
