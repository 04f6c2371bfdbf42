-- ===== src/Region/Tests.antt =====
-- The theorems on dis86/src/region.rs at a region of three bytes.
use dis.Prelude.{ℕ, ◌+◌, ◌*◌, ◌^◌, ◌≡◌, refl, [], ◌∷◌, arith}
use dis.Result.{ok, panic, reset_out_of_region}
use dis.SegOff.{normal, new}
use dis.Region.{RegionIter, fetch, fetch_u16, reset_addr}
use dis.Region.Fetch.{fetch_result, fetch_lem, fetch_u16_lem}
use dis.Region.Keeps.{IsInside, Moved}
use dis.Region.Rollback.{here, reset_addr-Moved}
use dis.Region.SegmentEnd.{reset_addr_wrapped}

abbrev at : ℕ → ℕ → RegionIter
at base off = record {
  mem = 0x34 ∷ 0x12 ∷ 0x90 ∷ [];
  base_seg = normal 0x100;
  base_off = base;
  off = off;
}

inside : IsInside (at 0x20 3)
inside = record { segment = omega arith; cursor = omega arith; bytes = refl }

moved : Moved (at 0x20 1) (at 0x20 3)
moved = record { mem_eq = refl; seg_eq = refl; base_eq = refl; forward = omega arith }

fetch_lem_example : fetch (at 0xffff 1) ≡ fetch_result (at 0xffff 1)
fetch_lem_example = fetch_lem (at 0xffff 1) (omega arith) (omega arith)

fetch_u16_lem_example :
    fetch_u16 (at 0x20 0) ≡ (ok (0x12 * 2 ^ 8 + 0x34), record (at 0x20 0) { off = 0 + 1 + 1 })
fetch_u16_lem_example =
    fetch_u16_lem (at 0x20 0) 0x34 0x12 (omega arith) (omega arith) (omega arith) refl refl

reset_addr-Moved_example : reset_addr (here (at 0x20 1)) (at 0x20 3) ≡ (ok tt, at 0x20 1)
reset_addr-Moved_example = reset_addr-Moved (at 0x20 1) (at 0x20 3) moved inside (omega arith)

reset_addr_wrapped_example :
    reset_addr (new 0x100 0xfffd) (at 0xfffd 2) ≡ (panic reset_out_of_region, at 0xfffd 2)
reset_addr_wrapped_example =
    reset_addr_wrapped (at 0xfffd 2) (new 0x100 0xfffd) (omega arith) (omega arith) (omega arith)
