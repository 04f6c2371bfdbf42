-- ===== src/Region/SegmentEnd.antt =====
-- A region that reaches the end of its 16-bit segment: the end address wraps in `end_addr` of
-- dis86/src/region.rs.
use dis.Prelude.{ℕ, ◌+◌, ◌-◌, ◌≤◌, ◌<◌, ◌^◌, ◌≡◌, inl, inr, true, false, arith, length, Bool-cases}
use dis.Result.{ok, panic, reset_out_of_region}
use dis.SegOff.{Seg, SegOff, normal, overlay, segoff_le, segoff_lt, add_offset}
use dis.Region.{RegionIter, base_addr, end_addr, reset_addr}

-- No address lies between a base and an end below it.
none_between :
    (s t : Seg) (base end o : ℕ)
    → end < base
    → segoff_le (record { seg = s; off = base }) (record { seg = t; off = o }) ≡ true
    → segoff_lt (record { seg = t; off = o }) (record { seg = s; off = end }) ≡ false
none_between (normal s) (normal t) base end o h k = ground arith
none_between (normal s) (overlay t) base end o h k = ground arith
none_between (overlay s) (normal t) base end o h k = ground arith
none_between (overlay s) (overlay t) base end o h k = ground arith

end_addr_wrapped :
    (it : RegionIter)
    → it.base_off < 2 ^ 16
    → length it.mem < 2 ^ 16
    → 2 ^ 16 ≤ it.base_off + length it.mem
    → end_addr it ≡ ok (record { seg = it.base_seg; off = it.base_off + length it.mem - 2 ^ 16 })
unfolding end_addr add_offset
end_addr_wrapped it h k l = ground arith

-- If a region of fewer than 2 ^ 16 bytes ends at the end of its segment or beyond, `reset_addr`
-- panics for every address, also for those of the region.
pub reset_addr_wrapped :
    (it : RegionIter) (a : SegOff)
    → it.base_off < 2 ^ 16
    → length it.mem < 2 ^ 16
    → 2 ^ 16 ≤ it.base_off + length it.mem
    → reset_addr a it ≡ (panic reset_out_of_region, it)
unfolding reset_addr
reset_addr_wrapped it a h k l = elim (Bool-cases (segoff_le (base_addr it) a)) [
  | inr below ↦ rw below
  | inl above ↦ rw (
    above,
    end_addr_wrapped it h k l,
    above,
    none_between it.base_seg a.seg it.base_off (it.base_off + length it.mem - 2 ^ 16) a.off
        (omega arith) above,
  )
]
