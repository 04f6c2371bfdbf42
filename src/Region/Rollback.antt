-- ===== src/Region/Rollback.antt =====
-- `reset_addr` undoes what was read, and the bytes read are a slice of the region.
use dis.Prelude.{
  ℕ, ◌+◌, ◌-◌, ◌<◌, ◌≡◌, sym, ap, ◌∙◌, true, false, ◌||◌, arith, ltb, ◌==◌, length, take, drop,
}
use dis.Result.{ok}
use dis.SegOff.{SegOff, offset_to}
use dis.SegOff.Laws.{seg_eq_refl, seg_lt_irrefl}
use dis.Region.{RegionIter, reset_addr, slice}
use dis.Region.Keeps.{IsInside, Moved, end_addr_inside}

-- The address at the cursor.
abbrev pub here : RegionIter → SegOff
here it = record { seg = it.base_seg; off = it.base_off + it.off }

reset_here :
    (it : RegionIter) (k : ℕ)
    → IsInside it
    → k < length it.mem
    → reset_addr (record { seg = it.base_seg; off = it.base_off + k }) it
      ≡ (ok tt, record it { off = k })
unfolding reset_addr
reset_here it k h lt =
    let back : it.base_off + k - it.base_off ≡ k = omega arith in
    let above : ltb it.base_off (it.base_off + k) || (it.base_off == it.base_off + k) ≡ true =
      ground arith in
    let below : ltb (it.base_off + k) (it.base_off + length it.mem) ≡ true = ground arith in
    rw
      (end_addr_inside it h, seg_lt_irrefl it.base_seg, seg_eq_refl it.base_seg, above, below, back)

Moved-back : (it it' : RegionIter) → Moved it it' → record it' { off = it.off } ≡ it
Moved-back it it' m i = record {
  mem = m.mem_eq i;
  base_seg = m.seg_eq i;
  base_off = m.base_eq i;
  off = it.off;
}

here-Moved :
    (it it' : RegionIter)
    → Moved it it'
    → here it ≡ record { seg = it'.base_seg; off = it'.base_off + it.off }
here-Moved it it' m i = record { seg = sym m.seg_eq i; off = sym m.base_eq i + it.off }

-- In a region of bytes that ends before its segment does, after any reads that began at a byte of
-- the region and ended inside it, `reset_addr` to the address where they began gives the iterator
-- of that time back.
pub reset_addr-Moved :
    (it it' : RegionIter)
    → Moved it it'
    → IsInside it'
    → it.off < length it.mem
    → reset_addr (here it) it' ≡ (ok tt, it)
reset_addr-Moved it it' m h lt =
    ap (λ a. reset_addr a it') (here-Moved it it' m)
    ∙ reset_here it' it.off h (rw m.mem_eq lt)
    ∙ ap (λ x. (ok tt, x)) (Moved-back it it' m)

-- The number of bytes read, and those bytes.
pub offset_to-here :
    (it it' : RegionIter) → Moved it it' → offset_to (here it) (here it') ≡ ok (it'.off - it.off)
unfolding offset_to
offset_to-here it it' m =
    let distance : it'.base_off + it'.off - (it.base_off + it.off) ≡ it'.off - it.off =
      omega (arith, m.base_eq, m.forward) in
    let not_less : ltb (it'.base_off + it'.off) (it.base_off + it.off) ≡ false =
      ground (arith, m.base_eq, m.forward) in
    rw (m.seg_eq, seg_eq_refl it.base_seg, not_less, distance)

pub slice-here :
    (it it' : RegionIter)
    → Moved it it'
    → IsInside it'
    → slice it' (here it) (it'.off - it.off) ≡ ok (take (it'.off - it.off) (drop it.off it.mem))
unfolding slice
slice-here it it' m h =
    let start : it.base_off + it.off - it.base_off ≡ it.off = omega arith in
    let not_below : ltb (it.base_off + it.off) it.base_off ≡ false = ground arith in
    let not_beyond : ltb (it.base_off + length it.mem) (it.base_off + it.off + (it'.off - it.off))
        ≡ false =
      ground (arith, rw m.mem_eq at h.cursor, m.forward) in
    rw (m.seg_eq, m.base_eq, m.mem_eq, seg_eq_refl it.base_seg, not_below, not_beyond, start)
