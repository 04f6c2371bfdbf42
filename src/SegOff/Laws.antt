-- ===== src/SegOff/Laws.antt =====
-- Equality, order and arithmetic on the addresses of dis86/src/segoff.rs.
use dis.Prelude.{ℕ, ◌+◌, ◌*◌, ◌<◌, ◌^◌, ◌≡◌, arith, true, false, ltb, if◌then◌else◌}
use dis.Result.{ok, panic, not_positive_offset}
use dis.SegOff.{
  SegOff, Seg, normal, overlay, add_offset, offset_to, abs_normal, from_u32, seg_eq, seg_lt, new,
}

pub seg_eq_refl : (s : Seg) → seg_eq s s ≡ true
seg_eq_refl (normal a) = ground arith
seg_eq_refl (overlay a) = ground arith

pub seg_eq_sound : (s t : Seg) → seg_eq s t ≡ true → s ≡ t
seg_eq_sound (normal a) (normal b) h = ground arith
seg_eq_sound (normal a) (overlay b) h = cc
seg_eq_sound (overlay a) (normal b) h = cc
seg_eq_sound (overlay a) (overlay b) h = ground arith

-- For a u16 displacement, `offset_to` undoes `add_offset` where the offset does not wrap, and
-- panics where it does.
pub offset_to-add_offset :
    (a : SegOff) (d : ℕ)
    → a.off < 2 ^ 16
    → d < 2 ^ 16
    → offset_to a (add_offset a d)
      ≡ (if ltb (a.off + d) (2 ^ 16) then ok d else panic not_positive_offset)
unfolding offset_to add_offset
offset_to-add_offset a d h k = ground (arith, seg_eq_refl a.seg)

-- Every u32 names an address with a 16-bit segment and offset, whose linear address is 16 times
-- the high half plus the low half.
pub abs_normal-from_u32 :
    (hi lo : ℕ)
    → hi < 2 ^ 16
    → lo < 2 ^ 16
    → (from_u32 (hi * 2 ^ 16 + lo) ≡ new hi lo)
      × (abs_normal (from_u32 (hi * 2 ^ 16 + lo)) ≡ ok (hi * 16 + lo))
unfolding from_u32 abs_normal
abs_normal-from_u32 hi lo h k = (ground arith, ground arith)

pub seg_lt_irrefl : (s : Seg) → seg_lt s s ≡ false
seg_lt_irrefl (normal a) = ground arith
seg_lt_irrefl (overlay a) = ground arith
