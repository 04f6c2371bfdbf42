-- ===== src/SegOff.antt =====
-- dis86/src/segoff.rs: addresses of a real-mode program, a segment and a 16-bit offset.
pub mod Laws
pub mod Text
mod Tests
use dis.Prelude.{
  ℕ, ◌+◌, ◌-◌, ◌*◌, ◌/◌, ◌^◌, Bool, true, false, not, ◌&&◌, ◌||◌, ltb, ◌==◌, if◌then◌else◌,
}
use dis.Prelude.Words.{u16, wrapping_add}
use dis.Result.{
  Result, ok, panic, and_then, expected_normal, expected_overlay, different_segments,
  not_positive_offset,
}

pub data Seg : Type 0 where
  normal overlay : ℕ → Seg

-- The newtype `Off` is its u16.
pub record SegOff : Type 0 where
  pub seg : Seg
  pub off : ℕ

unfoldable pub is_normal : Seg → Bool
is_normal (normal _) = true
is_normal (overlay _) = false

unfoldable pub is_overlay : Seg → Bool
is_overlay (normal _) = false
is_overlay (overlay _) = true

unfoldable pub unwrap_normal : Seg → Result ℕ
unwrap_normal (normal s) = ok s
unwrap_normal (overlay _) = panic expected_normal

unfoldable pub unwrap_overlay : Seg → Result ℕ
unwrap_overlay (normal _) = panic expected_overlay
unwrap_overlay (overlay s) = ok s

-- `Seg::abs_normal`
unfoldable pub seg_abs_normal : Seg → Result ℕ
unfolding unwrap_normal
seg_abs_normal s = and_then (unwrap_normal s) λ seg. ok (seg * 16)

-- `SegOff::new`, also under its old name `new_normal`
abbrev pub new : ℕ → ℕ → SegOff
new s o = record { seg = normal s; off = o }

abbrev pub new_overlay : ℕ → ℕ → SegOff
new_overlay s o = record { seg = overlay s; off = o }

unfoldable pub from_u32 : ℕ → SegOff
from_u32 val = new (u16 (val / 2 ^ 16)) (u16 val)

unfoldable pub abs_normal : SegOff → Result ℕ
unfolding unwrap_normal
abs_normal a = and_then (unwrap_normal a.seg) λ s. ok (s * 16 + a.off)

unfoldable pub is_overlay_addr : SegOff → Bool
unfolding is_overlay
is_overlay_addr a = is_overlay a.seg

unfoldable pub add_offset : SegOff → ℕ → SegOff
add_offset a o = record a { off = wrapping_add a.off o }

-- The derived `==`, and the derived order: variants first, then the payload.
abbrev pub seg_eq : Seg → Seg → Bool
seg_eq (normal a) (normal b) = a == b
seg_eq (overlay a) (overlay b) = a == b
seg_eq (normal _) (overlay _) = false
seg_eq (overlay _) (normal _) = false

abbrev pub seg_lt : Seg → Seg → Bool
seg_lt (normal a) (normal b) = ltb a b
seg_lt (overlay a) (overlay b) = ltb a b
seg_lt (normal _) (overlay _) = true
seg_lt (overlay _) (normal _) = false

abbrev pub segoff_eq : SegOff → SegOff → Bool
segoff_eq a b = seg_eq a.seg b.seg && a.off == b.off

abbrev pub segoff_lt : SegOff → SegOff → Bool
segoff_lt a b = seg_lt a.seg b.seg || (seg_eq a.seg b.seg && ltb a.off b.off)

abbrev pub segoff_le : SegOff → SegOff → Bool
segoff_le a b = segoff_lt a b || segoff_eq a b

unfoldable pub offset_to : SegOff → SegOff → Result ℕ
offset_to a other =
    if not (seg_eq a.seg other.seg)
    then panic different_segments
    else if ltb other.off a.off
    then panic not_positive_offset
    else ok (other.off - a.off)
