-- ===== src/SegOff/Tests.antt =====
-- The theorems on dis86/src/segoff.rs at concrete addresses, and runs of the parser.
use dis.Prelude.{◌≡◌, refl, ltb, arith, if◌then◌else◌, ◌+◌, ◌*◌, ◌^◌, ◌<◌}
use dis.Result.{ok, err, panic, not_positive_offset, invalid_seg, invalid_segoff}
use dis.SegOff.{SegOff, new, new_overlay, add_offset, offset_to, from_u32, abs_normal}
use dis.SegOff.Laws.{offset_to-add_offset, abs_normal-from_u32}
use dis.SegOff.Text.{
  bytes, from_str, to_string, from_str-to_string, split_colon, parse_seg, parse_off, strip_prefix,
  u16_from_hex, digits_u16, hex_value, hex_digit, strip_plus, show_seg, hex4, hex_char,
}

abbrev near_end : SegOff
near_end = new 0x100 0xfff0

offset_to-add_offset_example :
    offset_to near_end (add_offset near_end 0x20)
    ≡ (if ltb (0xfff0 + 0x20) (2 ^ 16) then ok 0x20 else panic not_positive_offset)
offset_to-add_offset_example = offset_to-add_offset near_end 0x20 (omega arith) (omega arith)

abs_normal-from_u32_example :
    (from_u32 (0x1234 * 2 ^ 16 + 0x5678) ≡ new 0x1234 0x5678)
    × (abs_normal (from_u32 (0x1234 * 2 ^ 16 + 0x5678)) ≡ ok (0x1234 * 16 + 0x5678))
abs_normal-from_u32_example = abs_normal-from_u32 0x1234 0x5678 (omega arith) (omega arith)

in_overlay : 0x1f < 2 ^ 16
in_overlay = omega arith

from_str-to_string_example :
    from_str (to_string (new_overlay 0x1f 0xbeef)) ≡ ok (new_overlay 0x1f 0xbeef)
from_str-to_string_example = from_str-to_string (new_overlay 0x1f 0xbeef) in_overlay (omega arith)

printed : to_string (new_overlay 0x1f 0xbeef) ≡ bytes "overlay_001f:beef"
unfolding to_string show_seg hex4 hex_char
printed = refl

parsed : from_str (bytes "12AB:+7") ≡ ok (new 0x12ab 7)
unfolding from_str split_colon parse_seg parse_off strip_prefix u16_from_hex digits_u16 hex_value
    hex_digit strip_plus
parsed = refl

no_colon : from_str (bytes "12AB") ≡ err invalid_segoff
unfolding from_str split_colon
no_colon = refl

too_large : from_str (bytes "10000:0") ≡ err invalid_seg
unfolding from_str split_colon parse_seg strip_prefix u16_from_hex digits_u16 hex_value hex_digit
    strip_plus
too_large = refl
