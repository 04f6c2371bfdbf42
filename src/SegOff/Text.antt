-- ===== src/SegOff/Text.antt =====
-- `FromStr` and `Display` of addresses, on the bytes of a text.
use Prim.Native.Char.{code}
use Prim.Native.String.{String}
use dis.Prelude.{
  ℕ, ◌+◌, ◌-◌, ◌*◌, ◌/◌, ◌%◌, ◌^◌, ◌<◌, ◌≡◌, refl, ap, ◌∙◌, false, ◌&&◌, Option, none, some, List,
  [], ◌∷◌, ◌++◌, arith, ltb, leb, ◌==◌, if◌then◌else◌, ◌>>=◌,
}
use dis.Result.{Result, ok, err, and_then, invalid_segoff, invalid_seg, invalid_off}
use dis.SegOff.{Seg, SegOff, normal, overlay}

abbrev pub bytes : String → List ℕ
bytes String.[] = []
bytes (String.◌∷◌ c s) = code c ∷ bytes s

unfoldable pub hex_digit : ℕ → Option ℕ
hex_digit c =
    if leb b'0' c && leb c b'9'
    then some (c - b'0')
    else if leb b'a' c && leb c b'f'
    then some (c - b'a' + 10)
    else if leb b'A' c && leb c b'F'
    then some (c - b'A' + 10)
    else none

unfoldable pub hex_value : ℕ → List ℕ → Option ℕ
hex_value acc [] = some acc
hex_value acc (c ∷ cs) = hex_digit c >>= λ d. hex_value (acc * 16 + d) cs

unfoldable pub strip_plus : List ℕ → List ℕ
strip_plus [] = []
strip_plus (c ∷ cs) = if c == b'+' then cs else c ∷ cs

unfoldable pub digits_u16 : List ℕ → Option ℕ
digits_u16 [] = none
digits_u16 (c ∷ cs) = hex_value 0 (c ∷ cs) >>= λ n. if ltb n (2 ^ 16) then some n else none

-- `u16::from_str_radix(s, 16)`: one sign is allowed, then at least one digit, and no overflow.
unfoldable pub u16_from_hex : List ℕ → Option ℕ
u16_from_hex s = digits_u16 (strip_plus s)

-- What is left behind a prefix.
unfoldable pub strip_prefix : List ℕ → List ℕ → Option (List ℕ)
strip_prefix [] s = some s
strip_prefix (p ∷ ps) [] = none
strip_prefix (p ∷ ps) (c ∷ s) = if p == c then strip_prefix ps s else none

-- The text before the first colon, and the text behind it.
unfoldable pub split_colon : List ℕ → Option (List ℕ × List ℕ)
split_colon [] = none
split_colon (c ∷ s) =
    if c == b':' then some ([], s) else (split_colon s >>= λ parts. some (c ∷ parts.0, parts.1))

abbrev or_err : Option ℕ → (ℕ → Seg) → Result Seg
or_err none f = err invalid_seg
or_err (some n) f = ok (f n)

abbrev seg_rem : Option (List ℕ) → List ℕ → Result Seg
seg_rem none s = or_err (u16_from_hex s) normal
seg_rem (some rem) s = or_err (u16_from_hex rem) overlay

unfoldable pub parse_seg : List ℕ → Result Seg
parse_seg s = seg_rem (strip_prefix (bytes "overlay_") s) s

abbrev off_or_err : Option ℕ → Result ℕ
off_or_err none = err invalid_off
off_or_err (some n) = ok n

unfoldable pub parse_off : List ℕ → Result ℕ
parse_off s = off_or_err (u16_from_hex s)

abbrev parse_parts : Option (List ℕ × List ℕ) → Result SegOff
parse_parts none = err invalid_segoff
parse_parts (some (s, o)) =
    and_then (parse_seg s) λ seg. and_then (parse_off o) λ off. ok (record { seg = seg; off = off })

unfoldable pub from_str : List ℕ → Result SegOff
from_str s = parse_parts (split_colon s)

unfoldable pub hex_char : ℕ → ℕ
hex_char d = if ltb d 10 then b'0' + d else b'a' + d - 10

-- `{:04x}` of a u16
unfoldable pub hex4 : ℕ → List ℕ
hex4 n =
    hex_char (n / 4096 % 16)
    ∷ hex_char (n / 256 % 16)
    ∷ hex_char (n / 16 % 16)
    ∷ hex_char (n % 16)
    ∷ []

unfoldable pub show_seg : Seg → List ℕ
show_seg (normal s) = hex4 s
show_seg (overlay s) = bytes "overlay_" ++ hex4 s

unfoldable pub to_string : SegOff → List ℕ
to_string a = show_seg a.seg ++ b':' ∷ hex4 a.off

pub hex_char_props :
    (d : ℕ)
    → d < 16
    → (hex_digit (hex_char d) ≡ some d)
      × ((hex_char d == b'+') ≡ false)
      × ((hex_char d == b':') ≡ false)
      × ((b'o' == hex_char d) ≡ false)
unfolding hex_digit hex_char
hex_char_props d h = (ground arith, ground arith, ground arith, ground arith)

pub hex_digits_value :
    (a b c d : ℕ)
    → a < 16
    → b < 16
    → c < 16
    → d < 16
    → u16_from_hex (hex_char a ∷ hex_char b ∷ hex_char c ∷ hex_char d ∷ [])
      ≡ some (((a * 16 + b) * 16 + c) * 16 + d)
unfolding u16_from_hex digits_u16 hex_value strip_plus
hex_digits_value a b c d ha hb hc hd =
    rw
      (
        (hex_char_props a ha).1,
        (hex_char_props a ha).0,
        (hex_char_props b hb).0,
        (hex_char_props c hc).0,
        (hex_char_props d hd).0,
      )
      (ground arith)

-- A u16 is read back from its four digits.
u16_from_hex-hex4 : (n : ℕ) → n < 2 ^ 16 → u16_from_hex (hex4 n) ≡ some n
unfolding hex4
u16_from_hex-hex4 n h =
    hex_digits_value (n / 4096 % 16) (n / 256 % 16) (n / 16 % 16) (n % 16) (omega arith)
      (omega arith) (omega arith) (omega arith)
    ∙ ap some (omega arith)

abbrev pub Is16Bit : Seg → Type 0
Is16Bit (normal s) = s < 2 ^ 16
Is16Bit (overlay s) = s < 2 ^ 16

hex4_no_prefix : (n : ℕ) → strip_prefix (bytes "overlay_") (hex4 n) ≡ none
unfolding strip_prefix hex4
hex4_no_prefix n = rw ((hex_char_props (n / 4096 % 16) (omega arith)).3) refl

parse_seg-show_seg : (s : Seg) → Is16Bit s → parse_seg (show_seg s) ≡ ok s
unfolding parse_seg show_seg
parse_seg-show_seg (normal s) h = rw (hex4_no_prefix s, u16_from_hex-hex4 s h) refl
parse_seg-show_seg (overlay s) h = unfold strip_prefix in rw (u16_from_hex-hex4 s h) refl

split_colon-hex4 :
    (n : ℕ) (rest : List ℕ) → n < 2 ^ 16 → split_colon (hex4 n ++ b':' ∷ rest) ≡ some (hex4 n, rest)
unfolding split_colon hex4
split_colon-hex4 n rest h =
    rw
      (
        (hex_char_props (n / 4096 % 16) (omega arith)).2,
        (hex_char_props (n / 256 % 16) (omega arith)).2,
        (hex_char_props (n / 16 % 16) (omega arith)).2,
        (hex_char_props (n % 16) (omega arith)).2,
      )
      refl

split_colon-show_seg :
    (s : Seg) (rest : List ℕ)
    → Is16Bit s
    → split_colon (show_seg s ++ b':' ∷ rest) ≡ some (show_seg s, rest)
unfolding show_seg
split_colon-show_seg (normal n) rest h = split_colon-hex4 n rest h
split_colon-show_seg (overlay n) rest h = unfold split_colon in rw (split_colon-hex4 n rest h) refl

-- Every address with a 16-bit segment and offset, normal or overlay, is read back from its
-- printed form.
pub from_str-to_string :
    (a : SegOff) → Is16Bit a.seg → a.off < 2 ^ 16 → from_str (to_string a) ≡ ok a
unfolding from_str to_string parse_off
from_str-to_string a h k = rw (
  split_colon-show_seg a.seg (hex4 a.off) h,
  parse_seg-show_seg a.seg h,
  u16_from_hex-hex4 a.off k,
)
