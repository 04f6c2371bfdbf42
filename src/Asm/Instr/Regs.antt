-- ===== src/Asm/Instr/Regs.antt =====
-- Registers by number and by name.
use Prim.Native.String.{String}
use text.Mathlib.Text.{◌==◌ as str_eq}
use text.Mathlib.TextEquality.{eq_iff}
use mathlib.Core.Path.{subst}
use dis.Prelude.{
  ℕ, ◌<◌, ◌≡◌, ◌↔◌, refl, sym, ap, ◌∙◌, Option, none, some, List, [], ◌∷◌, Bool, true, false, ltb,
  if◌then◌else◌, get_elem?, inl, inr, Bool-cases,
}
use dis.Prelude.Words.{below_eight}
use dis.Result.{Result, ok, panic, sreg_out_of_range}
use dis.Asm.Instr.{
  Reg, Size, size8, size16, RegInfo, reg8, reg16, sreg16, reg_name, info, from_str_upper, ax, cx,
  dx, bx, sp, bp, si, di, al, cl, dl, bl, ah, ch, dh, bh, es, cs, ss, ds, ip, flags,
}

-- The names of the registers of a kind, in the order of the numbers that the machine gives them: in
-- lower case as they are printed, and in upper case as the table has them.
abbrev pub byte_names : List (String × String)
byte_names =
    ("al", "AL")
    ∷ ("cl", "CL")
    ∷ ("dl", "DL")
    ∷ ("bl", "BL")
    ∷ ("ah", "AH")
    ∷ ("ch", "CH")
    ∷ ("dh", "DH")
    ∷ ("bh", "BH")
    ∷ []

abbrev pub word_names : List (String × String)
word_names =
    ("ax", "AX")
    ∷ ("cx", "CX")
    ∷ ("dx", "DX")
    ∷ ("bx", "BX")
    ∷ ("sp", "SP")
    ∷ ("bp", "BP")
    ∷ ("si", "SI")
    ∷ ("di", "DI")
    ∷ []

abbrev pub segment_names : List (String × String)
segment_names = ("es", "ES") ∷ ("cs", "CS") ∷ ("ss", "SS") ∷ ("ds", "DS") ∷ []

-- `found` is the register of these names, of this size and kind.
pub record IsRegister (found : Result Reg) (names : Option (String × String)) (sz : Size)
    (seg : Bool) : Type 0 where
  pub named : Reg
  pub row : RegInfo
  pub found_eq : found ≡ ok named
  pub info_eq : info named ≡ ok row
  pub names_eq : names ≡ some (reg_name named, row.name)
  pub sz_eq : row.sz ≡ sz
  pub seg_eq : row.seg ≡ seg

abbrev pub SegmentField : ℕ → Type 0
SegmentField n =
    if ltb n 4
    then IsRegister (sreg16 n) (get_elem? segment_names n) size16 true
    else sreg16 n ≡ panic sreg_out_of_range

abbrev Fields : ℕ → Type 0
Fields n =
    IsRegister (reg8 n) (get_elem? byte_names n) size8 false
    × IsRegister (reg16 n) (get_elem? word_names n) size16 false
    × SegmentField n

named-IsRegister :
    {found : Result Reg} (r : Reg) (i : RegInfo)
    → found ≡ ok r
    → info r ≡ ok i
    → IsRegister found (some (reg_name r, i.name)) i.sz i.seg
named-IsRegister r i e f = record {
  named = r;
  row = i;
  found_eq = e;
  info_eq = f;
  names_eq = refl;
  sz_eq = refl;
  seg_eq = refl;
}

-- A 3-bit register field names the 8-bit register that has this number in AL, CL, DL, BL, AH, CH,
-- DH, BH, and the 16-bit register that has it in AX, CX, DX, BX, SP, BP, SI, DI, both by the name
-- that is printed and by the name in the register table. As a segment register it names the one
-- of this number in ES, CS, SS, DS, and from 4 on the assertion of `sreg16` fails.
pub reg_fields :
    (n : ℕ)
    → n < 8
    → IsRegister (reg8 n) (get_elem? byte_names n) size8 false
      × IsRegister (reg16 n) (get_elem? word_names n) size16 false
      × SegmentField n
unfolding reg8 reg16 sreg16 info reg_name
reg_fields =
    below_eight Fields
      (
        named-IsRegister al _ refl refl,
        named-IsRegister ax _ refl refl,
        named-IsRegister es _ refl refl,
      )
      (
        named-IsRegister cl _ refl refl,
        named-IsRegister cx _ refl refl,
        named-IsRegister cs _ refl refl,
      )
      (
        named-IsRegister dl _ refl refl,
        named-IsRegister dx _ refl refl,
        named-IsRegister ss _ refl refl,
      )
      (
        named-IsRegister bl _ refl refl,
        named-IsRegister bx _ refl refl,
        named-IsRegister ds _ refl refl,
      )
      (named-IsRegister ah _ refl refl, named-IsRegister sp _ refl refl, refl)
      (named-IsRegister ch _ refl refl, named-IsRegister bp _ refl refl, refl)
      (named-IsRegister dh _ refl refl, named-IsRegister si _ refl refl, refl)
      (named-IsRegister bh _ refl refl, named-IsRegister di _ refl refl, refl)

-- `r` has a row in the table, and its name there is `s`.
abbrev pub IsNamed : String → Reg → Type 0
IsNamed s r = (i : RegInfo) × (info r ≡ ok i) × (i.name ≡ s)

name_in : Result RegInfo → String
name_in (ok i) = i.name
name_in _ = ""

read_row : (r : Reg) → (i : RegInfo) × (info r ≡ ok i) × (from_str_upper i.name ≡ some r)
unfolding info from_str_upper
read_row ax = (_, refl, refl)
read_row _ = (_, refl, refl)

-- The register that an answer of `from_str_upper` to `s` names.
abbrev Answers : String → Option Reg → Type 0
Answers s none = Unit
Answers s (some r) = IsNamed s r

one_name :
    (s t : String) (r : Reg) (rest : Option Reg)
    → IsNamed t r
    → Answers s rest
    → Answers s (if str_eq s t then some r else rest)
one_name s t r rest named h = elim (Bool-cases (str_eq s t)) [
  | inl e ↦ rw e (subst (λ u. IsNamed u r) (sym ((eq_iff s t).0 e)) named)
  | inr e ↦ rw e h
]

answers : (s : String) → Answers s (from_str_upper s)
unfolding from_str_upper info
answers s =
    one_name s "AX" ax _ (_, refl, refl)
      (one_name s "CX" cx _ (_, refl, refl)
        (one_name s "DX" dx _ (_, refl, refl)
          (one_name s "BX" bx _ (_, refl, refl)
            (one_name s "SP" sp _ (_, refl, refl)
              (one_name s "BP" bp _ (_, refl, refl)
                (one_name s "SI" si _ (_, refl, refl)
                  (one_name s "DI" di _ (_, refl, refl)
                    (one_name s "AL" al _ (_, refl, refl)
                      (one_name s "CL" cl _ (_, refl, refl)
                        (one_name s "DL" dl _ (_, refl, refl)
                          (one_name s "BL" bl _ (_, refl, refl)
                            (one_name s "AH" ah _ (_, refl, refl)
                              (one_name s "CH" ch _ (_, refl, refl)
                                (one_name s "DH" dh _ (_, refl, refl)
                                  (one_name s "BH" bh _ (_, refl, refl)
                                    (one_name s "ES" es _ (_, refl, refl)
                                      (one_name s "CS" cs _ (_, refl, refl)
                                        (one_name s "SS" ss _ (_, refl, refl)
                                          (one_name s "DS" ds _ (_, refl, refl)
                                            (one_name s "IP" ip _ (_, refl, refl)
                                              (one_name s "FLAGS" flags _ (_, refl, refl)
                                                tt)))))))))))))))))))))

-- `from_str_upper` reads a text as a register if and only if the text is the name that the register
-- has in its row of the register table: every name is read, and no other text.
pub from_str_upper-info :
    (s : String) (r : Reg)
    → (from_str_upper s ≡ some r) ↔ ((i : RegInfo) × (info r ≡ ok i) × (i.name ≡ s))
unfolding name_in
from_str_upper-info s r = (
  λ h. subst (Answers s) h (answers s),
  λ named.
      let row = read_row r in
      let same : row.0.name ≡ s = ap name_in (sym row.1 ∙ named.1) ∙ named.2 in
      subst (λ t. from_str_upper t ≡ some r) same row.2,
)
