-- ===== src/Asm/IntelSyntax/Laws.antt =====
-- The list of operands in the text of an instruction of dis86/src/asm/intel_syntax.rs.
use dis.Prelude.{
  ℕ, ◌≡◌, refl, inl, inr, true, false, List, [], ◌∷◌, ◌++◌, Bool-cases, suc, if◌then◌else◌,
}
use mathlib.Core.List.{map}
use dis.SegOff.Text.{bytes}
use dis.Asm.Instr.{Instr, Operand}
use dis.Asm.IntelSyntax.{hidden_bit, format_operand, format_operands}

-- An independent account of the list of operands: those whose bit of the mask is clear, and the
-- texts between two spaces and commas.
abbrev pub visible : ℕ → ℕ → List Operand → List Operand
visible mask i [] = []
visible mask i (o ∷ os) =
    if hidden_bit i mask then visible mask (suc i) os else o ∷ visible mask (suc i) os

abbrev pub with_commas : List (List ℕ) → List ℕ
with_commas [] = []
with_commas (x ∷ xs) = b',' ∷ x ++ with_commas xs

abbrev pub listing : List (List ℕ) → List ℕ
listing [] = []
listing (x ∷ xs) = bytes "  " ++ x ++ with_commas xs

module _ (ins : Instr) where
  rest_lem :
      (i : ℕ) (os : List Operand)
      → format_operands ins i false os
        ≡ with_commas (map (format_operand ins) (visible ins.intel_hidden_operand_bitmask i os))
  unfolding format_operands
  rest_lem i [] = refl
  rest_lem i (o ∷ os) = elim (Bool-cases (hidden_bit i ins.intel_hidden_operand_bitmask)) [
    | inl hidden ↦ rw hidden (rest_lem (suc i) os)
    | inr shown ↦ rw (shown, rest_lem (suc i) os) refl
  ]

  first_lem :
      (i : ℕ) (os : List Operand)
      → format_operands ins i true os
        ≡ listing (map (format_operand ins) (visible ins.intel_hidden_operand_bitmask i os))
  unfolding format_operands
  first_lem i [] = refl
  first_lem i (o ∷ os) = elim (Bool-cases (hidden_bit i ins.intel_hidden_operand_bitmask)) [
    | inl hidden ↦ rw hidden (first_lem (suc i) os)
    | inr shown ↦ rw (shown, rest_lem (suc i) os) refl
  ]

-- The operands of an instruction are printed as the texts of those whose bit in the hidden mask is
-- clear, in order: two spaces before the first, commas between.
pub format_operands_lem :
    (ins : Instr)
    → format_operands ins 0 true ins.operands
      ≡ listing (map (format_operand ins) (visible ins.intel_hidden_operand_bitmask 0 ins.operands))
format_operands_lem ins = first_lem ins 0 ins.operands
