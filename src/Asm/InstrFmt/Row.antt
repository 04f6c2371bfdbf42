-- ===== src/Asm/InstrFmt/Row.antt =====
-- One row of the instruction table.
use dis.Prelude.{ℕ, Option, [], ◌∷◌}
use dis.Asm.InstrFmt.Types.{InstrFmt, Opcode, Oper}

abbrev pub row : Opcode → ℕ → Option ℕ → Oper → Oper → Oper → ℕ → InstrFmt
row op op1 op2 a b c hidden = record {
  op = op;
  op1 = op1;
  op2 = op2;
  oper = a ∷ b ∷ c ∷ [];
  hidden = hidden;
}
