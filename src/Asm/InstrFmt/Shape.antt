-- ===== src/Asm/InstrFmt/Shape.antt =====
-- The shape of the rows of the instruction table, found by running over it.
use dis.Prelude.{
  ℕ, zero, suc, ◌<◌, ◌≡◌, refl, Bool, true, false, ◌&&◌, ◌||◌, Option, none, some, arith, leb, ◌==◌,
  ==_iff, if◌then◌else◌, length, all,
}
use dis.Asm.InstrFmt.Types.{InstrFmt, requires_modrm}
use dis.Asm.InstrFmt.Table.{instr_tbl}
use dis.Asm.InstrFmt.Lookup.{
  LookupResult, fmt_ok, fmt_err, not_found, need_opcode2, need_opcode2_ext0f, lookup,
}
use dis.Asm.InstrFmt.Checks.{all-InTable, lookup-IsFound}

-- A Boolean test that every number under a bound passes.
module _ (test : ℕ → Bool) where
  passes_under : ℕ → Bool
  passes_under zero = true
  passes_under (suc last) = if test last then passes_under last else false

  passes_under_lem : (x bound : ℕ) → x < bound → passes_under bound ≡ true → test x ≡ true
  unfolding passes_under
  passes_under_lem x zero small passed = absurd (omega arith)
  passes_under_lem x (suc last) small passed = ground (arith, passes_under_lem x last)

three_opers : InstrFmt → Bool
three_opers f = length f.oper == 3

three_opers_table : all three_opers instr_tbl ≡ true
unfolding three_opers instr_tbl
three_opers_table = refl

pub length-oper :
    (op1 : ℕ) (op2 : Option ℕ) (f : InstrFmt) → lookup op1 op2 ≡ fmt_ok f → length f.oper ≡ 3
unfolding three_opers
length-oper op1 op2 f h =
    (==_iff (length f.oper) 3).0
      (all-InTable three_opers instr_tbl f three_opers_table (lookup-IsFound op1 op2 f h).in_table)

second_has_modrm : InstrFmt → Bool
second_has_modrm f = elim f.op2 [ none ↦ true | some _ ↦ requires_modrm f ]

second_has_modrm_table : all second_has_modrm instr_tbl ≡ true
unfolding second_has_modrm instr_tbl requires_modrm
second_has_modrm_table = refl

-- A row that the search finds under a second opcode byte has an operand that needs a ModRM byte.
pub requires_modrm-lookup :
    (op1 b : ℕ) (f : InstrFmt) → lookup op1 (some b) ≡ fmt_ok f → requires_modrm f ≡ true
unfolding second_has_modrm
requires_modrm-lookup op1 b f h =
    let found = lookup-IsFound op1 (some b) f h in
    let test = all-InTable second_has_modrm instr_tbl f second_has_modrm_table found.in_table in
    rw (found.op2_eq, second_has_modrm) at test

-- How the first search answers.
pub data Answer : Type 0 where
  row group extended unknown : Answer

pub answer : LookupResult → Answer
answer (fmt_ok f) = row
answer (fmt_err need_opcode2) = group
answer (fmt_err need_opcode2_ext0f) = extended
answer (fmt_err not_found) = unknown

-- The opcode groups of the 8086 and 80186 that keep part of the opcode in the ModRM byte.
pub is_group : ℕ → Bool
is_group b =
    (leb 0x80 b && leb b 0x83)
    || (b == 0xc0)
    || (b == 0xc1)
    || (b == 0xc6)
    || (b == 0xc7)
    || (leb 0xd0 b && leb b 0xd3)
    || (b == 0xf6)
    || (b == 0xf7)
    || (b == 0xfe)
    || (b == 0xff)

answer_eq : Answer → Answer → Bool
answer_eq row row = true
answer_eq group group = true
answer_eq extended extended = true
answer_eq _ _ = false

answer_eq_sound : (a b : Answer) → answer_eq a b ≡ true → a ≡ b
unfolding answer_eq
answer_eq_sound row row h = refl
answer_eq_sound group group h = refl
answer_eq_sound extended extended h = refl
answer_eq_sound _ _ h = cc

expected : ℕ → Answer
expected b = if b == 0x0f then extended else if is_group b then group else row

answers_table : passes_under (λ b. answer_eq (answer (lookup b none)) (expected b)) 256 ≡ true
unfolding passes_under answer_eq answer expected is_group lookup instr_tbl
answers_table = refl

-- For every first opcode byte the search without a second byte finds a row, except that it asks
-- for the ModRM byte at the opcode groups, and for the next byte at 0x0f. It never misses.
pub lookup_first :
    (b : ℕ)
    → b < 256
    → answer (lookup b none) ≡ (if b == 0x0f then extended else if is_group b then group else row)
unfolding expected
lookup_first b h = answer_eq_sound _ _ (passes_under_lem _ b 256 h answers_table)
