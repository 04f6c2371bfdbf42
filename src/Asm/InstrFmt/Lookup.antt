-- ===== src/Asm/InstrFmt/Lookup.antt =====
-- The search of the instruction table.
use dis.Prelude.{ℕ, Bool, true, false, ◌&&◌, Option, none, some, List, [], ◌∷◌, ◌==◌, if◌then◌else◌}
use dis.Asm.InstrFmt.Types.{InstrFmt}
use dis.Asm.InstrFmt.Table.{instr_tbl}

pub data LookupError : Type 0 where
  not_found need_opcode2 need_opcode2_ext0f : LookupError

pub data LookupResult : Type 0 where
  fmt_ok : InstrFmt → LookupResult
  fmt_err : LookupError → LookupResult

abbrev pub opt_eq : Option ℕ → Option ℕ → Bool
opt_eq none none = true
opt_eq none (some b) = false
opt_eq (some a) none = false
opt_eq (some a) (some b) = a == b

-- Behind the loop.
unfoldable pub missing : Bool → ℕ → Option ℕ → LookupResult
missing op1_found op1 op2 =
    if op1_found && opt_eq op2 none
    then (if op1 == 0x0f then fmt_err need_opcode2_ext0f else fmt_err need_opcode2)
    else fmt_err not_found

unfoldable pub lookup_from : Bool → List InstrFmt → ℕ → Option ℕ → LookupResult
lookup_from op1_found [] op1 op2 = missing op1_found op1 op2
lookup_from op1_found (fmt ∷ fmts) op1 op2 = elim (op1 == fmt.op1) [
  | false ↦ lookup_from op1_found fmts op1 op2
  | true ↦ elim (opt_eq op2 fmt.op2) [ true ↦ fmt_ok fmt | false ↦ lookup_from true fmts op1 op2 ]
]

unfoldable pub lookup : ℕ → Option ℕ → LookupResult
unfolding lookup_from missing
lookup opcode1 opcode2 = lookup_from false instr_tbl opcode1 opcode2
