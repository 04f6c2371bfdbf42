-- ===== src/Decompile/Opt/Fold.antt =====
-- `constant_folding` of dis86/src/decompile/opt.rs.
use dis.Prelude.{
  ℕ, ◌+◌, ◌-◌, ◌%◌, ◌^◌, Bool, true, false, not, Option, none, some, ◌==◌, ltb, leb, if◌then◌else◌,
  length,
}
use Prim.Native.Nat.{bit_and, bit_or, bit_xor}
use dis.Prelude.Words.{u16, sext, wrapping_add}
use dis.Result.{Result, ok, and_then}
use dis.Types.{DataType}
use dis.Decompile.Ir.Opcode.{Opcode}
use dis.Decompile.Ir.Def.{Ref, Instr, Ir, CompareWidth, byte, word}
use dis.Decompile.Ir.Methods.{instr_unwrap, operand_at, const_lookup}
use dis.Decompile.Opt.{Step, for_each, make_const}

-- `<` of two i16
abbrev pub i16_lt : ℕ → ℕ → Bool
i16_lt a b = ltb ((a + 2 ^ 15) % 2 ^ 16) ((b + 2 ^ 15) % 2 ^ 16)

abbrev pub truth : Bool → ℕ
truth b = if b then 1 else 0

abbrev pub is_word_type : DataType → Bool
is_word_type DataType.u16 = true
is_word_type DataType.i16 = true
is_word_type _ = false

abbrev pub is_bool_type : DataType → Bool
is_bool_type DataType.u8 = true
is_bool_type DataType.u16 = true
is_bool_type _ = false

-- `lhs as u8 as i8 as i16` for bytes
abbrev pub signed_values : Option CompareWidth → ℕ → ℕ → Option (ℕ × ℕ)
signed_values (some byte) lhs rhs = some (sext (lhs % 2 ^ 8), sext (rhs % 2 ^ 8))
signed_values (some word) lhs rhs = some (lhs, rhs)
signed_values none lhs rhs = none

abbrev pub signed_test : (ℕ → ℕ → Bool) → Option (ℕ × ℕ) → Option ℕ
signed_test test none = none
signed_test test (some (lhs, rhs)) = some (truth (test lhs rhs))

abbrev pub when : Bool → ℕ → Option ℕ
when b k = if b then some k else none

abbrev pub when_bool : DataType → Option ℕ → Option ℕ
when_bool typ k = if is_bool_type typ then k else none

-- The folded value; `none` is a `continue`.
unfoldable pub folded : Opcode → DataType → Option CompareWidth → ℕ → ℕ → Option ℕ
folded Opcode.add typ w lhs rhs = when (is_word_type typ) (wrapping_add lhs rhs)
folded Opcode.sub typ w lhs rhs = when (is_word_type typ) (u16 (lhs + 2 ^ 16 - rhs))
folded Opcode.and typ w lhs rhs = when (is_word_type typ) (bit_and lhs rhs)
folded Opcode.or typ w lhs rhs = when (is_word_type typ) (bit_or lhs rhs)
folded Opcode.xor typ w lhs rhs = when (is_word_type typ) (bit_xor lhs rhs)
folded Opcode.eq typ w lhs rhs = when_bool typ (some (truth (lhs == rhs)))
folded Opcode.neq typ w lhs rhs = when_bool typ (some (truth (not (lhs == rhs))))
folded Opcode.lt typ w lhs rhs = when_bool typ (signed_test i16_lt (signed_values w lhs rhs))
folded Opcode.leq typ w lhs rhs =
    when_bool typ (signed_test (λ a b. not (i16_lt b a)) (signed_values w lhs rhs))
folded Opcode.gt typ w lhs rhs =
    when_bool typ (signed_test (λ a b. i16_lt b a) (signed_values w lhs rhs))
folded Opcode.geq typ w lhs rhs =
    when_bool typ (signed_test (λ a b. not (i16_lt a b)) (signed_values w lhs rhs))
folded Opcode.ult typ w lhs rhs = when_bool typ (some (truth (ltb lhs rhs)))
folded Opcode.uleq typ w lhs rhs = when_bool typ (some (truth (leb lhs rhs)))
folded Opcode.ugt typ w lhs rhs = when_bool typ (some (truth (ltb rhs lhs)))
folded Opcode.ugeq typ w lhs rhs = when_bool typ (some (truth (leb rhs lhs)))
folded _ typ w lhs rhs = none

abbrev pub const_or_continue : Ref → Ir → Option ℕ → Result Ir
const_or_continue r ir none = ok ir
const_or_continue r ir (some k) = make_const r ir k

abbrev pub fold_with : Ref → Ir → Instr → Option ℕ → Option ℕ → Result Ir
fold_with r ir x (some lhs) (some rhs) =
    const_or_continue r ir (folded x.opcode x.typ x.compare_width lhs rhs)
fold_with r ir x none rhs = ok ir
fold_with r ir x (some lhs) none = ok ir

unfoldable pub constant_folding_at : Step
unfolding folded
constant_folding_at r ir = and_then (instr_unwrap ir r) λ x.
    if not (length x.operands == 2)
    then ok ir
    else and_then (operand_at x 0) λ a. and_then (const_lookup ir a) λ lhs.
      and_then (operand_at x 1) λ b. and_then (const_lookup ir b) λ rhs. fold_with r ir x lhs rhs

unfoldable pub constant_folding : Ir → Result Ir
unfolding constant_folding_at
constant_folding ir = for_each constant_folding_at ir
