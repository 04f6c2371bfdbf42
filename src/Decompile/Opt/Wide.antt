-- ===== src/Decompile/Opt/Wide.antt =====
-- The passes of dis86/src/decompile/opt.rs on the halves of 32-bit values.
use dis.Prelude.{Bool, true, false, not, ◌||◌, Option, none, some, ◌==◌, if◌then◌else◌, set_elem}
use dis.Result.{Result, ok, err, panic, and_then}
use dis.Types.{DataType}
use dis.Decompile.Ir.Opcode.{Opcode}
use dis.Decompile.Ir.Def.{Ref, Instr, Ir, ref_eq}
use dis.Decompile.Ir.Methods.{instr_unwrap, instr_mut, instr_matches, operand_at, const_lookup}
use dis.Decompile.Opt.{Step, for_each, make_ref, reduce_xor, is_or}

abbrev pub is_make32 : Opcode → Bool
is_make32 Opcode.make32 = true
is_make32 _ = false

abbrev pub is_upper16 : Opcode → Bool
is_upper16 Opcode.upper16 = true
is_upper16 _ = false

abbrev pub is_lower16 : Opcode → Bool
is_lower16 Opcode.lower16 = true
is_lower16 _ = false

abbrev pub is_signext32 : Opcode → Bool
is_signext32 Opcode.sign_ext_to32 = true
is_signext32 _ = false

abbrev pub is_eq_or_neq : Opcode → Bool
is_eq_or_neq Opcode.eq = true
is_eq_or_neq Opcode.neq = true
is_eq_or_neq _ = false

-- `let Some(..) = .. else { continue }`
abbrev pub or_continue : {A : Type 0} → Ir → Result (Option A) → (A → Result Ir) → Result Ir
or_continue ir (ok (some a)) f = f a
or_continue ir (ok none) f = ok ir
or_continue ir (err e) f = err e
or_continue ir (panic p) f = panic p

unfoldable pub reduce_make_32_signext_32_at : Step
reduce_make_32_signext_32_at r ir = and_then (instr_unwrap ir r) λ make32.
    if not (is_make32 make32.opcode)
    then ok ir
    else and_then (operand_at make32 0) λ upper16_ref.
      or_continue ir (instr_matches ir upper16_ref is_upper16) λ upper16.
        and_then (operand_at upper16 0) λ signext32_ref.
          or_continue ir (instr_matches ir signext32_ref is_signext32) λ signext32.
            and_then (operand_at make32 1) λ low.
              and_then (operand_at signext32 0)
                λ src. if ref_eq low src then instr_mut ir r (make_ref signext32_ref) else ok ir

unfoldable pub reduce_make_32_signext_32 : Ir → Result Ir
unfolding reduce_make_32_signext_32_at
reduce_make_32_signext_32 ir = for_each reduce_make_32_signext_32_at ir

unfoldable pub reduce_upper_lower_make32_at : Step
reduce_upper_lower_make32_at r ir = or_continue ir (instr_matches ir r is_make32) λ make32.
    and_then (operand_at make32 0) λ upper_ref.
      or_continue ir (instr_matches ir upper_ref is_upper16) λ upper.
        and_then (operand_at make32 1) λ lower_ref.
          or_continue ir (instr_matches ir lower_ref is_lower16) λ lower.
            and_then (operand_at upper 0) λ src.
              and_then (operand_at lower 0)
                λ src'. if ref_eq src src' then instr_mut ir r (make_ref src) else ok ir

unfoldable pub reduce_upper_lower_make32 : Ir → Result Ir
unfolding reduce_upper_lower_make32_at
reduce_upper_lower_make32 ir = for_each reduce_upper_lower_make32_at ir

abbrev pub is_there : Option Instr → Bool
is_there none = false
is_there (some x) = true

-- `instr_matches(..).is_some()`
abbrev pub matches : Ir → Ref → (Opcode → Bool) → Result Bool
matches ir r test = and_then (instr_matches ir r test) λ o. ok (is_there o)

-- `instr(r).unwrap().operands[0]`
abbrev pub first_operand : Ir → Ref → Result Ref
first_operand ir r = and_then (instr_unwrap ir r) λ x. operand_at x 0

abbrev pub compare_wide : Ref → Instr → Instr
compare_wide src x = record x { typ = DataType.u32; operands = set_elem x.operands 0 src }

abbrev pub halves_of : Ir → Ref → Instr → Result Ir
halves_of ir r or_instr = and_then (operand_at or_instr 0) λ a.
    and_then (operand_at or_instr 1) λ b. and_then (matches ir a is_upper16) λ upper_a.
      and_then (matches ir a is_lower16) λ lower_a. and_then (matches ir b is_upper16) λ upper_b.
        and_then (matches ir b is_lower16) λ lower_b.
          if not (upper_a || upper_b) || not (lower_a || lower_b)
          then ok ir
          else and_then (first_operand ir a) λ src.
            and_then (first_operand ir b)
              λ src'. if ref_eq src src' then instr_mut ir r (compare_wide src) else ok ir

unfoldable pub reduce_equal_zero_32_at : Step
reduce_equal_zero_32_at r ir = or_continue ir (instr_matches ir r is_eq_or_neq) λ eq_instr.
    and_then (operand_at eq_instr 1) λ k_ref. or_continue ir (const_lookup ir k_ref) λ k.
      if not (k == 0)
      then ok ir
      else and_then (operand_at eq_instr 0) λ or_ref'.
        or_continue ir (instr_matches ir or_ref' is_or) λ or_instr. halves_of ir r or_instr

unfoldable pub reduce_equal_zero_32 : Ir → Result Ir
unfolding reduce_equal_zero_32_at
reduce_equal_zero_32 ir = for_each reduce_equal_zero_32_at ir

-- The first four passes of a round of `optimize`.
unfoldable pub reduce_words : Ir → Result Ir
unfolding reduce_xor reduce_make_32_signext_32 reduce_upper_lower_make32 reduce_equal_zero_32
reduce_words ir = and_then (reduce_xor ir) λ ir1.
    and_then (reduce_make_32_signext_32 ir1)
      λ ir2. and_then (reduce_upper_lower_make32 ir2) λ ir3. reduce_equal_zero_32 ir3
