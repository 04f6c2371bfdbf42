-- ===== src/Result.antt =====
-- Results of fallible code. `err` is an `Err(String)` of the source, without the text that the
-- message formats in; `panic` is an abort: a failed assertion, `unwrap`, conversion or index.
use dis.Prelude.{◌≡◌, Option, none, some}

pub data Error : Type 0 where
  -- segoff.rs
  invalid_segoff invalid_seg invalid_off : Error
  -- region.rs
  mismatching_segments below_region beyond_region : Error
  -- asm/decode.rs
  invalid_rel_size invalid_reg_size register_for_memory : Error
  no_instr_fmt unsupported_instr lock_prefix : Error
  -- analyze/code_segment.rs
  not_mz image_too_large seginfo_too_large : Error

pub data Panic : Type 0 where
  -- `panic!`, `unwrap` and `try_into().unwrap()` in segoff.rs and region.rs
  expected_normal expected_overlay different_segments not_positive_offset : Panic
  unwrap_err out_of_u16 slice_segments slice_below slice_beyond : Panic
  -- a subtraction and `assert!` in region.rs and asm/instr.rs, an index, and the capacity of an `ArrayVec`
  subtract_overflow reset_out_of_region reg_out_of_range sreg_out_of_range index_out_of_range
        capacity_overflow :
      Panic
  -- slices and `assert!` in analyze/code_segment.rs and binfmt/mz/methods.rs
  slice_out_of_range stub_not_at_start : Panic
  -- decompile/ir
  invalid_opcode expected_instr_ref wrong_block invalid_ref unimpl_insert : Panic
  no_block removed_block no_const no_operand_at not_an_instr already_sealed : Panic
  -- `unreachable!()`
  unreachable : Panic
  -- not of the source: the model's own fuel ran out
  out_of_fuel : Panic

pub data Result {ℓ} (A : Type ℓ) : Type ℓ where
  ok : A → Result A
  err : Error → Result A
  panic : Panic → Result A

pub ok-injective {ℓ} : {A : Type ℓ} {a b : A} → ok a ≡ ok b → a ≡ b
ok-injective h = cc

-- `?`
abbrev pub and_then {ℓ κ} : {A : Type ℓ} {B : Type κ} → Result A → (A → Result B) → Result B
and_then (ok a) f = f a
and_then (err e) f = err e
and_then (panic p) f = panic p

-- `unwrap`
abbrev pub unwrap {ℓ} : {A : Type ℓ} → Result A → Result A
unwrap (ok a) = ok a
unwrap (err e) = panic unwrap_err
unwrap (panic p) = panic p

abbrev pub from_option {ℓ} : {A : Type ℓ} → Panic → Option A → Result A
from_option p none = panic p
from_option p (some a) = ok a
