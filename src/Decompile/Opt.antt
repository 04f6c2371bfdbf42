-- ===== src/Decompile/Opt.antt =====
-- dis86/src/decompile/opt.rs: the passes that rewrite one instruction at a time.
pub mod Fold
pub mod Wide
pub mod Walk
pub mod Replace
pub mod Passes
pub mod Folding
pub mod Constants
pub mod Halves
pub mod Make32
pub mod EqualZero
pub mod Words
pub mod Propagate
pub mod Pigeonhole
pub mod Propagated
pub mod Propagation
pub mod Snapshots
pub mod Sample
mod Tests
use dis.Prelude.{
  ℕ, suc, ◌+◌, ◌-◌, ◌%◌, ◌^◌, Bool, true, false, not, ◌&&◌, ◌||◌, Option, none, some, List, [], ◌∷◌,
  ◌==◌, ltb, leb, if◌then◌else◌, length, set_elem,
}
use Prim.Native.Nat.{bit_and, bit_or, bit_xor}
use dis.Prelude.Words.{u16, sext, wrapping_add}
use dis.Result.{Result, ok, err, panic, and_then}
use dis.Types.{DataType}
use dis.Decompile.Ir.Opcode.{Opcode}
use dis.Decompile.Ir.Def.{Ref, Instr, Ir, CompareWidth, byte, word, ref_eq}
use dis.Decompile.Ir.Methods.{
  iter_blocks, iter_instrs, instr_at, instr_unwrap, instr_mut, instr_matches, operand_at, const_new,
  const_lookup,
}

abbrev pub Step : Type 0
Step = Ref → Ir → Result Ir

-- `for b in ir.iter_blocks() { for r in ir.iter_instrs(b) { .. } }`: the references of a block are
-- read when its turn comes.
abbrev pub over_refs : Step → List Ref → Ir → Result Ir
over_refs step [] ir = ok ir
over_refs step (r ∷ rs) ir = and_then (step r ir) λ ir'. over_refs step rs ir'

abbrev pub over_blocks : Step → List ℕ → Ir → Result Ir
over_blocks step [] ir = ok ir
over_blocks step (b ∷ bs) ir =
    and_then (iter_instrs ir b) λ rs. and_then (over_refs step rs ir) λ ir'. over_blocks step bs ir'

unfoldable pub for_each : Step → Ir → Result Ir
for_each step ir = over_blocks step (iter_blocks ir) ir

-- `instr.opcode = Opcode::Ref; instr.operands = vec![k];`
abbrev pub make_ref : Ref → Instr → Instr
make_ref k x = record x { opcode = Opcode.ref; operands = k ∷ [] }

-- The same with a new constant.
abbrev pub make_const : Ref → Ir → ℕ → Result Ir
make_const r ir k = let new = const_new ir k in instr_mut new.1 r (make_ref new.0)

abbrev pub is_xor : Opcode → Bool
is_xor Opcode.xor = true
is_xor _ = false

-- Both operands, where they are the same.
abbrev pub same_operands : Instr → Result Bool
same_operands x = and_then (operand_at x 0) λ a. and_then (operand_at x 1) λ b. ok (ref_eq a b)

unfoldable pub reduce_xor_at : Step
reduce_xor_at r ir = and_then (instr_unwrap ir r) λ x.
    if not (is_xor x.opcode)
    then ok ir
    else and_then (same_operands x) λ same. if same then make_const r ir 0 else ok ir

unfoldable pub reduce_xor : Ir → Result Ir
unfolding reduce_xor_at
reduce_xor ir = for_each reduce_xor_at ir

abbrev pub is_or : Opcode → Bool
is_or Opcode.or = true
is_or _ = false

unfoldable pub reduce_trivial_or_at : Step
reduce_trivial_or_at r ir = and_then (instr_unwrap ir r) λ x.
    if not (is_or x.opcode)
    then ok ir
    else and_then (same_operands x)
        λ same. if same then and_then (operand_at x 0) (λ a. instr_mut ir r (make_ref a)) else ok ir

unfoldable pub reduce_trivial_or : Ir → Result Ir
unfolding reduce_trivial_or_at
reduce_trivial_or ir = for_each reduce_trivial_or_at ir
