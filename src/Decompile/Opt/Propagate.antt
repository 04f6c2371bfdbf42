-- ===== src/Decompile/Opt/Propagate.antt =====
-- dis86/src/decompile/opt.rs: `operand_propagate` and `value_propagation`.
use Prim.Native.Nat.{bit_and}
use dis.Prelude.{
  ℕ, zero, suc, ◌+◌, ◌^◌, Bool, true, false, not, ◌||◌, Option, none, some, List, [], ◌∷◌, ◌++◌,
  ◌==◌, if◌then◌else◌, length,
}
use dis.Result.{Result, ok, panic, and_then, out_of_fuel}
use dis.Decompile.Ir.Opcode.{Opcode}
use dis.Decompile.Ir.Def.{Ref, instr, Instr, Block, Ir, ref_eq}
use dis.Decompile.Ir.Methods.{instr_at, instr_unwrap, instr_mut, operand_at}
use dis.Decompile.Opt.{Step, for_each}

abbrev pub is_ref : Opcode → Bool
is_ref Opcode.ref = true
is_ref _ = false

-- MATERIALISE | CALL_CONTRACT
abbrev pub is_snapshot : Instr → Bool
is_snapshot x = not (bit_and x.attrs (2 ^ 3 + 2 ^ 7) == 0)

-- The set of the references that were seen, as a list.
unfoldable pub contains_ref : List Ref → Ref → Bool
contains_ref [] r = false
contains_ref (s ∷ ss) r = ref_eq s r || contains_ref ss r

-- The reference to go on with, or none to return.
abbrev pub next_ref : List Ref → Ref → Option Instr → Result (Option Ref)
next_ref seen r none = ok none
next_ref seen r (some x) =
    if not (is_ref x.opcode) || (is_snapshot x || contains_ref seen r)
    then ok none
    else and_then (operand_at x 0) λ s. ok (some s)

abbrev pub go_on : Ref → (Ref → Result Ref) → Option Ref → Result Ref
go_on r f none = ok r
go_on r f (some s) = f s

-- The loop, on fuel.
unfoldable pub propagate_from : ℕ → Ir → List Ref → Ref → Result Ref
unfolding contains_ref
propagate_from zero ir seen r = panic out_of_fuel
propagate_from (suc fuel) ir seen r =
    and_then (instr_at ir r)
      λ o. and_then (next_ref seen r o) λ n. go_on r (λ s. propagate_from fuel ir (r ∷ seen) s) n

abbrev pub refs_below : ℕ → ℕ → List Ref
refs_below b zero = []
refs_below b (suc n) = instr b n ∷ refs_below b n

abbrev pub refs_of_blocks : ℕ → List (Option Block) → List Ref
refs_of_blocks b [] = []
refs_of_blocks b (none ∷ bs) = refs_of_blocks (suc b) bs
refs_of_blocks b (some blk ∷ bs) =
    refs_below b (length blk.instr_data.instrs) ++ refs_of_blocks (suc b) bs

-- A round for each instruction, and one more.
unfoldable pub operand_propagate : Ir → Ref → Result Ref
unfolding propagate_from
operand_propagate ir r = propagate_from (suc (length (refs_of_blocks 0 ir.blocks))) ir [] r

unfoldable pub propagate_all : Ir → List Ref → Result (List Ref)
unfolding operand_propagate
propagate_all ir [] = ok []
propagate_all ir (r ∷ rs) =
    and_then (operand_propagate ir r) λ s. and_then (propagate_all ir rs) λ ss. ok (s ∷ ss)

abbrev pub with_operands : List Ref → Instr → Instr
with_operands rs x = record x { operands = rs }

unfoldable pub value_propagation_at : Step
unfolding propagate_all
value_propagation_at r ir =
    and_then (instr_unwrap ir r) λ x.
      and_then (propagate_all ir x.operands) λ operands. instr_mut ir r (with_operands operands)

unfoldable pub value_propagation : Ir → Result Ir
unfolding value_propagation_at
value_propagation ir = for_each value_propagation_at ir
