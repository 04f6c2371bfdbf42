-- ===== src/Decompile/Ir/Methods.antt =====
-- dis86/src/decompile/ir/methods.rs: blocks, instructions and constants of the intermediate
-- representation. A method that takes `&mut self` returns the changed representation.
use Prim.Native.String.{String}
use dis.Prelude.{
  ℕ, zero, suc, Bool, true, false, not, Option, none, some, List, [], ◌∷◌, ◌++◌, ◌==◌,
  if◌then◌else◌, length, get_elem?, set_elem,
}
use dis.Result.{
  Result, ok, panic, and_then, from_option, no_block, removed_block, no_const, not_an_instr,
  out_of_fuel, invalid_ref, no_operand_at,
}
use dis.Decompile.Ir.Opcode.{Opcode}
use dis.Decompile.Ir.Def.{Ref, const, instr, Instr, InstrData, Block, Ir}
use dis.Decompile.Ir.BlockData.{
  Loc, at_first, at_last, before, data_new, lookup, modify, data_next, data_prev, insert,
}

abbrev pub ir_new : Ir
ir_new = record { consts = []; names = []; name_next = []; blocks = [] }

unfoldable pub add_block : Ir → String → ℕ × Ir
add_block ir name =
    let blkref = length ir.blocks in
    (
      blkref,
      record ir {
        blocks =
            ir.blocks
            ++ some (record {
              name = name;
              defs = [];
              preds = [];
              instr_data = data_new blkref;
              sealed = false;
              incomplete_phis = [];
            })
              ∷ [];
      },
    )

-- The indices of the blocks that are there, from index `i` on.
abbrev pub present : ℕ → List (Option Block) → List ℕ
present i [] = []
present i (none ∷ bs) = present (suc i) bs
present i (some b ∷ bs) = i ∷ present (suc i) bs

unfoldable pub iter_blocks : Ir → List ℕ
iter_blocks ir = present 0 ir.blocks

unfoldable pub block_at : Ir → ℕ → Result Block
block_at ir b =
    and_then (from_option no_block (get_elem? ir.blocks b)) λ o. from_option removed_block o

-- `*block_mut(b) = f(..)`
unfoldable pub block_mut : Ir → ℕ → Block → Ir
block_mut ir b blk = record ir { blocks = set_elem ir.blocks b (some blk) }

-- The loop of `iter_instrs`, on fuel.
unfoldable pub refs_from : ℕ → InstrData → Option Ref → Result (List Ref)
refs_from fuel d none = ok []
refs_from zero d (some cur) = panic out_of_fuel
refs_from (suc fuel) d (some cur) =
    and_then (data_next d cur) λ next. and_then (refs_from fuel d next) λ rest. ok (cur ∷ rest)

-- A round for each link.
unfoldable pub data_refs : InstrData → Result (List Ref)
data_refs d = refs_from (length d.links) d d.first

unfoldable pub iter_instrs : Ir → ℕ → Result (List Ref)
iter_instrs ir b = and_then (block_at ir b) λ blk. data_refs blk.instr_data

unfoldable pub block_instr_count : Ir → ℕ → Result ℕ
unfolding block_at
block_instr_count ir b = and_then (block_at ir b) λ blk. ok blk.instr_data.count

unfoldable pub block_last : Ir → ℕ → Result Ref
unfolding block_at
block_last ir b = and_then (block_at ir b) λ blk. from_option invalid_ref blk.instr_data.last

abbrev pub block_insert : Ir → ℕ → Instr → Loc → Result (Ref × Ir)
block_insert ir b x loc = and_then (block_at ir b) λ blk.
    and_then (insert blk.instr_data x loc)
      λ out. ok (out.0, block_mut ir b (record blk { instr_data = out.1 }))

unfoldable pub block_instr_append : Ir → ℕ → Instr → Result (Ref × Ir)
unfolding block_at insert block_mut
block_instr_append ir b x = block_insert ir b x at_last

unfoldable pub block_instr_prepend : Ir → ℕ → Instr → Result (Ref × Ir)
unfolding block_at insert block_mut
block_instr_prepend ir b x = block_insert ir b x at_first

unfoldable pub block_instr_insert_before : Ir → ℕ → Ref → Instr → Result (Ref × Ir)
unfolding block_at insert block_mut
block_instr_insert_before ir b r x = block_insert ir b x (before r)

-- `Ir::instr`
unfoldable pub instr_at : Ir → Ref → Result (Option Instr)
unfolding block_at
instr_at ir (instr b i) =
    and_then (block_at ir b) λ blk. and_then (lookup blk.instr_data (instr b i)) λ x. ok (some x)
instr_at ir _ = ok none

-- `instr(r).unwrap()`
unfoldable pub instr_unwrap : Ir → Ref → Result Instr
unfolding instr_at
instr_unwrap ir r = and_then (instr_at ir r) λ o. from_option not_an_instr o

-- `*instr_mut(r).unwrap() = f(..)`
unfoldable pub instr_mut : Ir → Ref → (Instr → Instr) → Result Ir
unfolding block_at block_mut
instr_mut ir (instr b i) f = and_then (block_at ir b) λ blk.
    and_then (modify blk.instr_data (instr b i) f)
      λ d. ok (block_mut ir b (record blk { instr_data = d }))
instr_mut ir _ f = panic not_an_instr

-- The operand at a place, as an index.
unfoldable pub operand_at : Instr → ℕ → Result Ref
operand_at x n = from_option no_operand_at (get_elem? x.operands n)

abbrev pub if_opcode : (Opcode → Bool) → Option Instr → Option Instr
if_opcode test none = none
if_opcode test (some x) = if test x.opcode then some x else none

-- `instr_matches` and `instr_matches_one`; the opcodes are a test.
unfoldable pub instr_matches : Ir → Ref → (Opcode → Bool) → Result (Option Instr)
unfolding instr_at
instr_matches ir r test = and_then (instr_at ir r) λ o. ok (if_opcode test o)

-- The first index from `i` on at which the value stands.
unfoldable pub find_const : ℕ → List ℕ → ℕ → Option ℕ
find_const val [] i = none
find_const val (k ∷ ks) i =
    let rest = find_const val ks (suc i) in if val == k then some i else rest

abbrev pub const_or_push : Option ℕ → Ir → ℕ → Ref × Ir
const_or_push (some i) ir val = (const i, ir)
const_or_push none ir val = (const (length ir.consts), record ir { consts = ir.consts ++ val ∷ [] })

unfoldable pub const_new : Ir → ℕ → Ref × Ir
unfolding find_const
const_new ir val = const_or_push (find_const val ir.consts 0) ir val

unfoldable pub const_lookup : Ir → Ref → Result (Option ℕ)
const_lookup ir (const i) = and_then (from_option no_const (get_elem? ir.consts i)) λ k. ok (some k)
const_lookup ir _ = ok none

abbrev pub is_nop : Opcode → Bool
is_nop Opcode.nop = true
is_nop _ = false

-- The loop of `instr_prev`, on fuel.
unfoldable pub skip_nops : ℕ → Ir → InstrData → Option Ref → Result (Option Ref)
unfolding instr_unwrap
skip_nops fuel ir d none = ok none
skip_nops zero ir d (some r) = panic out_of_fuel
skip_nops (suc fuel) ir d (some r) =
    let back = and_then (data_prev d r) λ p. skip_nops fuel ir d p in
    and_then (instr_unwrap ir r) λ x. if not (is_nop x.opcode) then ok (some r) else back

-- A round for each link, and two more.
unfoldable pub instr_prev : Ir → Ref → Result (Option Ref)
unfolding skip_nops
instr_prev ir (instr b i) = and_then (block_at ir b) λ blk.
    let d = blk.instr_data in
    and_then (data_prev d (instr b i)) λ p. skip_nops (suc (suc (length d.links))) ir d p
instr_prev ir _ = ok none

-- The loop of `instr_next`, on fuel.
unfoldable pub skip_nops_forward : ℕ → Ir → InstrData → Option Ref → Result (Option Ref)
unfolding instr_unwrap
skip_nops_forward fuel ir d none = ok none
skip_nops_forward zero ir d (some r) = panic out_of_fuel
skip_nops_forward (suc fuel) ir d (some r) =
    let onward = and_then (data_next d r) λ p. skip_nops_forward fuel ir d p in
    and_then (instr_unwrap ir r) λ x. if not (is_nop x.opcode) then ok (some r) else onward

unfoldable pub instr_next : Ir → Ref → Result (Option Ref)
unfolding skip_nops_forward
instr_next ir (instr b i) = and_then (block_at ir b) λ blk.
    let d = blk.instr_data in
    and_then (data_next d (instr b i)) λ p. skip_nops_forward (suc (suc (length d.links))) ir d p
instr_next ir _ = ok none
