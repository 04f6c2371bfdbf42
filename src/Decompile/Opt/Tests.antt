-- ===== src/Decompile/Opt/Tests.antt =====
-- The passes of dis86/src/decompile/opt.rs on a block.
use dis.Prelude.{◌≡◌, refl, List, [], ◌∷◌}
use dis.Asm.Instr.{discriminant}
use dis.Result.{Result, ok, and_then}
use dis.Decompile.Ir.Opcode.{Opcode}
use dis.Decompile.Ir.Def.{Ref, const, instr, Ir, ref_eq, reg_eq}
use dis.Decompile.Ir.BlockData.{index_of, lookup, modify, lookup_link, data_next}
use dis.Decompile.Ir.Methods.{
  instr_unwrap, iter_blocks, iter_instrs, block_at, data_refs, refs_from, instr_at, instr_mut,
  block_mut, operand_at, const_new, find_const, const_lookup, instr_matches,
}
use dis.Decompile.Ir.Rewrite.{Kept}
use dis.Decompile.Opt.{reduce_xor, reduce_trivial_or, for_each, reduce_xor_at}
use dis.Decompile.Opt.Fold.{constant_folding, constant_folding_at, folded}
use dis.Decompile.Opt.Wide.{
  reduce_words, reduce_make_32_signext_32, reduce_equal_zero_32, reduce_equal_zero_32_at,
  reduce_make_32_signext_32_at,
}
use dis.Decompile.Opt.Passes.{reduce_trivial_or_lem}
use dis.Decompile.Opt.Words.{reduce_words_lem}
use dis.Decompile.Opt.Propagate.{
  contains_ref, propagate_from, operand_propagate, propagate_all, value_propagation_at,
  value_propagation,
}
use dis.Decompile.Opt.Propagation.{value_propagation_lem}
use dis.Decompile.Opt.Constants.{constant_folding_lem}
use dis.Decompile.Opt.Snapshots.{IsEnd, operand_propagate-IsEnd}
use dis.Types.{DataType}
use dis.Decompile.Opt.Sample.{op, sample, sample-IsWellFormed}

reduce_trivial_or_lem_example : (ir' : Ir) × (reduce_trivial_or sample ≡ ok ir') × Kept sample ir'
reduce_trivial_or_lem_example = reduce_trivial_or_lem sample sample-IsWellFormed

constant_folding_lem_example : (ir' : Ir) × (constant_folding sample ≡ ok ir') × Kept sample ir'
constant_folding_lem_example = constant_folding_lem sample sample-IsWellFormed

reduce_words_lem_example : (ir' : Ir) × (reduce_words sample ≡ ok ir') × Kept sample ir'
reduce_words_lem_example = reduce_words_lem sample sample-IsWellFormed

value_propagation_lem_example : (ir' : Ir) × (value_propagation sample ≡ ok ir') × Kept sample ir'
value_propagation_lem_example = value_propagation_lem sample sample-IsWellFormed

operand_propagate-IsEnd_example :
    (r' : Ref) × (operand_propagate sample (instr 0 10) ≡ ok r') × IsEnd sample (instr 0 10) r'
operand_propagate-IsEnd_example =
    operand_propagate-IsEnd sample 0 12 0
      (op Opcode.add DataType.u16 (instr 0 10 ∷ instr 0 10 ∷ [])) (instr 0 10) sample-IsWellFormed
      refl refl

-- The opcodes and first operands after a pass.
abbrev opcodes : Result Ir → List Ref → Result (List (Opcode × List Ref))
opcodes res [] = ok []
opcodes res (r ∷ rs) = and_then res λ ir.
    and_then (instr_unwrap ir r)
      λ x. and_then (opcodes res rs) λ rest. ok ((x.opcode, x.operands) ∷ rest)

reduced_xor : opcodes (reduce_xor sample) (instr 0 0 ∷ []) ≡ ok ((Opcode.ref, const 2 ∷ []) ∷ [])
unfolding for_each iter_blocks iter_instrs block_at data_refs refs_from data_next lookup_link
    index_of lookup modify instr_at instr_unwrap instr_mut block_mut operand_at const_new find_const
    ref_eq reduce_xor reduce_xor_at reg_eq discriminant
reduced_xor = refl

folded_sub :
    opcodes (constant_folding sample) (instr 0 2 ∷ []) ≡ ok ((Opcode.ref, const 3 ∷ []) ∷ [])
unfolding for_each iter_blocks iter_instrs block_at data_refs refs_from data_next lookup_link
    index_of lookup modify instr_at instr_unwrap instr_mut block_mut operand_at const_new find_const
    constant_folding constant_folding_at folded const_lookup
folded_sub = refl

reduced_make32 :
    opcodes (reduce_make_32_signext_32 sample) (instr 0 5 ∷ [])
    ≡ ok ((Opcode.ref, instr 0 3 ∷ []) ∷ [])
unfolding for_each iter_blocks iter_instrs block_at data_refs refs_from data_next lookup_link
    index_of lookup modify instr_at instr_unwrap instr_mut block_mut operand_at ref_eq
    reduce_make_32_signext_32 reduce_make_32_signext_32_at instr_matches
reduced_make32 = refl

compared_wide :
    opcodes (reduce_equal_zero_32 sample) (instr 0 9 ∷ [])
    ≡ ok ((Opcode.eq, instr 0 3 ∷ const 2 ∷ []) ∷ [])
unfolding for_each iter_blocks iter_instrs block_at data_refs refs_from data_next lookup_link
    index_of lookup modify instr_at instr_unwrap instr_mut block_mut operand_at ref_eq
    reduce_equal_zero_32 reduce_equal_zero_32_at const_lookup instr_matches
compared_wide = refl

propagated :
    opcodes (value_propagation sample) (instr 0 12 ∷ [])
    ≡ ok ((Opcode.add, instr 0 10 ∷ instr 0 10 ∷ []) ∷ [])
unfolding for_each iter_blocks iter_instrs block_at data_refs refs_from data_next lookup_link
    index_of lookup modify instr_at instr_unwrap instr_mut block_mut operand_at ref_eq
    propagate_from propagate_all operand_propagate value_propagation value_propagation_at
    contains_ref const_lookup instr_matches
propagated = refl
