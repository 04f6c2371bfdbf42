-- ===== src/Asm/Decode/Tests.antt =====
-- The theorems on the decoder of dis86/src/asm at concrete bytes, and runs from its table of tests.
use dis.Prelude.{ℕ, ◌≡◌, refl, List, [], ◌∷◌, some, none, true, arith, get_elem?}
use dis.Result.{Result, ok, err, panic, sreg_out_of_range, lock_prefix, reset_out_of_region}
use dis.SegOff.{normal, new, add_offset, offset_to}
use dis.Region.{
  RegionIter, ◌>>=◌, fetch, fetch_u16, fetch_sext, peek_checked, addr, end_addr, get_checked, slice,
  advance, advance_by, reset_addr,
}
use dis.Region.Keeps.{IsInside}
use dis.Asm.InstrFmt.{op_mov, op_jne, requires_modrm}
use dis.Asm.InstrFmt.Table.{instr_tbl}
use dis.Asm.InstrFmt.Lookup.{lookup}
use dis.Asm.Instr.{
  Instr, Rep, reg, mem, rel, size16, di, es, reg16, reg8, push, rel_addr, instr_end_addr,
}
use dis.Asm.Branch.{BranchShape, branch_shape, branch_target, relative}
use dis.SegOff.Text.{bytes}
use dis.Asm.InstrFmt.Names.{opcode_name}
use dis.Asm.Branch.Shapes.{
  AgreesOnFallthrough, has_shape, names_branch, branch_shape-has_fallthrough,
  branch_target-decode_one,
}
use dis.Asm.Operands.{
  decode_operands, operand_of, operand_rm, operand_moff, operand_reg, operand_rel, rm_register,
  rm_indirect, displacement,
}
use dis.Asm.Decode.{
  Decoded, decode_one, decode_one_impl, decode_at, decode_body, finish, prefixes, read_prefixes,
  prefix_byte, second_lookup, unpack, check_format, read_modrm,
}
use dis.Asm.Decode.Decoded.{Outcome, decode_one-Outcome}
use dis.Asm.Decode.PrefixBytes.{prefix_bytes, has_lock, last_rep}
use dis.Asm.Decode.Sound.{IsFromTable, decode_one-IsFromTable}
use dis.Asm.Decoder.{Run, done, call, try_next}
use dis.Asm.Decoder.Runs.{
  IsDisassembly, IsFinished, all_bytes, Run-IsDisassembly, Run-IsFinished, Run-all_bytes,
}
use dis.Asm.Decode.Bugs.{decode_one_panics}

abbrev region_at : ℕ → List ℕ → RegionIter
region_at off bytes = record { mem = bytes; base_seg = normal 0; base_off = off; off = 0 }

-- Opening this opens the decoder and what it calls.
opened : RegionIter → Result Decoded × RegionIter
unfolding decode_one decode_one_impl decode_at decode_body finish prefixes read_prefixes prefix_byte
    second_lookup unpack check_format read_modrm decode_operands operand_of operand_rm operand_moff
    operand_reg operand_rel rm_register rm_indirect displacement ◌>>=◌ fetch fetch_u16 fetch_sext
    peek_checked addr end_addr get_checked slice advance advance_by reset_addr requires_modrm
    instr_tbl lookup reg16 reg8 push add_offset offset_to
opened it = decode_one it

-- 26 8b 3e 2e 44: mov di,WORD PTR es:0x442e
abbrev mov_es_bytes : List ℕ
mov_es_bytes = 0x26 ∷ 0x8b ∷ 0x3e ∷ 0x2e ∷ 0x44 ∷ []

abbrev mov_es : Instr
mov_es = record {
  rep = none;
  opcode = op_mov;
  operands =
      reg di
      ∷ mem (record { sz = size16; sreg = es; reg1 = none; reg2 = none; off = some 0x442e })
      ∷ [];
  addr = new 0 0x5f;
  n_bytes = 5;
  intel_hidden_operand_bitmask = 0;
}

mov_es_decoded :
    decode_one (region_at 0x5f mov_es_bytes)
    ≡ (ok (some (mov_es, mov_es_bytes)), record (region_at 0x5f mov_es_bytes) { off = 5 })
unfolding opened
mov_es_decoded = refl

-- 75 f6: jne 0x34
abbrev jne_bytes : List ℕ
jne_bytes = 0x75 ∷ 0xf6 ∷ []

abbrev jne_back : Instr
jne_back = record {
  rep = none;
  opcode = op_jne;
  operands = rel 0xfff6 ∷ [];
  addr = new 0 0x3c;
  n_bytes = 2;
  intel_hidden_operand_bitmask = 0;
}

jne_decoded :
    decode_one (region_at 0x3c jne_bytes)
    ≡ (ok (some (jne_back, jne_bytes)), record (region_at 0x3c jne_bytes) { off = 2 })
unfolding opened
jne_decoded = refl

jne_target : branch_target jne_back ≡ some (relative (new 0 0x34) (some (new 0 0x3e)))
unfolding branch_target rel_addr instr_end_addr add_offset
jne_target = refl

-- LOCK before another operation than a string operation is refused, and nothing is consumed.
lock_refused :
    decode_one (region_at 0 (0xf0 ∷ 0x40 ∷ [])) ≡ (err lock_prefix, region_at 0 (0xf0 ∷ 0x40 ∷ []))
unfolding opened
lock_refused = refl

-- At the end of the segment the roll-back of the same error panics.
lock_at_segment_end :
    decode_one (region_at 0xfffe (0xf0 ∷ 0x40 ∷ []))
    ≡ (panic reset_out_of_region, record (region_at 0xfffe (0xf0 ∷ 0x40 ∷ [])) { off = 2 })
unfolding opened
lock_at_segment_end = refl

mov_es-IsInside : IsInside (region_at 0x5f mov_es_bytes)
mov_es-IsInside = record { segment = omega arith; cursor = omega arith; bytes = refl }

decode_one-Outcome_example :
    Outcome (region_at 0x5f mov_es_bytes) (decode_one (region_at 0x5f mov_es_bytes))
decode_one-Outcome_example = decode_one-Outcome (region_at 0x5f mov_es_bytes) mov_es-IsInside

decode_one-IsFromTable_example : IsFromTable mov_es_bytes mov_es
decode_one-IsFromTable_example =
    decode_one-IsFromTable (region_at 0x5f mov_es_bytes)
      (record (region_at 0x5f mov_es_bytes) { off = 5 }) mov_es mov_es_bytes mov_es-IsInside
      mov_es_decoded

-- rep lock lods: both prefixes are read, the opcode ends them.
prefixes_of_lods : prefix_bytes (0xf0 ∷ 0xf2 ∷ 0xf3 ∷ 0xac ∷ 0xf0 ∷ []) ≡ 0xf0 ∷ 0xf2 ∷ 0xf3 ∷ []
unfolding prefix_bytes
prefixes_of_lods = refl

rep_of_lods : last_rep none (0xf0 ∷ 0xf2 ∷ 0xf3 ∷ []) ≡ some Rep.eq
unfolding last_rep
rep_of_lods = refl

lock_of_lods : has_lock (0xf0 ∷ 0xf2 ∷ 0xf3 ∷ []) ≡ true
unfolding has_lock
lock_of_lods = refl

abbrev jne_shape : BranchShape
jne_shape = record { oper_num = 0; fallthrough = true }

jne_has_shape : branch_shape op_jne ≡ some jne_shape
unfolding branch_shape
jne_has_shape = refl

branch_target-decode_one_example :
    (v : ℕ) × (get_elem? jne_back.operands 0 ≡ some (rel v))
    × (branch_target jne_back
        ≡ some (
            relative (add_offset (add_offset (new 0 0x3c) 2) v) (some (add_offset (new 0 0x3c) 2))))
branch_target-decode_one_example =
    branch_target-decode_one (region_at 0x3c jne_bytes)
      (record (region_at 0x3c jne_bytes) { off = 2 }) jne_back jne_bytes jne_shape jne_decoded
      jne_has_shape refl

branch_shape-has_fallthrough_example :
    (has_shape (branch_shape op_jne) ≡ names_branch (bytes (opcode_name op_jne)))
    × AgreesOnFallthrough op_jne (branch_shape op_jne)
branch_shape-has_fallthrough_example = branch_shape-has_fallthrough op_jne

-- 8e e0 would be a move to a fifth segment register.
abbrev mov_fs : RegionIter
mov_fs = region_at 0 (0x8e ∷ 0xe0 ∷ [])

mov_fs-IsInside : IsInside mov_fs
mov_fs-IsInside = record { segment = omega arith; cursor = omega arith; bytes = refl }

decode_one_panics_example : (decode_one mov_fs).0 ≡ panic sreg_out_of_range
decode_one_panics_example = decode_one_panics mov_fs 0xe0 mov_fs-IsInside refl refl (omega arith)

-- The region of one jump, read to its end.
abbrev jne_end : RegionIter
jne_end = record (region_at 0x3c jne_bytes) { off = 2 }

jne-IsInside : IsInside (region_at 0x3c jne_bytes)
jne-IsInside = record { segment = omega arith; cursor = omega arith; bytes = refl }

jne-Run : Run (region_at 0x3c jne_bytes) ((jne_back, jne_bytes) ∷ []) jne_end
unfolding try_next
jne-Run = call jne_decoded done

Run-IsDisassembly_example :
    IsDisassembly (region_at 0x3c jne_bytes) ((jne_back, jne_bytes) ∷ []) jne_end
Run-IsDisassembly_example =
    Run-IsDisassembly (region_at 0x3c jne_bytes) jne_end ((jne_back, jne_bytes) ∷ []) jne-IsInside
      jne-Run

Run-IsFinished_example : IsFinished (region_at 0x3c jne_bytes)
Run-IsFinished_example = Run-IsFinished (region_at 0x3c jne_bytes) jne-IsInside

jne_no_more : try_next jne_end ≡ (ok none, jne_end)
unfolding try_next opened
jne_no_more = refl

Run-all_bytes_example : all_bytes ((jne_back, jne_bytes) ∷ []) ≡ jne_bytes
Run-all_bytes_example =
    Run-all_bytes (region_at 0x3c jne_bytes) jne_end jne_end ((jne_back, jne_bytes) ∷ [])
      jne-IsInside jne-Run jne_no_more
