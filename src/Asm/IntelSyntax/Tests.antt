-- ===== src/Asm/IntelSyntax/Tests.antt =====
-- The theorems on dis86/src/asm/intel_syntax.rs at one instruction, and its text.
use mathlib.Core.List.{map}
use dis.Prelude.{◌≡◌, refl, [], ◌∷◌, some, none, true}
use dis.SegOff.{new}
use dis.SegOff.Text.{bytes, hex_char}
use dis.Asm.InstrFmt.{op_mov, op_loop}
use dis.Asm.InstrFmt.Names.{opcode_name}
use dis.Asm.Instr.{
  Instr, reg, mem, rel, size16, di, cx, ss, bp, si, reg_name, rel_addr, instr_end_addr,
}
use dis.SegOff.{add_offset}
use dis.Asm.IntelSyntax.{
  hex, spaces, pad_5, disp_text, format_mem, format_operand, format_operands, format_instr_impl,
  trim_end, is_whitespace, format, instr_str,
}
use dis.Asm.IntelSyntax.Laws.{listing, visible, format_operands_lem}

-- 8b 7a fe: mov di,WORD PTR ss:[bp+si-0x2]
abbrev mov_local : Instr
mov_local = record {
  rep = none;
  opcode = op_mov;
  operands =
      reg di
      ∷ mem (record { sz = size16; sreg = ss; reg1 = some bp; reg2 = some si; off = some 0xfffe })
      ∷ [];
  addr = new 0x12 0x5f;
  n_bytes = 3;
  intel_hidden_operand_bitmask = 0;
}

-- The counter of `loop` is hidden.
abbrev loop_back : Instr
loop_back = record {
  rep = none;
  opcode = op_loop;
  operands = reg cx ∷ rel 0xfffe ∷ [];
  addr = new 0 0x10;
  n_bytes = 2;
  intel_hidden_operand_bitmask = 1;
}

format_operands_lem_example :
    format_operands loop_back 0 true (reg cx ∷ rel 0xfffe ∷ [])
    ≡ listing (map (format_operand loop_back) (visible 1 0 (reg cx ∷ rel 0xfffe ∷ [])))
format_operands_lem_example = format_operands_lem loop_back

mov_local_text : instr_str mov_local ≡ bytes "mov    di,WORD PTR ss:[bp+si-0x2]"
unfolding instr_str format format_instr_impl trim_end is_whitespace format_operands format_operand
    format_mem disp_text pad_5 spaces hex hex_char opcode_name reg_name
mov_local_text = refl

loop_back_text : instr_str loop_back ≡ bytes "loop   0x10"
unfolding instr_str format format_instr_impl trim_end is_whitespace format_operands format_operand
    pad_5 spaces hex hex_char opcode_name reg_name rel_addr instr_end_addr add_offset
loop_back_text = refl
