-- ===== src/Asm/Instr/Tests.antt =====
-- The theorems on the registers of dis86/src/asm/instr.rs at some of them.
use dis.Prelude.{◌≡◌, ◌↔◌, false, some, arith, get_elem?}
use dis.Result.{ok}
use dis.Asm.Instr.{RegInfo, info, from_str_upper, reg8, reg16, size8, size16, bx}
use dis.Asm.Instr.Regs.{
  IsRegister, SegmentField, byte_names, word_names, reg_fields, from_str_upper-info,
}

reg_fields_example :
    IsRegister (reg8 3) (get_elem? byte_names 3) size8 false
    × IsRegister (reg16 3) (get_elem? word_names 3) size16 false
    × SegmentField 3
reg_fields_example = reg_fields 3 (omega arith)

from_str_upper-info_example :
    (from_str_upper "BX" ≡ some bx) ↔ ((i : RegInfo) × (info bx ≡ ok i) × (i.name ≡ "BX"))
from_str_upper-info_example = from_str_upper-info "BX" bx
