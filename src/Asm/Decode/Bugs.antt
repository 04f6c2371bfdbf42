-- ===== src/Asm/Decode/Bugs.antt =====
-- Where the decoder of dis86/src/asm/decode.rs panics.
use dis.Prelude.{
  ℕ, ◌+◌, ◌≤◌, ◌<◌, ◌≡◌, refl, false, none, some, arith, ◌==◌, length, get_elem?,
  lt-length_of_get_elem?,
}
use dis.Result.{ok, panic, sreg_out_of_range}
use dis.Region.{RegionIter, ◌>>=◌}
use dis.Region.Fetch.{HasByte, fetch_byte, peek_inside}
use dis.Region.Keeps.{IsInside}
use dis.Asm.InstrFmt.{requires_modrm}
use dis.Asm.InstrFmt.Lookup.{lookup}
use dis.Asm.InstrFmt.Table.{instr_tbl}
use dis.Asm.Instr.{sreg16}
use dis.Asm.Operands.{decode_operands, operand_of, operand_reg, modrm_reg}
use dis.Asm.Decode.{
  no_prefixes, prefix_byte, prefixes, read_prefixes, decode_body, decode_one, second_lookup, unpack,
  check_format, read_modrm,
}
use dis.Asm.Decode.Decoded.{decode_one_lem, impl_more}

prefixes-none :
    (it : RegionIter) (b : ℕ)
    → HasByte it b
    → prefix_byte no_prefixes b ≡ none
    → prefixes it ≡ (ok no_prefixes, it)
unfolding prefixes read_prefixes ◌>>=◌
prefixes-none it b h e = rw (peek_inside it b h) (rw e refl)

sreg16_above : (n : ℕ) → 4 ≤ n → sreg16 n ≡ panic sreg_out_of_range
unfolding sreg16
sreg16_above n h = ground arith

abbrev behind : RegionIter → ℕ → RegionIter
behind it n = record it { off = it.off + n }

module _ (it : RegionIter) (m : ℕ) where
  body_panics :
      HasByte it 0x8e
      → HasByte (behind it 1) m
      → 4 ≤ modrm_reg m
      → decode_body it ≡ (panic sreg_out_of_range, behind (behind it 1) 1)
  unfolding decode_body ◌>>=◌ second_lookup lookup instr_tbl unpack check_format read_modrm
      requires_modrm decode_operands operand_of operand_reg
  body_panics h k big =
      rw
        (
          prefixes-none it 0x8e h (unfold prefix_byte in refl),
          fetch_byte it 0x8e h,
          fetch_byte (behind it 1) m k,
          sreg16_above (modrm_reg m) big,
        )
        refl

-- In a region of bytes that ends before its segment does, a move to a segment register (opcode
-- 0x8e) whose ModRM byte has a register field of 4 or more makes `decode_one` panic.
pub decode_one_panics :
    (it : RegionIter) (m : ℕ)
    → IsInside it
    → get_elem? it.mem it.off ≡ some 0x8e
    → get_elem? it.mem (it.off + 1) ≡ some m
    → 4 ≤ modrm_reg m
    → (decode_one it).0 ≡ panic sreg_out_of_range
decode_one_panics it m h first second big =
    let below : it.off < length it.mem = lt-length_of_get_elem? it.mem it.off 0x8e first in
    let below' : it.off + 1 < length it.mem = lt-length_of_get_elem? it.mem (it.off + 1) m second in
    let not_end : (it.off == length it.mem) ≡ false = ground arith in
    rw
      (
        decode_one_lem it h,
        impl_more it h not_end,
        body_panics it m (omega arith, first) (omega (arith, h.segment), second) big,
      )
      refl
