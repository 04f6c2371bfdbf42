-- ===== src/Asm/Decode.antt =====
-- dis86/src/asm/decode.rs: the decoder of one instruction, on a `RegionIter`.
pub mod Operands
pub mod PrefixLoop
pub mod PrefixBytes
pub mod Acts
pub mod Decoded
pub mod Kinds
pub mod Facts
pub mod Sound
pub mod Bugs
mod Tests
use dis.Prelude.{
  ℕ, zero, suc, ◌/◌, ◌%◌, Bool, true, false, not, ◌&&◌, Option, none, some, List, [], ◌∷◌, ◌==◌,
  if◌then◌else◌, length,
}
use dis.Result.{
  Result, ok, err, panic, invalid_rel_size, invalid_reg_size, register_for_memory, no_instr_fmt,
  unsupported_instr, lock_prefix, unreachable, out_of_fuel,
}
use dis.SegOff.{SegOff, segoff_eq, offset_to}
use dis.Region.{
  RegionIter, M, pure, lift, ask, ◌>>=◌, ◌>>◌, addr, end_addr, peek_checked, advance, fetch,
  fetch_sext, fetch_u16, slice, reset_addr,
}
use dis.Asm.InstrFmt.{
  Oper, Opcode, InstrFmt, requires_modrm, op_inval, op_movs, op_cmps, op_stos, op_lods, op_scas,
  oper_none, oper_ax, oper_cx, oper_dx, oper_bx, oper_sp, oper_bp, oper_si, oper_di, oper_al,
  oper_cl, oper_dl, oper_bl, oper_ah, oper_ch, oper_dh, oper_bh, oper_es, oper_cs, oper_ss, oper_ds,
  oper_flags, oper_lit1, oper_lit3, oper_src8, oper_src16, oper_dst8, oper_dst16, oper_r8, oper_r16,
  oper_sreg, oper_m8, oper_m16, oper_m32, oper_rm8, oper_rm16, oper_imm8, oper_imm8_ext, oper_imm16,
  oper_far32, oper_moff8, oper_moff16, oper_rel8, oper_rel16,
}
use dis.Asm.InstrFmt.Lookup.{
  LookupResult, fmt_ok, fmt_err, need_opcode2, need_opcode2_ext0f, lookup,
}
use dis.Asm.Instr.{
  Size, size8, size16, size32, Rep, Reg, Operand, Instr, reg, mem, imm, rel, far, reg8, reg16,
  sreg16, push, ax, cx, dx, bx, sp, bp, si, di, al, cl, dl, bl, ah, ch, dh, bh, es, cs, ss, ds,
  flags,
}
use dis.Asm.Operands.{
  modrm_mode, modrm_reg, modrm_op2, modrm_rm, operand_reg, operand_imm8, operand_imm16, operand_rel,
  unwrap_or, operand_src, operand_dst, operand_far, operand_moff, rm_regs, displacement,
  rm_register, rm_indirect, operand_rm, require_mem, operand_m, operand_of, decode_operands,
}

pub record Prefixes : Type 0 where
  pub sreg : Option Reg
  pub rep : Option Rep
  pub lock : Bool

abbrev pub no_prefixes : Prefixes
no_prefixes = record { sreg = none; rep = none; lock = false }

-- A prefix byte changes the prefixes; `none` is any other byte.
unfoldable pub prefix_byte : Prefixes → ℕ → Option Prefixes
prefix_byte p b =
    if b == 0x26
    then some (record p { sreg = some es })
    else if b == 0x2e
    then some (record p { sreg = some cs })
    else if b == 0x36
    then some (record p { sreg = some ss })
    else if b == 0x3e
    then some (record p { sreg = some ds })
    else if b == 0xf0
    then some (record p { lock = true })
    else if b == 0xf2
    then some (record p { rep = some Rep.ne })
    else if b == 0xf3
    then some (record p { rep = some Rep.eq })
    else none

-- Behind a prefix byte the loop goes on; any other byte is left.
abbrev pub prefix_round : Prefixes → (Prefixes → M Prefixes) → Option Prefixes → M Prefixes
prefix_round p next none = pure p
prefix_round p next (some q) = advance >> next q

-- The loop over the prefixes, on fuel.
unfoldable pub read_prefixes : ℕ → Prefixes → M Prefixes
read_prefixes zero p = lift (panic out_of_fuel)
read_prefixes (suc fuel) p = do
  b ← ask peek_checked
  prefix_round p (read_prefixes fuel) (prefix_byte p b)

-- One round for each byte of the region, and one to find the end.
unfoldable pub prefixes : M Prefixes
prefixes it = read_prefixes (suc (length it.mem)) no_prefixes it

-- The second search, with the ModRM field or the byte behind 0x0f.
unfoldable pub second_lookup : ℕ → LookupResult → M LookupResult
second_lookup opcode1 (fmt_err need_opcode2) = do
  b ← ask peek_checked
  pure (lookup opcode1 (some (modrm_op2 b)))
second_lookup opcode1 (fmt_err need_opcode2_ext0f) = do
  b ← ask peek_checked
  advance
  pure (lookup opcode1 (some b))
second_lookup opcode1 found = pure found

unfoldable pub unpack : LookupResult → Result InstrFmt
unpack (fmt_ok fmt) = ok fmt
unpack (fmt_err _) = err no_instr_fmt

unfoldable pub is_inval : Opcode → Bool
is_inval op_inval = true
is_inval _ = false

unfoldable pub is_string_op : Opcode → Bool
is_string_op op_movs = true
is_string_op op_cmps = true
is_string_op op_stos = true
is_string_op op_lods = true
is_string_op op_scas = true
is_string_op _ = false

unfoldable pub check_format : Bool → Opcode → Result (Unit {0})
unfolding is_inval is_string_op
check_format lock op =
    if is_inval op
    then err unsupported_instr
    else if lock && not (is_string_op op)
    then err lock_prefix
    else ok tt

unfoldable pub read_modrm : InstrFmt → M ℕ
read_modrm fmt = if requires_modrm fmt then fetch else pure 0

abbrev pub Decoded : Type 0
Decoded = Option (Instr × List ℕ)

-- What is known behind the loop over the operands.
pub record Body : Type 0 where
  pub prefix : Prefixes
  pub fmt : InstrFmt
  pub operands : List Operand

unfoldable pub decode_body : M Body
decode_body = do
  p ← prefixes
  opcode1 ← fetch
  found ← second_lookup opcode1 (lookup opcode1 none)
  fmt ← lift (unpack found)
  lift (check_format p.lock fmt.op)
  modrm ← read_modrm fmt
  operands ← decode_operands modrm p.sreg [] fmt.oper
  pure (record { prefix = p; fmt = fmt; operands = operands })

abbrev pub instr_of : SegOff → ℕ → Body → Instr
instr_of start n_bytes b = record {
  rep = b.prefix.rep;
  opcode = b.fmt.op;
  operands = b.operands;
  addr = start;
  n_bytes = n_bytes;
  intel_hidden_operand_bitmask = b.fmt.hidden;
}

unfoldable pub finish : SegOff → Body → M Decoded
finish start b = do
  cur ← ask addr
  n_bytes ← lift (offset_to start cur)
  raw ← ask (λ it. slice it start n_bytes)
  pure (some (instr_of start n_bytes b, raw))

-- The instruction at `start`, once the region is known to go on.
unfoldable pub decode_at : SegOff → M Decoded
decode_at start = do b ← decode_body; finish start b

unfoldable pub decode_one_impl : M Decoded
decode_one_impl = do
  start ← ask addr
  end ← ask end_addr
  if segoff_eq start end then pure none else decode_at start

-- What `decode_one` returns behind the call of `reset_addr`.
abbrev pub after_reset :
    Result Decoded → Result (Unit {0}) × RegionIter → Result Decoded × RegionIter
after_reset r (ok _, it) = (r, it)
after_reset r (err e, it) = (err e, it)
after_reset r (panic p, it) = (panic p, it)

-- If there was an error, give the bytes back.
abbrev pub roll_back : SegOff → Result Decoded × RegionIter → Result Decoded × RegionIter
roll_back save (ok d, it) = (ok d, it)
roll_back save (err e, it) = after_reset (err e) (reset_addr save it)
roll_back save (panic p, it) = (panic p, it)

unfoldable pub decode_one : M Decoded
decode_one = do save ← ask addr; λ it. roll_back save (decode_one_impl it)
