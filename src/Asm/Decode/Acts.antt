-- ===== src/Asm/Decode/Acts.antt =====
-- The decoder's body is safe, and consumes at least one byte.
use dis.Prelude.{
  ℕ, ◌<◌, ◌^◌, ◌≡◌, refl, Bool, true, false, not, ◌&&◌, Option, none, some, [], arith, length,
  if◌then◌else◌,
}
use dis.Result.{ok, err, unsupported_instr, lock_prefix}
use dis.Region.{M, pure, lift, ◌>>=◌, ◌>>◌}
use dis.Region.Keeps.{Safe, IsQuiet, Safe-pure, Safe-lift, Safe-bind, Safe-peek, Safe-fetch}
use dis.Region.Binds.{Safe-bind_lift, Safe-bind_byte, Safe-peek_advance, bind_assoc, pure-bind}
use dis.Asm.InstrFmt.{InstrFmt, Opcode, requires_modrm}
use dis.Asm.InstrFmt.Lookup.{
  LookupResult, fmt_ok, fmt_err, not_found, need_opcode2, need_opcode2_ext0f, lookup,
}
use dis.Asm.InstrFmt.Shape.{length-oper}
use dis.Asm.Operands.{decode_operands, modrm_op2}
use dis.Asm.Decode.{
  Prefixes, second_lookup, unpack, check_format, read_modrm, decode_body, Body, is_inval,
  is_string_op,
}
use dis.Asm.Decode.PrefixLoop.{Safe-prefixes}
use dis.Asm.Decode.Operands.{Safe-decode_operands}

module _ {B : Type 0} (opcode1 : ℕ) (f : LookupResult → M B)
    (safe : (op2 : Option ℕ) → Safe (f (lookup opcode1 op2))) where
  -- Whatever the second search is asked, its answer is one of `lookup`.
  second_cases : (r : LookupResult) → lookup opcode1 none ≡ r → Safe (second_lookup opcode1 r >>= f)
  unfolding second_lookup
  second_cases (fmt_ok fmt) e = rw pure-bind (rw e at (safe none))
  second_cases (fmt_err not_found) e = rw pure-bind (rw e at (safe none))
  second_cases (fmt_err need_opcode2) e =
      rw bind_assoc (Safe-bind _ _ Safe-peek (λ b. rw pure-bind (safe (some (modrm_op2 b)))))
  second_cases (fmt_err need_opcode2_ext0f) e =
      simp (bind_assoc, pure-bind) (Safe-peek_advance _ (λ b. safe (some b)))

unpack_ok : (r : LookupResult) (fmt : InstrFmt) → unpack r ≡ ok fmt → r ≡ fmt_ok fmt
unfolding unpack
unpack_ok (fmt_ok g) fmt h = ground arith
unpack_ok (fmt_err e) fmt h = cc

unpack-IsQuiet : (r : LookupResult) → IsQuiet (unpack r)
unfolding unpack
unpack-IsQuiet (fmt_ok g) = tt
unpack-IsQuiet (fmt_err e) = tt

checks-IsQuiet :
    (invalid locked : Bool)
    → IsQuiet {A = Unit {0}}
        (if invalid then err unsupported_instr else if locked then err lock_prefix else ok tt)
checks-IsQuiet true locked = tt
checks-IsQuiet false true = tt
checks-IsQuiet false false = tt

check_format-IsQuiet : (lock : Bool) (op : Opcode) → IsQuiet (check_format lock op)
unfolding check_format
check_format-IsQuiet lock op = checks-IsQuiet (is_inval op) (lock && not (is_string_op op))

-- Behind the opcode byte.
module _ (p : Prefixes) (opcode1 : ℕ) where
  Safe-operands_of :
      (fmt : InstrFmt)
      → length fmt.oper ≡ 3
      → Safe {A = Body} (do
        modrm ← read_modrm fmt
        operands ← decode_operands modrm p.sreg [] fmt.oper
        pure (record { prefix = p; fmt = fmt; operands = operands }))
  Safe-operands_of fmt e = with_modrm (requires_modrm fmt) refl
    where
      rest :
          (modrm : ℕ)
          → modrm < 2 ^ 8
          → Safe {A = Body} (do
            operands ← decode_operands modrm p.sreg [] fmt.oper
            pure (record { prefix = p; fmt = fmt; operands = operands }))
      rest modrm h =
          Safe-bind _ _ (Safe-decode_operands modrm p.sreg [] fmt.oper h (omega (arith, e)))
            (λ os. Safe-pure _)

      with_modrm :
          (b : Bool)
          → requires_modrm fmt ≡ b
          → Safe {A = Body} (
              read_modrm fmt >>= λ modrm. do
                operands ← decode_operands modrm p.sreg [] fmt.oper
                pure (record { prefix = p; fmt = fmt; operands = operands }))
      with_modrm true b = unfold read_modrm in rw b (Safe-bind_byte _ rest)
      with_modrm false b = unfold read_modrm in rw (b, pure-bind) (rest 0 (omega arith))

  pub Safe-lookups : Safe {A = Body} (do
    found ← second_lookup opcode1 (lookup opcode1 none)
    fmt ← lift (unpack found)
    lift (check_format p.lock fmt.op)
    modrm ← read_modrm fmt
    operands ← decode_operands modrm p.sreg [] fmt.oper
    pure (record { prefix = p; fmt = fmt; operands = operands }))
  Safe-lookups =
      second_cases opcode1 _
        (λ op2. Safe-bind_lift (unpack (lookup opcode1 op2)) _ (unpack-IsQuiet _) (λ fmt e.
          Safe-bind _ _ (Safe-lift _ (check_format-IsQuiet p.lock fmt.op))
            (λ _. Safe-operands_of fmt (length-oper opcode1 op2 fmt (unpack_ok _ fmt e)))))
        (lookup opcode1 none) refl

pub Safe-decode_body : Safe decode_body
unfolding decode_body
Safe-decode_body =
    Safe-bind _ _ Safe-prefixes (λ p. Safe-bind _ _ Safe-fetch (λ opcode1. Safe-lookups p opcode1))
