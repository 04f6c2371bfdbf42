-- ===== src/Asm/Decode/Facts.antt =====
-- What is known of every decoded instruction: its format, its prefixes and its operands.
use mathlib.Core.List.{map}
use dis.Prelude.{
  ℕ, ◌≡◌, refl, ◌∙◌, Bool, false, not, ◌&&◌, Option, none, some, List, [], arith, drop,
}
use dis.Result.{ok}
use dis.Region.{RegionIter, M, pure, lift, ask, ◌>>=◌, ◌>>◌, fetch, peek_checked, advance}
use dis.Region.Returns.{
  Returns, Returns-pure, Returns-bind, Returns-bind_with, Returns-bind_lift, Returns-weaken, Holds,
  Holds-continue,
}
use dis.Region.Keeps.{IsInside}
use dis.Asm.Decode.PrefixBytes.{Read, prefixes-Read}
use dis.Asm.InstrFmt.{InstrFmt, Opcode}
use dis.Asm.InstrFmt.Table.{instr_tbl}
use dis.Asm.InstrFmt.Lookup.{
  LookupResult, fmt_ok, fmt_err, not_found, need_opcode2, need_opcode2_ext0f, lookup,
}
use dis.Asm.InstrFmt.Checks.{InTable, lookup-IsFound}
use dis.Asm.Operands.{decode_operands, modrm_op2}
use dis.Asm.Decode.{
  Body, Prefixes, no_prefixes, prefixes, second_lookup, unpack, check_format, read_modrm,
  decode_body, is_inval, is_string_op,
}
use dis.Asm.Decode.Kinds.{kind, MatchKinds, decode_operands-Extends}

-- The format is a row of the table and no invalid one; under LOCK it is a string operation; and
-- the operands are of its kinds.
pub record IsWellFormed (b : Body) : Type 0 where
  pub in_table : InTable b.fmt instr_tbl
  pub valid : is_inval b.fmt.op ≡ false
  pub lock_scoped : (b.prefix.lock && not (is_string_op b.fmt.op)) ≡ false
  pub kinds : MatchKinds (map kind b.fmt.oper) b.operands

check_ok :
    (lock : Bool) (op : Opcode) (u : Unit {0})
    → check_format lock op ≡ ok u
    → (is_inval op ≡ false) × ((lock && not (is_string_op op)) ≡ false)
unfolding check_format
check_ok lock op u h = ground arith

-- What `decode_body` does behind the prefixes.
abbrev behind_prefixes : Prefixes → M Body
behind_prefixes p = do
  opcode1 ← fetch
  found ← second_lookup opcode1 (lookup opcode1 none)
  fmt ← lift (unpack found)
  lift (check_format p.lock fmt.op)
  modrm ← read_modrm fmt
  operands ← decode_operands modrm p.sreg [] fmt.oper
  pure (record { prefix = p; fmt = fmt; operands = operands })

-- Every answer of the two searches is an answer of `lookup`.
abbrev Searched : ℕ → LookupResult → Type 0
Searched opcode1 r = (op2 : Option ℕ) × (lookup opcode1 op2 ≡ r)

second_lookup-Searched :
    (opcode1 : ℕ) (r : LookupResult)
    → lookup opcode1 none ≡ r
    → Returns (Searched opcode1) (second_lookup opcode1 r)
unfolding second_lookup
second_lookup-Searched opcode1 (fmt_ok f) e = Returns-pure _ _ (none, e)
second_lookup-Searched opcode1 (fmt_err not_found) e = Returns-pure _ _ (none, e)
second_lookup-Searched opcode1 (fmt_err need_opcode2) e =
    Returns-bind _ (ask peek_checked) _ (λ b. Returns-pure _ _ (some (modrm_op2 b), refl))
second_lookup-Searched opcode1 (fmt_err need_opcode2_ext0f) e =
    Returns-bind _ (ask peek_checked) _
      (λ b. Returns-bind _ advance _ (λ _. Returns-pure _ _ (some b, refl)))

unpack_ok : (r : LookupResult) (fmt : InstrFmt) → unpack r ≡ ok fmt → r ≡ fmt_ok fmt
unfolding unpack
unpack_ok (fmt_ok g) fmt h = ground arith
unpack_ok (fmt_err e) fmt h = cc

found_row :
    (opcode1 : ℕ) (r : LookupResult) (fmt : InstrFmt)
    → Searched opcode1 r
    → unpack r ≡ ok fmt
    → InTable fmt instr_tbl
found_row opcode1 r fmt (op2, e) h =
    (lookup-IsFound opcode1 op2 fmt (e ∙ unpack_ok r fmt h)).in_table

-- The prefixes are those in front.
abbrev pub IsBehind : Prefixes → Body → Type 0
IsBehind p b = IsWellFormed b × (b.prefix ≡ p)

module _ (p : Prefixes) (fmt : InstrFmt) (row : InTable fmt instr_tbl) where
  rest-IsBehind : Returns (IsBehind p) (do
    lift (check_format p.lock fmt.op)
    modrm ← read_modrm fmt
    operands ← decode_operands modrm p.sreg [] fmt.oper
    pure (record { prefix = p; fmt = fmt; operands = operands }))
  rest-IsBehind = Returns-bind_lift _ (check_format p.lock fmt.op) _ (λ u e.
      Returns-bind _ (read_modrm fmt) _ (λ modrm.
        Returns-bind_with _ _ (decode_operands modrm p.sreg [] fmt.oper) _
          (decode_operands-Extends modrm p.sreg [] fmt.oper)
          (λ os ext. Returns-pure _ _ (
            record {
              in_table = row;
              valid = (check_ok p.lock fmt.op u e).0;
              lock_scoped = (check_ok p.lock fmt.op u e).1;
              kinds = rw ext.1 ext.2;
            },
            refl,
          ))))

behind_prefixes-IsBehind : (p : Prefixes) → Returns (IsBehind p) (behind_prefixes p)
behind_prefixes-IsBehind p = Returns-bind _ fetch _ (λ opcode1.
    Returns-bind_with _ _ (second_lookup opcode1 (lookup opcode1 none)) _
      (second_lookup-Searched opcode1 (lookup opcode1 none) refl)
      (λ r s.
        Returns-bind_lift _ (unpack r) _
          (λ fmt e. rest-IsBehind p fmt (found_row opcode1 r fmt s e))))

-- Whatever the bytes, a body that the decoder reads is well formed.
pub decode_body-IsWellFormed : Returns IsWellFormed decode_body
unfolding decode_body
decode_body-IsWellFormed = Returns-bind _ prefixes _ (λ p.
    Returns-weaken (IsBehind p) IsWellFormed (λ b w. w.0) (behind_prefixes p)
      (behind_prefixes-IsBehind p))

-- A well-formed body with the prefixes that these bytes make.
abbrev pub IsReadFrom : List ℕ → Body → Type 0
IsReadFrom bs b = IsWellFormed b × Read no_prefixes bs b.prefix

pub decode_body-IsReadFrom :
    (it : RegionIter) → IsInside it → Holds (IsReadFrom (drop it.off it.mem)) (decode_body it)
unfolding decode_body ◌>>=◌
decode_body-IsReadFrom it h =
    let bs = drop it.off it.mem in
    Holds-continue (Read no_prefixes bs) (IsReadFrom bs) (prefixes it) behind_prefixes
      (prefixes-Read it h)
      (λ p r.
        Returns-weaken (IsBehind p) (IsReadFrom bs) (λ b w. (w.0, rw w.1 r)) (behind_prefixes p)
          (behind_prefixes-IsBehind p))
