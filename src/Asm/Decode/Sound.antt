-- ===== src/Asm/Decode/Sound.antt =====
-- Every instruction that `decode_one` returns comes from a row of the table.
use mathlib.Core.List.{map}
use dis.Prelude.{
  ℕ, ◌≡◌, refl, false, not, ◌&&◌, none, some, List, arith, ◌==◌, length, drop, inl, inr, Bool-cases,
}
use dis.Result.{Result, ok, err, panic}
use dis.SegOff.{SegOff, offset_to}
use dis.Region.{RegionIter, lift, ask, addr, end_addr, slice, reset_addr}
use dis.Region.Returns.{
  Returns, Holds, Returns-pure, Returns-if, Returns-bind, Returns-bind_with, Returns-lem,
  Holds-continue,
}
use dis.Region.Keeps.{IsInside}
use dis.Asm.InstrFmt.{InstrFmt}
use dis.Asm.InstrFmt.Table.{instr_tbl}
use dis.Asm.InstrFmt.Checks.{InTable}
use dis.Asm.Instr.{Instr}
use dis.Asm.Decode.{
  Body, Decoded, decode_body, finish, decode_at, decode_one_impl, decode_one, instr_of, roll_back,
  after_reset, is_inval, is_string_op,
}
use dis.Asm.Decode.Facts.{
  IsWellFormed, IsReadFrom, decode_body-IsWellFormed, decode_body-IsReadFrom,
}
use dis.Asm.Decode.Kinds.{kind, MatchKinds}
use dis.Asm.Decode.PrefixBytes.{prefix_bytes, has_lock, last_rep}
use dis.Asm.Decode.Decoded.{decode_one_lem, impl_end, impl_more}

-- The instruction is made of a well-formed body.
pub record IsOfBody (ins : Instr) : Type 0 where
  pub body : Body
  pub ins_eq : ins ≡ instr_of ins.addr ins.n_bytes body
  pub well_formed : IsWellFormed body

abbrev pub EachOfBody : Decoded → Type 0
EachOfBody none = Unit
EachOfBody (some (ins, raw)) = IsOfBody ins

finish-OfBody : (start : SegOff) (b : Body) → IsWellFormed b → Returns EachOfBody (finish start b)
unfolding finish
finish-OfBody start b w = Returns-bind _ (ask addr) _ (λ cur.
    Returns-bind _ (lift (offset_to start cur)) _ (λ n_bytes.
      Returns-bind _ (ask (λ it. slice it start n_bytes)) _
        (λ raw. Returns-pure _ _ (record { body = b; ins_eq = refl; well_formed = w }))))

impl-OfBody : Returns EachOfBody decode_one_impl
unfolding decode_one_impl decode_at
impl-OfBody = Returns-bind _ (ask addr) _ (λ start. Returns-bind _ (ask end_addr) _ (λ end.
    Returns-if _ _ _ _ (Returns-pure _ none tt)
      (Returns-bind_with _ _ decode_body _ decode_body-IsWellFormed (finish-OfBody start))))

-- An error has no instruction, rolled back or not.
rolled_back :
    (P : Decoded → Type 0) (save : SegOff) (out : Result Decoded × RegionIter)
    → Holds P out
    → Holds P (roll_back save out)
rolled_back P save (ok d, it) h = h
rolled_back P save (err e, it) h = reset (reset_addr save it)
  where
    reset : (r : Result (Unit {0}) × RegionIter) → Holds P (after_reset (err e) r)
    reset (ok u, it') = tt
    reset (err e', it') = tt
    reset (panic p, it') = tt
rolled_back P save (panic p, it) h = tt

pub decode_one-EachOfBody : Returns EachOfBody decode_one
unfolding decode_one
decode_one-EachOfBody = Returns-bind _ (ask addr) _ (λ save. record {
  at = λ it. rolled_back EachOfBody save (decode_one_impl it) (impl-OfBody.at it);
})

pub decode_one-IsOfBody :
    (it it' : RegionIter) (ins : Instr) (raw : List ℕ)
    → decode_one it ≡ (ok (some (ins, raw)), it')
    → IsOfBody ins
decode_one-IsOfBody it it' ins raw e =
    Returns-lem EachOfBody decode_one it it' (some (ins, raw)) decode_one-EachOfBody e

-- The instruction of a row of the table that is not invalid, read from these bytes: its opcode and
-- its hidden operands are those of the row, its operands are of the kinds of the row, its repetition
-- is the last one among the prefix bytes in front, and it is a string operation if LOCK is one of
-- them.
pub record IsFromTable (bs : List ℕ) (ins : Instr) : Type 0 where
  pub fmt : InstrFmt
  pub in_table : InTable fmt instr_tbl
  pub valid : is_inval fmt.op ≡ false
  pub opcode_eq : ins.opcode ≡ fmt.op
  pub hidden_eq : ins.intel_hidden_operand_bitmask ≡ fmt.hidden
  pub kinds : MatchKinds (map kind fmt.oper) ins.operands
  pub rep_eq : ins.rep ≡ last_rep none (prefix_bytes bs)
  pub lock_scoped : (has_lock (prefix_bytes bs) && not (is_string_op ins.opcode)) ≡ false

instr_of-IsFromTable :
    (bs : List ℕ) (start : SegOff) (n_bytes : ℕ) (b : Body)
    → IsReadFrom bs b
    → IsFromTable bs (instr_of start n_bytes b)
instr_of-IsFromTable bs start n_bytes b (w, r) = record {
  fmt = b.fmt;
  in_table = w.in_table;
  valid = w.valid;
  opcode_eq = refl;
  hidden_eq = refl;
  kinds = w.kinds;
  rep_eq = r.1;
  lock_scoped = ground (arith, r.0, w.lock_scoped);
}

abbrev EachFromTable : List ℕ → Decoded → Type 0
EachFromTable bs none = Unit
EachFromTable bs (some (ins, raw)) = IsFromTable bs ins

finish-FromTable :
    (bs : List ℕ) (start : SegOff) (b : Body)
    → IsReadFrom bs b
    → Returns (EachFromTable bs) (finish start b)
unfolding finish
finish-FromTable bs start b w = Returns-bind _ (ask addr) _ (λ cur.
    Returns-bind _ (lift (offset_to start cur)) _ (λ n_bytes.
      Returns-bind _ (ask (λ it. slice it start n_bytes)) _
        (λ raw. Returns-pure _ _ (instr_of-IsFromTable bs start n_bytes b w))))

decode_one-Holds :
    (it : RegionIter) → IsInside it → Holds (EachFromTable (drop it.off it.mem)) (decode_one it)
decode_one-Holds it h =
    let bs = drop it.off it.mem in
    elim (Bool-cases (it.off == length it.mem)) [
      | inl end ↦ rw (decode_one_lem it h, impl_end it h end) tt
      | inr more ↦
          rw (decode_one_lem it h, impl_more it h more)
            (rolled_back (EachFromTable bs) _ _ (
              Holds-continue (IsReadFrom bs) (EachFromTable bs) (decode_body it) (finish _)
                (decode_body-IsReadFrom it h) (λ b w. finish-FromTable bs _ b w)))
    ]

-- In a region of bytes that ends before its segment does, from a cursor inside it, an instruction
-- that `decode_one` returns takes its opcode and its hidden operands from a row of the table that is
-- not invalid, and its operands are of the kinds of that row. Its repetition is that of the last
-- byte 0xf2 or 0xf3 among the prefix bytes at the cursor, or none without such a byte, and if the
-- LOCK byte 0xf0 is among them, then its opcode is a string operation.
pub decode_one-IsFromTable :
    (it it' : RegionIter) (ins : Instr) (raw : List ℕ)
    → IsInside it
    → decode_one it ≡ (ok (some (ins, raw)), it')
    → IsFromTable (drop it.off it.mem) ins
decode_one-IsFromTable it it' ins raw h e = rw e at (decode_one-Holds it h)
