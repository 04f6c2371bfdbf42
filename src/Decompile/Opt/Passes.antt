-- ===== src/Decompile/Opt/Passes.antt =====
-- The peephole passes of dis86/src/decompile/opt.rs keep what the instructions mean.
use Prim.Native.Nat.{bit_or, bit_xor}
use dis.Prelude.{◌<◌, ◌^◌, ◌≡◌, refl, sym, ap, ◌∙◌, true, some, [], ◌∷◌, arith, if◌then◌else◌}
use dis.Prelude.Bits.{bit_xor_self, bit_or_self}
use dis.Result.{ok, and_then}
use dis.Decompile.Ir.Opcode.{Opcode}
use dis.Decompile.Ir.Def.{instr, Instr, Ir, ref_eq}
use dis.Decompile.Ir.Equality.{ref_eq_sound}
use dis.Decompile.Ir.Methods.{instr_mut, operand_at}
use dis.Decompile.Ir.Value.{Valuation, value, IsWellFormed, arity, eval_2}
use dis.Decompile.Ir.Rewrite.{Kept, instr_unwrap_lem}
use dis.Decompile.Opt.{
  make_ref, make_const, same_operands, is_xor, is_or, reduce_xor_at, reduce_xor,
  reduce_trivial_or_at, reduce_trivial_or,
}
use dis.Decompile.Opt.Walk.{KeepsStep, Keeps-if, Keeps-then, for_each-Keeps}
use dis.Decompile.Opt.Replace.{
  IsBinary, IsFine-IsBinary, make_ref-Keeps, make_const-Keeps, same_operands_lem, operand_at_0,
  eval_binary,
}

is_xor-eq : (o : Opcode) → is_xor o ≡ true → o ≡ Opcode.xor
is_xor-eq Opcode.xor h = refl
is_xor-eq _ h = absurd (cc)

is_or-eq : (o : Opcode) → is_or o ≡ true → o ≡ Opcode.or
is_or-eq Opcode.or h = refl
is_or-eq _ h = absurd (cc)

arity_xor : arity Opcode.xor ≡ some 2
unfolding arity
arity_xor = refl

arity_or : arity Opcode.or ≡ some 2
unfolding arity
arity_or = refl

zero_word : 0 < 2 ^ 16
zero_word = omega arith

xor_same :
    (ir : Ir) (x : Instr) (p : IsBinary ir x) (val : Valuation)
    → x.opcode ≡ Opcode.xor
    → p.lhs ≡ p.rhs
    → eval_2 Opcode.xor x.typ x.compare_width (value ir val p.lhs) (value ir val p.rhs) ≡ some 0
unfolding eval_2
xor_same ir x p val o same =
    ap (λ r. some (bit_xor (value ir val r) (value ir val p.rhs))) same
    ∙ ap some (bit_xor_self (value ir val p.rhs))

reduce_xor_step : KeepsStep reduce_xor_at
unfolding reduce_xor_at
reduce_xor_step ir b i x w e = rw (instr_unwrap_lem ir b i x w e) (
    Keeps-if ir (is_xor x.opcode)
      (and_then (same_operands x) λ same. if same then make_const (instr b i) ir 0 else ok ir) w
      λ h.
        let o = is_xor-eq x.opcode h in
        let p = IsFine-IsBinary ir x Opcode.xor (w.fine b i x e) o arity_xor in
        rw (same_operands_lem ir x p) (
          Keeps-then ir (ref_eq p.lhs p.rhs) (make_const (instr b i) ir 0) w λ same.
            make_const-Keeps ir b i x 0 w e zero_word λ val.
              eval_binary ir val x p Opcode.xor o
              ∙ xor_same ir x p val o (ref_eq_sound p.lhs p.rhs same)))

or_same :
    (ir : Ir) (x : Instr) (p : IsBinary ir x) (val : Valuation)
    → x.opcode ≡ Opcode.or
    → p.lhs ≡ p.rhs
    → eval_2 Opcode.or x.typ x.compare_width (value ir val p.lhs) (value ir val p.rhs)
      ≡ some (value ir val p.lhs)
unfolding eval_2
or_same ir x p val o same =
    ap (λ r. some (bit_or (value ir val p.lhs) (value ir val r))) (sym same)
    ∙ ap some (bit_or_self (value ir val p.lhs))

reduce_trivial_or_step : KeepsStep reduce_trivial_or_at
unfolding reduce_trivial_or_at
reduce_trivial_or_step ir b i x w e = rw (instr_unwrap_lem ir b i x w e) (
    Keeps-if ir (is_or x.opcode)
      (and_then (same_operands x) λ same.
        if same
        then and_then (operand_at x 0) (λ a. instr_mut ir (instr b i) (make_ref a))
        else ok ir)
      w
      λ h.
        let o = is_or-eq x.opcode h in
        let p = IsFine-IsBinary ir x Opcode.or (w.fine b i x e) o arity_or in
        rw (same_operands_lem ir x p, operand_at_0 x p.lhs (p.rhs ∷ []) p.operands)
          (Keeps-then ir (ref_eq p.lhs p.rhs) (instr_mut ir (instr b i) (make_ref p.lhs)) w λ same.
            make_ref-Keeps ir b i x p.lhs w e p.lhs_valid λ val s.
              eval_binary ir val x p Opcode.or o
              ∙ or_same ir x p val o (ref_eq_sound p.lhs p.rhs same)))

-- On a well-formed representation `reduce_xor` returns, and its result is
-- well formed, has the same blocks and places of instructions, and is satisfied by the same values.
pub reduce_xor_lem :
    (ir : Ir) → IsWellFormed ir → (ir' : Ir) × (reduce_xor ir ≡ ok ir') × Kept ir ir'
unfolding reduce_xor
reduce_xor_lem ir w = for_each-Keeps reduce_xor_at reduce_xor_step ir w

-- On a well-formed representation `reduce_trivial_or` returns, and its result is
-- well formed, has the same blocks and places of instructions, and is satisfied by the same values.
pub reduce_trivial_or_lem :
    (ir : Ir) → IsWellFormed ir → (ir' : Ir) × (reduce_trivial_or ir ≡ ok ir') × Kept ir ir'
unfolding reduce_trivial_or
reduce_trivial_or_lem ir w = for_each-Keeps reduce_trivial_or_at reduce_trivial_or_step ir w
