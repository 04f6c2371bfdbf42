-- ===== src/Decompile/Opt/Make32.antt =====
-- The passes of dis86/src/decompile/opt.rs that put the halves of 32-bit values together keep what
-- the instructions mean.
use mathlib.Core.Path.{ap₂}
use dis.Prelude.{ℕ, ◌≡◌, ap, ◌∙◌, true, some, [], ◌∷◌, if◌then◌else◌}
use dis.Result.{ok, and_then}
use dis.Decompile.Ir.Opcode.{Opcode}
use dis.Decompile.Ir.Def.{Ref, instr, Instr, Ir, ref_eq}
use dis.Decompile.Ir.Equality.{ref_eq_sound}
use dis.Decompile.Ir.Methods.{instr_mut, instr_matches, operand_at}
use dis.Decompile.Ir.Value.{find_instr, is_valid, is_some, IsWellFormed}
use dis.Decompile.Ir.Rewrite.{Kept, instr_unwrap_lem}
use dis.Decompile.Opt.{make_ref}
use dis.Decompile.Opt.Wide.{
  is_make32, is_upper16, is_lower16, is_signext32, or_continue, reduce_make_32_signext_32_at,
  reduce_make_32_signext_32, reduce_upper_lower_make32_at, reduce_upper_lower_make32,
}
use dis.Decompile.Opt.Walk.{Keeps, KeepsStep, Keeps-if, Keeps-then, for_each-Keeps}
use dis.Decompile.Opt.Replace.{
  IsUnary, IsBinary, IsFine-IsBinary, make_ref-Keeps, operand_at_0, operand_at_1,
}
use dis.Decompile.Opt.Halves.{
  IsMatch, Keeps-matches, is_make32-eq, is_upper16-eq, is_lower16-eq, is_signext32-eq, arity_make32,
  arity_upper16, arity_lower16, arity_signext32, unary, signext_value, halves_value,
}

module _ (ir : Ir) (b i : ℕ) (x : Instr) (w : IsWellFormed ir) (e : find_instr ir b i ≡ some x)
    (o : x.opcode ≡ Opcode.make32) (p : IsBinary ir x) where
  signext_match :
      (u s : Instr) (mu : IsMatch ir p.lhs is_upper16 u) (pu : IsUnary ir u)
      → IsMatch ir pu.src is_signext32 s
      → Keeps ir (
          and_then (operand_at x 1) λ low.
            and_then
              (operand_at s 0)
              λ src. if ref_eq low src then instr_mut ir (instr b i) (make_ref pu.src) else ok ir)
  signext_match u s mu pu ms =
      let ps =
        unary ir b i x w e o s pu.src is_signext32 Opcode.sign_ext_to32 ms
          (is_signext32-eq s.opcode ms.passes) arity_signext32 in
      rw (operand_at_1 x p.lhs p.rhs [] p.operands, operand_at_0 s ps.src [] ps.operands)
        (Keeps-then ir (ref_eq p.rhs ps.src) (instr_mut ir (instr b i) (make_ref pu.src)) w λ same.
          make_ref-Keeps ir b i x pu.src w e pu.src_valid λ val but.
            signext_value ir b i x w e o p u s mu pu ms ps val (ref_eq_sound p.rhs ps.src same) but)

  halves_match :
      (u l : Instr)
      → IsMatch ir p.lhs is_upper16 u
      → IsMatch ir p.rhs is_lower16 l
      → Keeps ir (
          and_then (operand_at u 0) λ src.
            and_then
              (operand_at l 0)
              λ src'. if ref_eq src src' then instr_mut ir (instr b i) (make_ref src) else ok ir)
  halves_match u l mu ml =
      let pu =
        unary ir b i x w e o u p.lhs is_upper16 Opcode.upper16 mu (is_upper16-eq u.opcode mu.passes)
          arity_upper16 in
      let pl =
        unary ir b i x w e o l p.rhs is_lower16 Opcode.lower16 ml (is_lower16-eq l.opcode ml.passes)
          arity_lower16 in
      rw (operand_at_0 u pu.src [] pu.operands, operand_at_0 l pl.src [] pl.operands)
        (Keeps-then ir (ref_eq pu.src pl.src) (instr_mut ir (instr b i) (make_ref pu.src)) w λ same.
          make_ref-Keeps ir b i x pu.src w e pu.src_valid λ val but.
            halves_value ir b i x w e o p u l mu pu ml pl val (ref_eq_sound pu.src pl.src same) but)

  signext_pair : Keeps ir (
      and_then (operand_at x 0) λ upper16_ref.
        or_continue ir (instr_matches ir upper16_ref is_upper16) λ upper16.
          and_then (operand_at upper16 0) λ signext32_ref.
            or_continue ir (instr_matches ir signext32_ref is_signext32) λ signext32.
              and_then (operand_at x 1) λ low. and_then (operand_at signext32 0) λ src.
                if ref_eq low src then instr_mut ir (instr b i) (make_ref signext32_ref) else ok ir)
  signext_pair = rw (operand_at_0 x p.lhs (p.rhs ∷ []) p.operands) (
      Keeps-matches ir p.lhs is_upper16 _ w p.lhs_valid λ u mu.
        let pu =
          unary ir b i x w e o u p.lhs is_upper16 Opcode.upper16 mu
            (is_upper16-eq u.opcode mu.passes) arity_upper16 in
        rw (operand_at_0 u pu.src [] pu.operands) (
          Keeps-matches ir pu.src is_signext32 _ w pu.src_valid λ s ms. signext_match u s mu pu ms))

  halves_pair : Keeps ir (
      and_then (operand_at x 0) λ upper_ref.
        or_continue ir (instr_matches ir upper_ref is_upper16) λ upper.
          and_then (operand_at x 1) λ lower_ref.
            or_continue ir (instr_matches ir lower_ref is_lower16) λ lower.
              and_then (operand_at upper 0) λ src.
                and_then (operand_at lower 0) λ src'.
                  if ref_eq src src' then instr_mut ir (instr b i) (make_ref src) else ok ir)
  halves_pair = rw (operand_at_0 x p.lhs (p.rhs ∷ []) p.operands) (
      Keeps-matches ir p.lhs is_upper16 _ w p.lhs_valid λ u mu.
        rw (operand_at_1 x p.lhs p.rhs [] p.operands)
          (Keeps-matches ir p.rhs is_lower16 _ w p.rhs_valid λ l ml. halves_match u l mu ml))

make32_operands :
    (ir : Ir) (b i : ℕ) (x : Instr) (w : IsWellFormed ir) (e : find_instr ir b i ≡ some x)
    → x.opcode ≡ Opcode.make32
    → IsBinary ir x
make32_operands ir b i x w e o = IsFine-IsBinary ir x Opcode.make32 (w.fine b i x e) o arity_make32

pub is_valid_of_found :
    (ir : Ir) (b i : ℕ) (x : Instr) → find_instr ir b i ≡ some x → is_valid ir (instr b i) ≡ true
is_valid_of_found ir b i x e = ap is_some e

pub instr-injective : (b i c j : ℕ) → instr b i ≡ instr c j → (b ≡ c) × (i ≡ j)
instr-injective b i c j h = (ap block_of h, ap index_of h)
  where
    block_of : Ref → ℕ
    block_of (instr b i) = b
    block_of _ = 0

    index_of : Ref → ℕ
    index_of (instr b i) = i
    index_of _ = 0

reduce_make_32_signext_32_step : KeepsStep reduce_make_32_signext_32_at
unfolding reduce_make_32_signext_32_at
reduce_make_32_signext_32_step ir b i x w e = rw (instr_unwrap_lem ir b i x w e) (
    Keeps-if ir (is_make32 x.opcode) _ w λ h.
      let o = is_make32-eq x.opcode h in
      signext_pair ir b i x w e o (make32_operands ir b i x w e o))

reduce_upper_lower_make32_step : KeepsStep reduce_upper_lower_make32_at
unfolding reduce_upper_lower_make32_at
reduce_upper_lower_make32_step ir b i x w e =
    Keeps-matches ir (instr b i) is_make32 _ w (is_valid_of_found ir b i x e) λ y m.
      let at = instr-injective b i m.b m.i m.at in
      let f : find_instr ir b i ≡ some y = ap₂ (find_instr ir) at.0 at.1 ∙ m.found in
      let o = is_make32-eq y.opcode m.passes in
      halves_pair ir b i y w f o (make32_operands ir b i y w f o)

-- On a well-formed representation `reduce_make_32_signext_32` returns, and its result is
-- well formed, has the same blocks and places of instructions, and is satisfied by the same values.
pub reduce_make_32_signext_32_lem :
    (ir : Ir) → IsWellFormed ir → (ir' : Ir) × (reduce_make_32_signext_32 ir ≡ ok ir') × Kept ir ir'
unfolding reduce_make_32_signext_32
reduce_make_32_signext_32_lem ir w =
    for_each-Keeps reduce_make_32_signext_32_at reduce_make_32_signext_32_step ir w

-- On a well-formed representation `reduce_upper_lower_make32` returns, and its result is
-- well formed, has the same blocks and places of instructions, and is satisfied by the same values.
pub reduce_upper_lower_make32_lem :
    (ir : Ir) → IsWellFormed ir → (ir' : Ir) × (reduce_upper_lower_make32 ir ≡ ok ir') × Kept ir ir'
unfolding reduce_upper_lower_make32
reduce_upper_lower_make32_lem ir w =
    for_each-Keeps reduce_upper_lower_make32_at reduce_upper_lower_make32_step ir w
