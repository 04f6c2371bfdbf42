-- ===== src/Asm/Branch/Shapes.antt =====
-- Branch classification, compared with the instruction table and with `has_fallthrough`.
use mathlib.Core.List.{map}
use mathlib.Core.Path.{subst}
use dis.Prelude.{
  ℕ, zero, suc, ◌≡◌, refl, sym, ap, Bool, true, false, ◌==◌, ◌&&◌, ◌||◌, Option, none, some, List,
  [], ◌∷◌, get_elem?, all, not, &&-eq-true, if◌then◌else◌,
}
use dis.Result.{ok}
use dis.SegOff.{add_offset}
use dis.Region.{RegionIter}
use dis.Asm.InstrFmt.{
  InstrFmt, Opcode, op_ja, op_jae, op_jb, op_jbe, op_jcxz, op_je, op_jg, op_jge, op_jl, op_jle,
  op_jmp, op_jmpf, op_jne, op_jno, op_jnp, op_jns, op_jo, op_jp, op_js, op_loop, op_loope,
  op_loopne,
}
use dis.SegOff.Text.{bytes}
use dis.Asm.InstrFmt.Names.{opcode_name}
use dis.Asm.InstrFmt.Table.{instr_tbl}
use dis.Asm.InstrFmt.Checks.{all-InTable}
use dis.Asm.Instr.{
  Instr, Operand, reg, mem, imm, rel, far, has_fallthrough, rel_addr, instr_end_addr,
}
use dis.Asm.Branch.{BranchShape, branch_shape, branch_target, relative}
use dis.Asm.Decode.{decode_one}
use dis.Asm.Decode.Kinds.{Kind, kind, no_operand, register, MatchKinds}
use dis.Asm.Decode.Sound.{IsOfBody, decode_one-IsOfBody}

abbrev pub AgreesOnFallthrough : Opcode → Option BranchShape → Type 0
AgreesOnFallthrough op none = Unit
AgreesOnFallthrough op (some s) = s.fallthrough ≡ has_fallthrough op

abbrev begins : List ℕ → List ℕ → Bool
begins [] cs = true
begins (p ∷ ps) [] = false
begins (p ∷ ps) (c ∷ cs) = p == c && begins ps cs

-- A mnemonic that begins with `j` or with `loop`.
abbrev pub names_branch : List ℕ → Bool
names_branch cs = begins (bytes "j") cs || begins (bytes "loop") cs

abbrev pub has_shape : Option BranchShape → Bool
has_shape none = false
has_shape (some s) = true

-- The opcodes that have a branch shape are those whose mnemonic begins with `j` or with `loop`, and
-- for each of them the table of branch shapes and `has_fallthrough` agree on whether control goes on
-- to the next instruction.
pub branch_shape-has_fallthrough :
    (op : Opcode)
    → (has_shape (branch_shape op) ≡ names_branch (bytes (opcode_name op)))
      × AgreesOnFallthrough op (branch_shape op)
unfolding branch_shape has_fallthrough opcode_name
branch_shape-has_fallthrough op_ja = (refl, refl)
branch_shape-has_fallthrough op_jae = (refl, refl)
branch_shape-has_fallthrough op_jb = (refl, refl)
branch_shape-has_fallthrough op_jbe = (refl, refl)
branch_shape-has_fallthrough op_jcxz = (refl, refl)
branch_shape-has_fallthrough op_je = (refl, refl)
branch_shape-has_fallthrough op_jg = (refl, refl)
branch_shape-has_fallthrough op_jge = (refl, refl)
branch_shape-has_fallthrough op_jl = (refl, refl)
branch_shape-has_fallthrough op_jle = (refl, refl)
branch_shape-has_fallthrough op_jmp = (refl, refl)
branch_shape-has_fallthrough op_jmpf = (refl, refl)
branch_shape-has_fallthrough op_jne = (refl, refl)
branch_shape-has_fallthrough op_jno = (refl, refl)
branch_shape-has_fallthrough op_jnp = (refl, refl)
branch_shape-has_fallthrough op_jns = (refl, refl)
branch_shape-has_fallthrough op_jo = (refl, refl)
branch_shape-has_fallthrough op_jp = (refl, refl)
branch_shape-has_fallthrough op_js = (refl, refl)
branch_shape-has_fallthrough op_loop = (refl, refl)
branch_shape-has_fallthrough op_loope = (refl, refl)
branch_shape-has_fallthrough op_loopne = (refl, refl)
branch_shape-has_fallthrough _ = (refl, tt)

is_end : Kind → Bool
is_end no_operand = true
is_end _ = false

is_rel : Kind → Bool
is_rel Kind.relative = true
is_rel _ = false

-- The kind at a place, if no list of operands ends before it, is a relative offset.
is_relative_at : ℕ → List Kind → Bool
is_relative_at n [] = false
is_relative_at zero (k ∷ ks) = is_rel k
is_relative_at (suc n) (k ∷ ks) = not (is_end k) && is_relative_at n ks

relative_if : Option BranchShape → List Kind → Bool
relative_if none ks = true
relative_if (some s) ks = if s.fallthrough then is_relative_at s.oper_num ks else true

conditional_is_relative : InstrFmt → Bool
conditional_is_relative f = relative_if (branch_shape f.op) (map kind f.oper)

conditional_is_relative_table : all conditional_is_relative instr_tbl ≡ true
unfolding conditional_is_relative relative_if is_relative_at is_end is_rel instr_tbl branch_shape
    kind
conditional_is_relative_table = refl

first_relative :
    (ks : List Kind) (xs : List Operand)
    → MatchKinds (Kind.relative ∷ ks) xs
    → (v : ℕ) × (get_elem? xs 0 ≡ some (rel v))
first_relative ks [] m = absurd m
first_relative ks (rel v ∷ xs) m = (v, refl)
first_relative ks (reg r ∷ xs) m = absurd m.0
first_relative ks (mem r ∷ xs) m = absurd m.0
first_relative ks (imm a b ∷ xs) m = absurd m.0
first_relative ks (far a b ∷ xs) m = absurd m.0

is_rel_sound : (k : Kind) → is_rel k ≡ true → k ≡ Kind.relative
unfolding is_rel
is_rel_sound Kind.relative h = refl
is_rel_sound _ h = cc

-- Behind the first operand.
match_rest :
    (k : Kind) (ks : List Kind) (xs : List Operand)
    → not (is_end k) ≡ true
    → MatchKinds (k ∷ ks) xs
    → (x : Operand) × (rest : List Operand) × (xs ≡ x ∷ rest) × MatchKinds ks rest
unfolding is_end
match_rest no_operand ks xs h m = cc
match_rest register ks (x ∷ xs) h m = (x, xs, refl, m.1)
match_rest _ ks (x ∷ xs) h m = (x, xs, refl, m.1)
match_rest _ ks [] h m = absurd m

-- An operand that matches a relative kind is a relative offset.
relative_operand :
    (n : ℕ) (ks : List Kind) (xs : List Operand)
    → is_relative_at n ks ≡ true
    → MatchKinds ks xs
    → (v : ℕ) × (get_elem? xs n ≡ some (rel v))
unfolding is_relative_at
relative_operand n [] xs h m = cc
relative_operand zero (k ∷ ks) xs h m =
    first_relative ks xs (subst (λ c. MatchKinds (c ∷ ks) xs) (is_rel_sound k h) m)
relative_operand (suc n) (k ∷ ks) xs h m =
    let both = &&-eq-true (not (is_end k)) (is_relative_at n ks) h in
    let split = match_rest k ks xs both.0 m in
    rw split.2 (relative_operand n ks split.1 both.1 split.3)

conditional_target :
    (ins : Instr) (s : BranchShape) (v : ℕ)
    → branch_shape ins.opcode ≡ some s
    → s.fallthrough ≡ true
    → get_elem? ins.operands s.oper_num ≡ some (rel v)
    → branch_target ins
      ≡ some (
          relative
            (add_offset (add_offset ins.addr ins.n_bytes) v)
            (some (add_offset ins.addr ins.n_bytes)))
unfolding branch_target rel_addr instr_end_addr
conditional_target ins s v e f g = rw (e, g, f)

well_formed_target :
    (ins : Instr) (s : BranchShape)
    → IsOfBody ins
    → branch_shape ins.opcode ≡ some s
    → s.fallthrough ≡ true
    → (v : ℕ) × (get_elem? ins.operands s.oper_num ≡ some (rel v))
unfolding conditional_is_relative relative_if
well_formed_target ins s t e f =
    let b = t.body in
    let opcode : ins.opcode ≡ b.fmt.op = ap (λ (i : Instr). i.opcode) t.ins_eq in
    let operands : ins.operands ≡ b.operands = ap (λ (i : Instr). i.operands) t.ins_eq in
    let row =
      all-InTable conditional_is_relative instr_tbl b.fmt conditional_is_relative_table
        t.well_formed.in_table in
    let place = rw (sym opcode, e, f) at row in
    rw operands
      (relative_operand s.oper_num (map kind b.fmt.oper) b.operands place t.well_formed.kinds)

-- A decoded branch that also falls through has a relative offset as the operand that its shape
-- names, and its target is that offset from its end (its address and its number of bytes), beside the
-- address of its end, where control goes otherwise. It is never reported as unresolved.
pub branch_target-decode_one :
    (it it' : RegionIter) (ins : Instr) (raw : List ℕ) (s : BranchShape)
    → decode_one it ≡ (ok (some (ins, raw)), it')
    → branch_shape ins.opcode ≡ some s
    → s.fallthrough ≡ true
    → (v : ℕ) × (get_elem? ins.operands s.oper_num ≡ some (rel v))
      × (branch_target ins
          ≡ some (
              relative
                (add_offset (add_offset ins.addr ins.n_bytes) v)
                (some (add_offset ins.addr ins.n_bytes))))
branch_target-decode_one it it' ins raw s d e f =
    let found = well_formed_target ins s (decode_one-IsOfBody it it' ins raw d) e f in
    (found.0, found.1, conditional_target ins s found.0 e f found.1)
