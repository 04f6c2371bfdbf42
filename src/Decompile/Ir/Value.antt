-- ===== src/Decompile/Ir/Value.antt =====
-- What the instructions of the intermediate representation mean: the value of each operation of
-- dis86/src/decompile/ir/opcode.rs on words, written independently of the passes. Operations with
-- an effect, and arithmetic wider than the 16-bit constants, have no equation here.
use mathlib.Core.List.{map}
use Prim.Native.Nat.{bit_and, bit_or, bit_xor}
use dis.Prelude.{
  ℕ, ◌+◌, ◌-◌, ◌*◌, ◌/◌, ◌%◌, ◌^◌, ◌<◌, ◌≡◌, Bool, true, false, not, Option, none, some, List, [],
  ◌∷◌, ◌==◌, ltb, leb, if◌then◌else◌, length, get_elem?, all, ◌>>=◌,
}
use dis.Result.{ok}
use dis.Types.{DataType}
use dis.Decompile.Ir.Opcode.{Opcode}
use dis.Decompile.Ir.Def.{Ref, const, instr, Instr, Block, Ir, CompareWidth, byte, word}
use dis.Decompile.Ir.Methods.{iter_instrs}

-- Arithmetic wraps at the width of its type.
abbrev pub wrap : DataType → ℕ → Option ℕ
wrap DataType.u8 v = some (v % 2 ^ 8)
wrap DataType.i8 v = some (v % 2 ^ 8)
wrap DataType.u16 v = some (v % 2 ^ 16)
wrap DataType.i16 v = some (v % 2 ^ 16)
wrap _ v = none

abbrev pub one_if : Bool → ℕ
one_if b = if b then 1 else 0

-- Of two numbers of `full` values, of which the upper half is negative: the one with the other sign
-- decides, and with the same sign the order of the bits.
abbrev pub signed_below : ℕ → ℕ → ℕ → Bool
signed_below full a b =
    if (a % full / (full / 2)) == (b % full / (full / 2))
    then ltb (a % full) (b % full)
    else leb (full / 2) (a % full)

abbrev pub compare_signed : (Bool → Bool → Bool) → Option CompareWidth → ℕ → ℕ → Option ℕ
compare_signed f none a b = none
compare_signed f (some byte) a b =
    some (one_if (f (signed_below (2 ^ 8) a b) (signed_below (2 ^ 8) b a)))
compare_signed f (some word) a b =
    some (one_if (f (signed_below (2 ^ 16) a b) (signed_below (2 ^ 16) b a)))

-- The operations of two operands.
unfoldable pub eval_2 : Opcode → DataType → Option CompareWidth → ℕ → ℕ → Option ℕ
eval_2 Opcode.add t w a b = wrap t (a + b)
eval_2 Opcode.sub t w a b = wrap t (a + 2 ^ 32 - b)
eval_2 Opcode.and t w a b = some (bit_and a b)
eval_2 Opcode.or t w a b = some (bit_or a b)
eval_2 Opcode.xor t w a b = some (bit_xor a b)
eval_2 Opcode.eq t w a b = some (one_if (a == b))
eval_2 Opcode.neq t w a b = some (one_if (not (a == b)))
eval_2 Opcode.lt t w a b = compare_signed (λ below above. below) w a b
eval_2 Opcode.leq t w a b = compare_signed (λ below above. not above) w a b
eval_2 Opcode.gt t w a b = compare_signed (λ below above. above) w a b
eval_2 Opcode.geq t w a b = compare_signed (λ below above. not below) w a b
eval_2 Opcode.ult t w a b = some (one_if (ltb a b))
eval_2 Opcode.uleq t w a b = some (one_if (not (ltb b a)))
eval_2 Opcode.ugt t w a b = some (one_if (ltb b a))
eval_2 Opcode.ugeq t w a b = some (one_if (not (ltb a b)))
eval_2 Opcode.make32 t w a b = some (a % 2 ^ 16 * 2 ^ 16 + b % 2 ^ 16)
eval_2 _ t w a b = none

-- The operations of one operand.
unfoldable pub eval_1 : Opcode → ℕ → Option ℕ
eval_1 Opcode.ref a = some a
eval_1 Opcode.lower16 a = some (a % 2 ^ 16)
eval_1 Opcode.upper16 a = some (a / 2 ^ 16 % 2 ^ 16)
eval_1 Opcode.sign_ext_to32 a =
    some (if ltb (a % 2 ^ 16) (2 ^ 15) then a % 2 ^ 16 else a % 2 ^ 16 + (2 ^ 32 - 2 ^ 16))
eval_1 _ a = none

abbrev pub eval_op : Opcode → DataType → Option CompareWidth → List ℕ → Option ℕ
eval_op op t w [] = none
eval_op op t w (a ∷ []) = eval_1 op a
eval_op op t w (a ∷ b ∷ []) = eval_2 op t w a b
eval_op op t w (a ∷ b ∷ c ∷ vs) = none

abbrev pub eval : Instr → List ℕ → Option ℕ
eval x vs = eval_op x.opcode x.typ x.compare_width vs

-- The operand count of the operations that have an equation.
unfoldable pub arity : Opcode → Option ℕ
arity Opcode.add = some 2
arity Opcode.sub = some 2
arity Opcode.and = some 2
arity Opcode.or = some 2
arity Opcode.xor = some 2
arity Opcode.eq = some 2
arity Opcode.neq = some 2
arity Opcode.lt = some 2
arity Opcode.leq = some 2
arity Opcode.gt = some 2
arity Opcode.geq = some 2
arity Opcode.ult = some 2
arity Opcode.uleq = some 2
arity Opcode.ugt = some 2
arity Opcode.ugeq = some 2
arity Opcode.make32 = some 2
arity Opcode.ref = some 1
arity Opcode.lower16 = some 1
arity Opcode.upper16 = some 1
arity Opcode.sign_ext_to32 = some 1
arity _ = none

abbrev pub find_block : Ir → ℕ → Option Block
find_block ir b = get_elem? ir.blocks b >>= λ o. o

abbrev pub find_instr : Ir → ℕ → ℕ → Option Instr
find_instr ir b i = find_block ir b >>= λ blk. get_elem? blk.instr_data.instrs i

-- The values of the references other than constants.
abbrev pub Valuation : Type 0
Valuation = Ref → ℕ

abbrev pub or_zero : Option ℕ → ℕ
or_zero none = 0
or_zero (some k) = k

abbrev pub value : Ir → Valuation → Ref → ℕ
value ir val (const i) = or_zero (get_elem? ir.consts i)
value ir val r = val r

abbrev pub Equation : ℕ → Option ℕ → Type 0
Equation v none = Unit
Equation v (some k) = v ≡ k

-- The value of `r` is what the instruction computes.
abbrev pub Computes : Ir → Valuation → Ref → Instr → Type 0
Computes ir val r x = Equation (val r) (eval x (map (value ir val) x.operands))

-- Values of at most 32 bits that agree with every instruction.
pub record Satisfies (ir : Ir) (val : Valuation) : Type 0 where
  pub small : (r : Ref) → val r < 2 ^ 32
  pub computes : (b i : ℕ) (x : Instr) → find_instr ir b i ≡ some x → Computes ir val (instr b i) x

abbrev pub is_some : {A : Type 0} → Option A → Bool
is_some none = false
is_some (some a) = true

abbrev pub is_valid : Ir → Ref → Bool
is_valid ir (const i) = ltb i (length ir.consts)
is_valid ir (instr b i) = is_some (find_instr ir b i)
is_valid ir _ = true

abbrev pub has_arity : Option ℕ → List Ref → Bool
has_arity none rs = true
has_arity (some n) rs = length rs == n

-- The operands of an instruction are there, and as many as the operation has.
pub record IsFine (ir : Ir) (x : Instr) : Type 0 where
  pub count : has_arity (arity x.opcode) x.operands ≡ true
  pub valid : all (is_valid ir) x.operands ≡ true

abbrev pub is_live : Ir → Ref → Bool
is_live ir (instr b i) = is_some (find_instr ir b i)
is_live ir _ = false

-- The list of a block's instructions can be walked.
pub record IsWalked (ir : Ir) (b : ℕ) : Type 0 where
  pub refs : List Ref
  pub walk : iter_instrs ir b ≡ ok refs
  pub live : all (is_live ir) refs ≡ true

pub record IsWellFormed (ir : Ir) : Type 0 where
  pub blkref : (b : ℕ) (blk : Block) → find_block ir b ≡ some blk → blk.instr_data.blkref ≡ b
  pub walked : (b : ℕ) → is_some (find_block ir b) ≡ true → IsWalked ir b
  pub fine : (b i : ℕ) (x : Instr) → find_instr ir b i ≡ some x → IsFine ir x
  pub words : all (λ k. ltb k (2 ^ 16)) ir.consts ≡ true
