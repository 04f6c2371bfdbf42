-- ===== src/Decompile/Opt/Folding.antt =====
-- `constant_folding` of dis86/src/decompile/opt.rs: the folded constant is the value of the
-- operation.
use mathlib.Core.Path.{subst, ap₂}
use Prim.Native.Nat.{bit_and, bit_or, bit_xor}
use dis.Prelude.{
  ℕ, ◌+◌, ◌-◌, ◌%◌, ◌<◌, ◌^◌, ◌≡◌, refl, sym, ap, ◌∙◌, Bool, true, false, not, Option, none, some,
  ◌==◌, ltb, leb, arith, Bool-cases, if◌then◌else◌, inl, inr,
}
use dis.Prelude.Bits.{bit_and_bound, bit_or_bound, bit_xor_bound}
use dis.Prelude.Words.{u16, sext}
use dis.Decompile.Ir.Rewrite.{some-injective}
use dis.Types.{DataType}
use dis.Decompile.Ir.Opcode.{Opcode}
use dis.Decompile.Ir.Def.{CompareWidth, byte, word}
use dis.Decompile.Ir.Value.{wrap, one_if, signed_below, compare_signed, eval_2}
use dis.Decompile.Opt.Fold.{
  i16_lt, truth, is_word_type, is_bool_type, signed_values, signed_test, when, when_bool, folded,
}

i16_lt_lem : (a b : ℕ) → a < 2 ^ 16 → b < 2 ^ 16 → i16_lt a b ≡ signed_below (2 ^ 16) a b
i16_lt_lem a b p q = ground arith

byte_lt_lem : (a b : ℕ) → i16_lt (sext (a % 2 ^ 8)) (sext (b % 2 ^ 8)) ≡ signed_below (2 ^ 8) a b
byte_lt_lem a b = ground arith

-- A signed comparison reads the two orders of the widened values.
signed_test_lem :
    (g : Bool → Bool → Bool) (w : Option CompareWidth) (a b : ℕ)
    → a < 2 ^ 16
    → b < 2 ^ 16
    → signed_test (λ x y. g (i16_lt x y) (i16_lt y x)) (signed_values w a b)
      ≡ compare_signed g w a b
signed_test_lem g none a b p q = refl
signed_test_lem g (some byte) a b p q =
    ap₂ (λ s t. some (truth (g s t))) (byte_lt_lem a b) (byte_lt_lem b a)
signed_test_lem g (some word) a b p q =
    ap₂ (λ s t. some (truth (g s t))) (i16_lt_lem a b p q) (i16_lt_lem b a q p)

truth_small : (b : Bool) → truth b < 2 ^ 16
truth_small true = omega arith
truth_small false = omega arith

compare_small :
    (g : Bool → Bool → Bool) (w : Option CompareWidth) (a b k : ℕ)
    → compare_signed g w a b ≡ some k
    → k < 2 ^ 16
compare_small g none a b k h = absurd (cc)
compare_small g (some byte) a b k h =
    subst (λ n. n < 2 ^ 16) (some-injective h)
      (truth_small (g (signed_below (2 ^ 8) a b) (signed_below (2 ^ 8) b a)))
compare_small g (some word) a b k h =
    subst (λ n. n < 2 ^ 16) (some-injective h)
      (truth_small (g (signed_below (2 ^ 16) a b) (signed_below (2 ^ 16) b a)))

-- The folded value is the operation's, and a word.
abbrev IsFolded : Opcode → DataType → Option CompareWidth → ℕ → ℕ → ℕ → Type 0
IsFolded op t w a b k = (eval_2 op t w a b ≡ some k) × (k < 2 ^ 16)

when_bool-some : (t : DataType) (o : Option ℕ) (k : ℕ) → when_bool t o ≡ some k → o ≡ some k
when_bool-some t o k h = elim (Bool-cases (is_bool_type t)) [
  | inl e ↦ sym (ap (λ c. if c then o else none) e) ∙ h
  | inr e ↦ absurd (let no : none ≡ some k = sym (ap (λ c. if c then o else none) e) ∙ h in cc)
]

-- A wrapped sum, and a bit operation, at a type of 16 bits.
when-wrap :
    (t : DataType) (v u k : ℕ)
    → u ≡ v % 2 ^ 16
    → when (is_word_type t) u ≡ some k
    → (wrap t v ≡ some k) × (k < 2 ^ 16)
when-wrap DataType.u16 v u k e h =
    (ap some (sym e ∙ some-injective h), (let same = some-injective h in omega arith))
when-wrap DataType.i16 v u k e h =
    (ap some (sym e ∙ some-injective h), (let same = some-injective h in omega arith))
when-wrap _ v u k e h = absurd (cc)

when_bits :
    (t : DataType) (v k : ℕ)
    → v < 2 ^ 16
    → when (is_word_type t) v ≡ some k
    → (some v ≡ some k) × (k < 2 ^ 16)
when_bits DataType.u16 v k l h = (h, subst (λ n. n < 2 ^ 16) (some-injective h) l)
when_bits DataType.i16 v k l h = (h, subst (λ n. n < 2 ^ 16) (some-injective h) l)
when_bits _ v k l h = absurd (cc)

-- An unsigned comparison.
when_truth :
    (t : DataType) (s u : Bool) (k : ℕ)
    → s ≡ u
    → when_bool t (some (truth s)) ≡ some k
    → (some (one_if u) ≡ some k) × (k < 2 ^ 16)
when_truth t s u k e h =
    let found = when_bool-some t (some (truth s)) k h in
    (
      ap (λ c. some (one_if c)) (sym e) ∙ found,
      subst (λ n. n < 2 ^ 16) (some-injective found) (truth_small s),
    )

when_signed :
    (g : Bool → Bool → Bool) (t : DataType) (w : Option CompareWidth) (a b k : ℕ)
    → a < 2 ^ 16
    → b < 2 ^ 16
    → when_bool t (signed_test (λ x y. g (i16_lt x y) (i16_lt y x)) (signed_values w a b)) ≡ some k
    → (compare_signed g w a b ≡ some k) × (k < 2 ^ 16)
when_signed g t w a b k p q h =
    let found =
      sym (signed_test_lem g w a b p q)
      ∙ when_bool-some t (signed_test (λ x y. g (i16_lt x y) (i16_lt y x)) (signed_values w a b)) k
          h in
    (found, compare_small g w a b k found)

leb_not : (a b : ℕ) → leb a b ≡ not (ltb b a)
leb_not a b = ground arith

pub folded_lem :
    (op : Opcode) (t : DataType) (w : Option CompareWidth) (a b k : ℕ)
    → a < 2 ^ 16
    → b < 2 ^ 16
    → folded op t w a b ≡ some k
    → IsFolded op t w a b k
unfolding folded eval_2
folded_lem Opcode.add t w a b k p q h = when-wrap t (a + b) (u16 (a + b)) k refl h
folded_lem Opcode.sub t w a b k p q h =
    when-wrap t (a + 2 ^ 32 - b) (u16 (a + 2 ^ 16 - b)) k (omega arith) h
folded_lem Opcode.and t w a b k p q h = when_bits t (bit_and a b) k (bit_and_bound 16 a b p q) h
folded_lem Opcode.or t w a b k p q h = when_bits t (bit_or a b) k (bit_or_bound 16 a b p q) h
folded_lem Opcode.xor t w a b k p q h = when_bits t (bit_xor a b) k (bit_xor_bound 16 a b p q) h
folded_lem Opcode.eq t w a b k p q h = when_truth t (a == b) (a == b) k refl h
folded_lem Opcode.neq t w a b k p q h = when_truth t (not (a == b)) (not (a == b)) k refl h
folded_lem Opcode.lt t w a b k p q h = when_signed (λ below above. below) t w a b k p q h
folded_lem Opcode.leq t w a b k p q h = when_signed (λ below above. not above) t w a b k p q h
folded_lem Opcode.gt t w a b k p q h = when_signed (λ below above. above) t w a b k p q h
folded_lem Opcode.geq t w a b k p q h = when_signed (λ below above. not below) t w a b k p q h
folded_lem Opcode.ult t w a b k p q h = when_truth t (ltb a b) (ltb a b) k refl h
folded_lem Opcode.uleq t w a b k p q h = when_truth t (leb a b) (not (ltb b a)) k (leb_not a b) h
folded_lem Opcode.ugt t w a b k p q h = when_truth t (ltb b a) (ltb b a) k refl h
folded_lem Opcode.ugeq t w a b k p q h = when_truth t (leb b a) (not (ltb a b)) k (leb_not b a) h
folded_lem _ t w a b k p q h = absurd (cc)
