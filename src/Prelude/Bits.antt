-- ===== src/Prelude/Bits.antt =====
-- Bit operations on equal words, on zero, and their bounds.
use Prim.Native.Nat.{
  ℕ, zero, suc, ◌/◌, ◌%◌, ◌^◌, ◌≤◌, ◌<◌, min, max, differ, digits, bit_and, bit_or, bit_xor,
  bit_and-bitwise, bit_or-bitwise, bit_xor-bitwise,
}
use mathlib.Core.Path.{◌≡◌, refl}
use native.Mathlib.Nat.{pow-suc}
use native.Mathlib.Omega.{arith}

differ_self : (x : ℕ) → differ x x ≡ 0
differ_self zero = refl
differ_self (suc x) = differ_self x

differ_bit : (x y : ℕ) → x < 2 → y < 2 → differ x y < 2
differ_bit zero y h k = omega arith
differ_bit (suc zero) zero h k = omega arith
differ_bit (suc zero) (suc zero) h k = omega arith
differ_bit (suc zero) (suc (suc y)) h k = absurd (omega arith)
differ_bit (suc (suc x)) y h k = absurd (omega arith)

xor_self : (n a : ℕ) → a ≤ n → digits (λ y. y) differ n a a ≡ 0
xor_self zero a h = omega arith
xor_self (suc n) zero h = refl
xor_self (suc n) (suc a) h =
    omega (arith, xor_self n (suc a / 2) (omega arith), differ_self (suc a % 2))

or_self : (n a : ℕ) → a ≤ n → digits (λ y. y) max n a a ≡ a
or_self zero a h = refl
or_self (suc n) zero h = refl
or_self (suc n) (suc a) h = omega (arith, or_self n (suc a / 2) (omega arith))

pub bit_xor_self : (a : ℕ) → bit_xor a a ≡ 0
bit_xor_self a = omega (arith, bit_xor-bitwise a a, xor_self a a (omega arith))

pub bit_or_self : (a : ℕ) → bit_or a a ≡ a
bit_or_self a = omega (arith, bit_or-bitwise a a, or_self a a (omega arith))

or_zero : (n a b : ℕ) → a ≤ n → digits (λ y. y) max n a b ≡ 0 → (a ≡ 0) × (b ≡ 0)
or_zero zero a b h e = (omega arith, e)
or_zero (suc n) zero b h e = (refl, e)
or_zero (suc n) (suc a) b h e =
    let halves = or_zero n (suc a / 2) (b / 2) (omega arith) (omega arith) in
    (omega (arith, halves.0), omega (arith, halves.0, halves.1))

pub bit_or-eq-zero : (a b : ℕ) → bit_or a b ≡ 0 → (a ≡ 0) × (b ≡ 0)
bit_or-eq-zero a b h = or_zero a a b (omega arith) (omega (arith, bit_or-bitwise a b))

-- An operation on digits does not need more digits than its operands.
module _ (z : ℕ → ℕ) (f : ℕ → ℕ → ℕ) (rest : (y : ℕ) → z y ≤ y)
    (bit : (x y : ℕ) → x < 2 → y < 2 → f x y < 2) where
  digits_bound : (n k a b : ℕ) → a < 2 ^ k → b < 2 ^ k → digits z f n a b < 2 ^ k
  digits_bound zero k a b p q = omega (arith, rest b)
  digits_bound (suc n) k zero b p q = omega (arith, rest b)
  digits_bound (suc n) zero (suc a) b p q = absurd (omega arith)
  digits_bound (suc n) (suc k) (suc a) b p q =
      let double = pow-suc 2 k in
      let half =
        digits_bound n k (suc a / 2) (b / 2) (omega (arith, double)) (omega (arith, double)) in
      omega (arith, double, half, bit (suc a % 2) (b % 2) (omega arith) (omega arith))

pub bit_and_bound : (k a b : ℕ) → a < 2 ^ k → b < 2 ^ k → bit_and a b < 2 ^ k
bit_and_bound k a b p q = omega (
  arith,
  bit_and-bitwise a b,
  digits_bound (λ y. zero) min (λ y. omega arith) (λ x y h l. omega arith) a k a b p q,
)

pub bit_or_bound : (k a b : ℕ) → a < 2 ^ k → b < 2 ^ k → bit_or a b < 2 ^ k
bit_or_bound k a b p q = omega (
  arith,
  bit_or-bitwise a b,
  digits_bound (λ y. y) max (λ y. omega arith) (λ x y h l. omega arith) a k a b p q,
)

pub bit_xor_bound : (k a b : ℕ) → a < 2 ^ k → b < 2 ^ k → bit_xor a b < 2 ^ k
bit_xor_bound k a b p q = omega (
  arith,
  bit_xor-bitwise a b,
  digits_bound (λ y. y) differ (λ y. omega arith) differ_bit a k a b p q,
)
