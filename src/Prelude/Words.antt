-- ===== src/Prelude/Words.antt =====
-- Machine words as native numbers: a u16 wraps by `% 2 ^ 16`.
use Prim.Native.Nat.{ℕ, zero, suc, ◌+◌, ◌*◌, ◌/◌, ◌%◌, ◌^◌, ◌≤◌, ◌<◌, max}
use Prim.Native.Nat.{bit_or, digits, bit_or-bitwise}
use mathlib.Core.Path.{◌≡◌, refl}
use native.Mathlib.Nat.{pow-suc}
use native.Mathlib.Omega.{arith}
use dis.Prelude.Tests.{ltb, if◌then◌else◌}

-- `as u16`
abbrev pub u16 : ℕ → ℕ
u16 n = n % 2 ^ 16

-- `wrapping_add` on u16
abbrev pub wrapping_add : ℕ → ℕ → ℕ
wrapping_add a b = u16 (a + b)

-- `b as i8 as i16 as u16`
abbrev pub sext : ℕ → ℕ
sext b = if ltb b 0x80 then b else b + 0xff00

-- `(high as u16) << 8 | (low as u16)`
abbrev pub word : ℕ → ℕ → ℕ
word high low = bit_or (u16 (high * 2 ^ 8)) low

-- The digit recursion of the bit operations does not depend on its fuel.
module _ (z : ℕ → ℕ) (f : ℕ → ℕ → ℕ) where
  fuel_irrelevant : (k l a b : ℕ) → a ≤ k → a ≤ l → digits z f k a b ≡ digits z f l a b
  fuel_irrelevant zero zero a b p q = refl
  fuel_irrelevant zero (suc l) zero b p q = refl
  fuel_irrelevant zero (suc l) (suc a) b p q = absurd (omega arith)
  fuel_irrelevant (suc k) zero zero b p q = refl
  fuel_irrelevant (suc k) zero (suc a) b p q = absurd (omega arith)
  fuel_irrelevant (suc k) (suc l) zero b p q = refl
  fuel_irrelevant (suc k) (suc l) (suc a) b p q =
      omega (arith, fuel_irrelevant k l (suc a / 2) (b / 2) (omega arith) (omega arith))

zero-bit_or : (b : ℕ) → bit_or 0 b ≡ b
zero-bit_or b = bit_or-bitwise 0 b

bit_or_halves : (a b : ℕ) → bit_or a b ≡ bit_or (a / 2) (b / 2) * 2 + max (a % 2) (b % 2)
bit_or_halves zero b = omega (arith, zero-bit_or b, zero-bit_or (b / 2))
bit_or_halves (suc a) b = omega (
  arith,
  bit_or-bitwise (suc a) b,
  bit_or-bitwise (suc a / 2) (b / 2),
  fuel_irrelevant (λ y. y) max a (suc a / 2) (suc a / 2) (b / 2) (omega arith) (omega arith),
)

bit_or-zero_bounded : (k a : ℕ) → a ≤ k → bit_or a 0 ≡ a
bit_or-zero_bounded k zero h = refl
bit_or-zero_bounded zero (suc a) h = absurd (omega arith)
bit_or-zero_bounded (suc k) (suc a) h =
    omega (arith, bit_or_halves (suc a) 0, bit_or-zero_bounded k (suc a / 2) (omega arith))

-- A field of zero bits below `a` is filled by `b`.
bit_or_double : (a b : ℕ) → bit_or (a * 2) b ≡ bit_or a (b / 2) * 2 + b % 2
bit_or_double a b =
    let e : a * 2 / 2 ≡ a = omega arith in rw (bit_or_halves (a * 2) b, e) (omega arith)

half_lt : (b n : ℕ) → b < n * 2 → b / 2 < n
half_lt b n h = omega arith

pub bit_or_fields : (k a b : ℕ) → b < 2 ^ k → bit_or (a * 2 ^ k) b ≡ a * 2 ^ k + b
bit_or_fields zero a b h =
    let none_set : b ≡ 0 = omega arith in
    rw none_set (omega (arith, bit_or-zero_bounded (a * 1) (a * 1) (omega arith)))
bit_or_fields (suc k) a b h =
    let split : a * 2 ^ suc k ≡ a * 2 ^ k * 2 = rw (pow-suc 2 k) (omega arith) in
    rw split (
      omega (
        arith,
        bit_or_double (a * 2 ^ k) b,
        bit_or_fields k a (b / 2) (half_lt b (2 ^ k) (rw (pow-suc 2 k) at h)),
      ))

-- A word is its two bytes.
pub word_lem : (high low : ℕ) → high < 2 ^ 8 → low < 2 ^ 8 → word high low ≡ high * 2 ^ 8 + low
word_lem high low h k =
    let e : u16 (high * 2 ^ 8) ≡ high * 2 ^ 8 = omega arith in rw e (bit_or_fields 8 high low k)

-- Case analysis on a number of three bits.
pub below_eight {ℓ} :
    (P : ℕ → Type ℓ) → P 0 → P 1 → P 2 → P 3 → P 4 → P 5 → P 6 → P 7 → (n : ℕ) → n < 8 → P n
below_eight P p q r s t u v w zero h = p
below_eight P p q r s t u v w (suc zero) h = q
below_eight P p q r s t u v w (suc (suc zero)) h = r
below_eight P p q r s t u v w (suc (suc (suc zero))) h = s
below_eight P p q r s t u v w (suc (suc (suc (suc zero)))) h = t
below_eight P p q r s t u v w (suc (suc (suc (suc (suc zero))))) h = u
below_eight P p q r s t u v w (suc (suc (suc (suc (suc (suc zero)))))) h = v
below_eight P p q r s t u v w (suc (suc (suc (suc (suc (suc (suc zero))))))) h = w
below_eight P p q r s t u v w (suc (suc (suc (suc (suc (suc (suc (suc n)))))))) h =
    absurd (omega arith)
