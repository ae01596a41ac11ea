-- ===== src/Paging/Bits.antt =====
-- `|` with a small number changes the low bits only.
use Prim.Native.Nat.{
  ℕ, zero, suc, ◌+◌, ◌*◌, ◌/◌, ◌%◌, ◌≤◌, ◌<◌, max, bit_or, digits, bit_or-bitwise,
}
use mathlib.Core.Path.{◌≡◌, refl, sym, ap, ◌∙◌}
use native.Mathlib.Omega.{arith}

-- The recursion over digits that the native operation stands for
abbrev or_digits : ℕ → ℕ → ℕ → ℕ
or_digits n a b = digits (λ b. b) max n a b

or_digits_fuel : (n k a b : ℕ) → a ≤ n → a ≤ k → or_digits n a b ≡ or_digits k a b
or_digits_fuel zero zero a b p q = refl
or_digits_fuel zero (suc k) zero b p q = refl
or_digits_fuel zero (suc k) (suc a) b p q = absurd (omega arith)
or_digits_fuel (suc n) zero zero b p q = refl
or_digits_fuel (suc n) zero (suc a) b p q = absurd (omega arith)
or_digits_fuel (suc n) (suc k) zero b p q = refl
or_digits_fuel (suc n) (suc k) (suc a) b p q =
    omega (arith, or_digits_fuel n k (suc a / 2) (b / 2) (omega arith) (omega arith))

zero-bit_or : (b : ℕ) → bit_or 0 b ≡ b
zero-bit_or b = bit_or-bitwise 0 b

bit_or_step : (a b : ℕ) → bit_or a b ≡ bit_or (a / 2) (b / 2) * 2 + max (a % 2) (b % 2)
bit_or_step zero b = omega (arith, zero-bit_or b, zero-bit_or (b / 2))
bit_or_step (suc a) b = omega (
  arith,
  bit_or-bitwise (suc a) b,
  bit_or-bitwise (suc a / 2) (b / 2),
  or_digits_fuel a (suc a / 2) (suc a / 2) (b / 2) (omega arith) (omega arith),
)

bit_or-zero_fuel : (n a : ℕ) → a ≤ n → bit_or a 0 ≡ a
bit_or-zero_fuel n zero h = zero-bit_or 0
bit_or-zero_fuel zero (suc a) h = absurd (omega arith)
bit_or-zero_fuel (suc n) (suc a) h =
    omega (arith, bit_or_step (suc a) 0, bit_or-zero_fuel n (suc a / 2) (omega arith))

pub bit_or-zero : (a : ℕ) → bit_or a 0 ≡ a
bit_or-zero a = bit_or-zero_fuel a a (omega arith)

-- Half of an `|` is the `|` of the halves.
half-bit_or : (a b : ℕ) → bit_or a b / 2 ≡ bit_or (a / 2) (b / 2)
half-bit_or a b = omega (arith, bit_or_step a b)

-- The same for a power of two, a digit at a time
abbrev halves : ℕ → ℕ → ℕ
halves zero a = a
halves (suc n) a = halves n (a / 2)

halves-bit_or : (n a b : ℕ) → halves n (bit_or a b) ≡ bit_or (halves n a) (halves n b)
halves-bit_or zero a b = refl
halves-bit_or (suc n) a b = ap (halves n) (half-bit_or a b) ∙ halves-bit_or n (a / 2) (b / 2)

-- A number below 2 ^ 12 leaves the bits from there on as they are.
pub div-bit_or : (a b : ℕ) → b < 4096 → bit_or a b / 4096 ≡ a / 4096
div-bit_or a b small =
    twelve (bit_or a b)
    ∙ halves-bit_or 12 a b
    ∙ ap (bit_or (halves 12 a)) none_left
    ∙ bit_or-zero (halves 12 a)
    ∙ sym (twelve a)
  where
    none_left : halves 12 b ≡ 0
    none_left = omega arith

    twelve : (x : ℕ) → x / 4096 ≡ halves 12 x
    twelve x = omega arith

pub bit_or-lt : (a b : ℕ) → a < 4096 → b < 4096 → bit_or a b < 4096
bit_or-lt a b ha hb = omega (arith, div-bit_or a b hb)

-- Bit 8 of an `|`
pub bit-bit_or : (a b : ℕ) → bit_or a b / 256 % 2 ≡ max (a / 256 % 2) (b / 256 % 2)
bit-bit_or a b =
    ap (λ x. x % 2) (eight (bit_or a b) ∙ halves-bit_or 8 a b)
    ∙ omega (arith, bit_or_step (halves 8 a) (halves 8 b), eight a, eight b)
  where
    eight : (x : ℕ) → x / 256 ≡ halves 8 x
    eight x = omega arith
