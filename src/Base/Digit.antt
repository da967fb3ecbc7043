-- ===== src/Base/Digit.antt =====
-- `&` and `|` at any width: the law of the lowest binary digit, and six digits at once.
use Prim.Native.Nat.{
  ℕ, zero, suc, ◌+◌, ◌*◌, ◌/◌, ◌%◌, ◌≤◌, ◌<◌, min, max, bit_and, bit_or, digits, bit_and-bitwise,
  bit_or-bitwise,
}
use mathlib.Core.Path.{◌≡◌, refl, ap}
use native.Mathlib.Omega.{arith}

-- More fuel than the number has digits changes nothing.
module _ (ends : ℕ → ℕ) (op : ℕ → ℕ → ℕ) where
  more_fuel : (n m a b : ℕ) → a ≤ n → n ≤ m → digits ends op m a b ≡ digits ends op n a b
  more_fuel zero zero a b h k = refl
  more_fuel zero (suc m) zero b h k = refl
  more_fuel (suc n) (suc m) zero b h k = refl
  more_fuel (suc n) (suc m) (suc a) b h k =
      ap (λ t. t * 2 + op (suc a % 2) (b % 2))
        (more_fuel n m (suc a / 2) (b / 2) (omega arith) (omega arith))
  more_fuel zero (suc m) (suc a) b h k = absurd (omega arith)
  more_fuel (suc n) zero a b h k = absurd (omega arith)

  lowest :
      (a b : ℕ)
      → digits ends op (suc a) (suc a) b
        ≡ digits ends op (suc a / 2) (suc a / 2) (b / 2) * 2 + op (suc a % 2) (b % 2)
  lowest a b =
      ap (λ t. t * 2 + op (suc a % 2) (b % 2))
        (more_fuel (suc a / 2) a (suc a / 2) (b / 2) (omega arith) (omega arith))

pub and_digit : (a b : ℕ) → bit_and a b ≡ bit_and (a / 2) (b / 2) * 2 + min (a % 2) (b % 2)
and_digit zero b = omega (arith, bit_and-bitwise 0 b, bit_and-bitwise 0 (b / 2))
and_digit (suc a) b = omega (
  arith,
  bit_and-bitwise (suc a) b,
  bit_and-bitwise (suc a / 2) (b / 2),
  lowest (λ (t : ℕ). 0) min a b,
)

pub or_digit : (a b : ℕ) → bit_or a b ≡ bit_or (a / 2) (b / 2) * 2 + max (a % 2) (b % 2)
or_digit zero b = omega (arith, bit_or-bitwise 0 b, bit_or-bitwise 0 (b / 2))
or_digit (suc a) b = omega (
  arith,
  bit_or-bitwise (suc a) b,
  bit_or-bitwise (suc a / 2) (b / 2),
  lowest (λ (t : ℕ). t) max a b,
)

and_nothing : (n a : ℕ) → a ≤ n → bit_and a 0 ≡ 0
and_nothing n zero h = refl
and_nothing zero (suc a) h = absurd (omega arith)
and_nothing (suc n) (suc a) h =
    omega (arith, and_digit (suc a) 0, and_nothing n (suc a / 2) (omega arith))

or_nothing : (n a : ℕ) → a ≤ n → bit_or a 0 ≡ a
or_nothing n zero h = refl
or_nothing zero (suc a) h = absurd (omega arith)
or_nothing (suc n) (suc a) h =
    omega (arith, or_digit (suc a) 0, or_nothing n (suc a / 2) (omega arith))

-- x & 0x3F, at any x.
pub and_six : (a : ℕ) → bit_and a 0x3F ≡ a % 64
and_six a = omega (
  arith,
  and_digit a 63,
  and_digit (a / 2) 31,
  and_digit (a / 2 / 2) 15,
  and_digit (a / 2 / 2 / 2) 7,
  and_digit (a / 2 / 2 / 2 / 2) 3,
  and_digit (a / 2 / 2 / 2 / 2 / 2) 1,
  and_nothing (a / 2 / 2 / 2 / 2 / 2 / 2) (a / 2 / 2 / 2 / 2 / 2 / 2) (omega arith),
)

-- x & 0x3FF, at any x.
pub and_ten : (a : ℕ) → bit_and a 0x3FF ≡ a % 1024
and_ten a = omega (
  arith,
  and_digit a 1023,
  and_digit (a / 2) 511,
  and_digit (a / 2 / 2) 255,
  and_digit (a / 2 / 2 / 2) 127,
  and_six (a / 2 / 2 / 2 / 2),
)

or_double : (q r k : ℕ) → bit_or (q * (2 * k)) r ≡ bit_or (q * k) (r / 2) * 2 + r % 2
or_double q r k = omega (
  arith,
  or_digit (q * (2 * k)) r,
  ap (λ (t : ℕ). bit_or t (r / 2)) (let e : q * (2 * k) / 2 ≡ q * k = omega arith in e),
)

-- (q << 6) | r, where r has six bits.
pub or_six : (q r : ℕ) → r < 64 → bit_or (q * 64) r ≡ q * 64 + r
or_six q r h = omega (
  arith,
  or_double q r 32,
  or_double q (r / 2) 16,
  or_double q (r / 2 / 2) 8,
  or_double q (r / 2 / 2 / 2) 4,
  or_double q (r / 2 / 2 / 2 / 2) 2,
  or_double q (r / 2 / 2 / 2 / 2 / 2) 1,
  or_nothing q q (omega arith),
  ap (λ (t : ℕ). bit_or (q * 1) t) (let e : r / 2 / 2 / 2 / 2 / 2 / 2 ≡ 0 = omega arith in e),
  ap (λ (t : ℕ). bit_or t 0) (let e : q * 1 ≡ q = omega arith in e),
)
