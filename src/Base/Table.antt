-- ===== src/Base/Table.antt =====
-- Facts about bit operations on a byte or a small field, checked value by value.
use Prim.Native.Nat.{ℕ, zero, suc, ◌+◌, ◌*◌, ◌/◌, ◌%◌, ◌<◌, bit_and, bit_or}
use mathlib.Core.Path.{◌≡◌, refl}
use mathlib.Core.Bool.{Bool, true, ◌&&◌}
use native.Mathlib.Omega.{arith}
use mellivora_os.Base.Cmp.{◌==◌}

-- Whether two functions agree below a bound.
module _ (f g : ℕ → ℕ) where
  same_below : ℕ → Bool
  same_below zero = true
  same_below (suc n) = f n == g n && same_below n

  same_below_sound : (n : ℕ) → same_below n ≡ true → (i : ℕ) → i < n → f i ≡ g i
  unfolding same_below
  same_below_sound zero e i h = absurd (omega arith)
  same_below_sound (suc n) e i h = ground (arith, same_below_sound n (ground arith) i)

-- The masks of the UTF-8 lead and continuation bytes, in plain arithmetic.
pub and_e0 : (b : ℕ) → b < 256 → bit_and b 0xE0 ≡ b / 32 * 32
unfolding same_below
and_e0 = same_below_sound _ _ 256 refl

pub and_f0 : (b : ℕ) → b < 256 → bit_and b 0xF0 ≡ b / 16 * 16
unfolding same_below
and_f0 = same_below_sound _ _ 256 refl

pub and_f8 : (b : ℕ) → b < 256 → bit_and b 0xF8 ≡ b / 8 * 8
unfolding same_below
and_f8 = same_below_sound _ _ 256 refl

pub and_c0 : (b : ℕ) → b < 256 → bit_and b 0xC0 ≡ b / 64 * 64
unfolding same_below
and_c0 = same_below_sound _ _ 256 refl

pub and_3f : (b : ℕ) → b < 256 → bit_and b 0x3F ≡ b % 64
unfolding same_below
and_3f = same_below_sound _ _ 256 refl

pub and_1f : (b : ℕ) → b < 256 → bit_and b 0x1F ≡ b % 32
unfolding same_below
and_1f = same_below_sound _ _ 256 refl

pub and_0f : (b : ℕ) → b < 256 → bit_and b 0x0F ≡ b % 16
unfolding same_below
and_0f = same_below_sound _ _ 256 refl

pub and_07 : (b : ℕ) → b < 256 → bit_and b 0x07 ≡ b % 8
unfolding same_below
and_07 = same_below_sound _ _ 256 refl

pub or_80 : (b : ℕ) → b < 64 → bit_or 0x80 b ≡ 128 + b
unfolding same_below
or_80 = same_below_sound _ _ 64 refl

pub or_c0 : (b : ℕ) → b < 32 → bit_or 0xC0 b ≡ 192 + b
unfolding same_below
or_c0 = same_below_sound _ _ 32 refl

pub or_e0 : (b : ℕ) → b < 16 → bit_or 0xE0 b ≡ 224 + b
unfolding same_below
or_e0 = same_below_sound _ _ 16 refl

pub or_f0 : (b : ℕ) → b < 16 → bit_or 0xF0 b ≡ 240 + b
unfolding same_below
or_f0 = same_below_sound _ _ 16 refl
