-- ===== src/Base/Signed.antt =====
-- `i32` arithmetic of C on this machine: quotients are cut towards zero, and what does not fit wraps.
use mellivora_os.Base.Int.{ℤ, pos, negsuc, pos_part, neg_part, sub_ℕ, ◌+ℤ◌, ◌-ℤ◌}
use mellivora_os.Base.{
  ℕ, suc, ◌+◌, ◌-◌, ◌*◌, ◌/◌, ◌%◌, ◌≤◌, ◌<◌, ◌≡◌, arith, ltb, if◌then◌else◌, u32,
}

abbrev pub neg_ℕ : ℕ → ℤ
neg_ℕ n = sub_ℕ 0 n

-- z * k
unfoldable pub scale_ℤ : ℤ → ℕ → ℤ
scale_ℤ (pos n) k = pos (n * k)
scale_ℤ (negsuc n) k = neg_ℕ (suc n * k)

unfoldable pub quot_ℤ : ℤ → ℕ → ℤ
quot_ℤ (pos n) k = pos (n / k)
quot_ℤ (negsuc n) k = neg_ℕ (suc n / k)

unfoldable pub rem_ℤ : ℤ → ℕ → ℤ
rem_ℤ (pos n) k = pos (n % k)
rem_ℤ (negsuc n) k = neg_ℕ (suc n % k)

-- The bits of a number of any sign.
unfoldable pub to_u32 : ℤ → ℕ
to_u32 z = (pos_part z + (0x100000000 - neg_part z % 0x100000000)) % 0x100000000

-- Those bits as a signed number.
unfoldable pub to_i32 : ℕ → ℤ
to_i32 n = if ltb (u32 n) 0x80000000 then pos (u32 n) else negsuc (0xFFFFFFFF - u32 n)

unfoldable pub i32 : ℤ → ℤ
i32 z = to_i32 (to_u32 z)

abbrev pub IsI32 : ℤ → Type 0
IsI32 z = (pos_part z < 0x80000000) × (neg_part z ≤ 0x80000000)

pub i32-IsI32 : (z : ℤ) → IsI32 (i32 z)
unfolding i32 to_i32
i32-IsI32 z = ground arith

pub i32-id : (z : ℤ) → IsI32 z → i32 z ≡ z
unfolding i32 to_i32 to_u32
i32-id z h = ground arith

-- Sums may be taken before or after the wrap.
pub i32-add_sub : (a b : ℤ) → IsI32 a → i32 (i32 (a +ℤ b) -ℤ b) ≡ a
unfolding i32 to_i32 to_u32 ◌+ℤ◌ ◌-ℤ◌
i32-add_sub a b h = ground arith

pub to_u32-pos : (n : ℕ) → n < 0x100000000 → to_u32 (pos n) ≡ n
unfolding to_u32
to_u32-pos n h = omega arith
