-- ===== src/Stdlib/Numbers.antt =====
-- c/rt/stdlib.c: abs, srand and rand. A `long` is an `int`, and labs is abs.
use mellivora_os.Base.Int.{ℤ, pos, ltb_ℤ, ◌-ℤ◌}
use mellivora_os.Base.Signed.{i32}
use mellivora_os.Base.{ℕ, ◌+◌, ◌*◌, ◌/◌, bit_and, ◌==◌, if◌then◌else◌, u32}

-- The least `int` stays as it is.
unfoldable pub absolute : ℤ → ℤ
absolute v = if ltb_ℤ v (pos 0) then i32 (pos 0 -ℤ v) else v

-- `rand_state`, 32 bits.
unfoldable pub srand : ℕ → ℕ
srand seed = if seed == 0 then 1 else seed

-- RAND_MAX is 0x7FFFFFFF.
unfoldable pub rand : ℕ → ℕ × ℕ
rand rand_state =
    let next = u32 (rand_state * 1664525 + 1013904223) in (bit_and (next / 2) 0x7FFFFFFF, next)
