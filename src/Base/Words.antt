-- ===== src/Base/Words.antt =====
-- The casts to the fixed widths, and reads through a pointer into a string.
use Prim.Native.Nat.{ℕ, ◌%◌, ◌^◌}
use mathlib.Core.List.{List, [], ◌∷◌}

abbrev pub u8 : ℕ → ℕ
u8 n = n % 2 ^ 8

abbrev pub u16 : ℕ → ℕ
u16 n = n % 2 ^ 16

abbrev pub u32 : ℕ → ℕ
u32 n = n % 2 ^ 32

-- `*s`, where the list holds what stands before the terminator.
abbrev pub first : List ℕ → ℕ
first [] = 0
first (c ∷ s) = c

-- `s + 1`.
abbrev pub rest_of : List ℕ → List ℕ
rest_of [] = []
rest_of (c ∷ s) = s
