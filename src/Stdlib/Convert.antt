-- ===== src/Stdlib/Convert.antt =====
-- c/rt/stdlib.c: strtol and the functions on top of it. A string is the list of its bytes, without the
-- terminator; bytes from 0x80 on are no digits, whatever the sign of a char.
pub mod Numeral
pub mod Short
pub mod Value
use mellivora_os.Base.{
  add-one, ℕ, zero, suc, ◌+◌, ◌-◌, ◌*◌, ◌/◌, ◌%◌, ◌^◌, ◌≤◌, ◌<◌, min, bit_and, bit_or, ◌≡◌, refl,
  sym, ap, ◌∙◌, subst, fun_ext, ◌≢◌, ◌↔◌, ◌⊎◌, inl, inr, Bool, true, false, ◌&&◌, ◌||◌, not, Option,
  none, some, List, [], ◌∷◌, ◌++◌, map, append-nil, append_assoc, arith, dec_lt, ℕ_discrete, ltb,
  leb, ◌==◌, if◌then◌else◌, ltb→lt, lt→ltb, leb→le, ==_iff, tests, Bool-cases, Option-cases, length,
  get_elem?, set, length-append, get_or, take, drop, replicate, take-append-drop, length-take,
  length-drop, length-replicate, length-map, All, All-append, All-drop, drop-append_length, and_ten,
  u8, u16, u32, first, rest_of,
}
use mellivora_os.Base.Int.{ℤ, pos, negsuc, pos_part, neg_part}
use mellivora_os.Base.Signed.{to_u32}

-- `in_range c lo hi`: `c >= lo && c <= hi`.
abbrev pub in_range : ℕ → ℕ → ℕ → Bool
in_range c lo hi = leb lo c && leb c hi

unfoldable pub digit_value : ℕ → ℕ
digit_value c =
    if in_range c 48 57
    then c - 48
    else if in_range c 97 122
    then c - 97 + 10
    else if in_range c 65 90
    then c - 65 + 10
    else 99

abbrev pub is_space : ℕ → Bool
is_space c = c == 32 || c == 9 || c == 10 || c == 13 || c == 11 || c == 12

unfoldable pub skip_space : List ℕ → List ℕ
skip_space [] = []
skip_space (c ∷ s) = let rest = skip_space s in if is_space c then rest else c ∷ s

-- What the loop over the digits has: the value, a `u32`, the digits seen, and the rest of the string.
pub record Digits : Type 0 where
  pub value : ℕ
  pub count : ℕ
  pub rest : List ℕ

unfoldable pub digits_loop : ℕ → ℕ → ℕ → List ℕ → Digits
digits_loop base value count [] = record { value = value; count = count; rest = [] }
digits_loop base value count (c ∷ s) =
    let d = digit_value c in
    let further = digits_loop base (u32 (value * base + d)) (count + 1) s in
    if leb base d then record { value = value; count = count; rest = c ∷ s } else further

-- The sign, and the string behind it.
abbrev pub sign_of : List ℕ → Bool × List ℕ
sign_of [] = (false, [])
sign_of (c ∷ s) = if c == 43 || c == 45 then (c == 45, s) else (false, c ∷ s)

-- The base that is read in, and the string behind its prefix.
abbrev pub base_of : ℕ → List ℕ → ℕ × List ℕ
base_of base p =
    if (base == 0 || base == 16)
      && (first p == 48
          && ((first (rest_of p) == 120 || first (rest_of p) == 88)
              && ltb (digit_value (first (rest_of (rest_of p)))) 16))
    then (16, rest_of (rest_of p))
    else if base == 0 && first p == 48
    then (8, p)
    else if base == 0
    then (10, p)
    else (base, p)

-- A `u32` as a `long`, which has 32 bits too.
abbrev pub as_long : ℕ → ℤ
as_long v = if ltb v 0x80000000 then pos v else negsuc (0xFFFFFFFF - v)

-- `endptr` is the rest of the string; `invalid`: `errno` is set to EINVAL.
pub record Number : Type 0 where
  pub value : ℤ
  pub endptr : List ℕ
  pub invalid : Bool

abbrev pub number_of : List ℕ → Bool → Digits → Number
number_of s negative d =
    if d.count == 0 then record { value = pos 0; endptr = s; invalid = true } else record {
      value = as_long (if negative then u32 (0x100000000 - d.value) else d.value);
      endptr = d.rest;
      invalid = false;
    }

-- The digits to the base, behind its prefix.
unfoldable pub read_digits : List ℕ → Bool → ℕ × List ℕ → Number
read_digits s negative (radix, p) = number_of s negative (digits_loop radix 0 0 p)

unfoldable pub read_signed : List ℕ → ℕ → Bool × List ℕ → Number
read_signed s base (negative, p) = read_digits s negative (base_of base p)

unfoldable pub strtol : List ℕ → ℕ → Number
strtol s base = read_signed s base (sign_of (skip_space s))

unfoldable pub atol : List ℕ → ℤ
atol s = (strtol s 10).value

-- An `unsigned long` has the 32 bits of the `long`, the `long long` its value, and an
-- `unsigned long long` the 64 bits of that.
abbrev pub strtoul : List ℕ → ℕ → ℕ
strtoul s base = to_u32 (strtol s base).value

abbrev pub strtoll : List ℕ → ℕ → ℤ
strtoll s base = (strtol s base).value

abbrev pub strtoull : List ℕ → ℕ → ℕ
strtoull s base =
    (pos_part (strtol s base).value + (2 ^ 64 - neg_part (strtol s base).value)) % 2 ^ 64

abbrev pub atoll : List ℕ → ℤ
atoll s = (strtol s 10).value
