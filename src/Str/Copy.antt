-- ===== src/Str/Copy.antt =====
-- c/rt/string.c: strcpy, strncpy, strcat, strncat and strxfrm over the memory of bytes.
-- A loop that runs up to a terminator takes the number of bytes that it may read; `none` means
-- that this fuel ran out.
pub mod Laws
pub mod Cat
use mathlib.Core.Option
use mellivora_os.Base.{
  add-one, ℕ, zero, suc, ◌+◌, ◌-◌, ◌*◌, ◌/◌, ◌%◌, ◌^◌, ◌≤◌, ◌<◌, min, bit_and, bit_or, ◌≡◌, refl,
  sym, ap, ◌∙◌, subst, fun_ext, ◌≢◌, ◌↔◌, ◌⊎◌, inl, inr, Bool, true, false, ◌&&◌, ◌||◌, not, Option,
  none, some, List, [], ◌∷◌, ◌++◌, map, append-nil, append_assoc, arith, dec_lt, ℕ_discrete, ltb,
  leb, ◌==◌, if◌then◌else◌, ltb→lt, lt→ltb, leb→le, ==_iff, tests, Bool-cases, Option-cases, length,
  get_elem?, set, length-append, get_or, take, drop, replicate, take-append-drop, length-take,
  length-drop, length-replicate, length-map, All, All-append, All-drop, drop-append_length, and_ten,
  u8, u16, u32, first, rest_of,
}
use mellivora_os.Str.Memory.{Memory, store, memcpy, fill}

pub strlen_at : ℕ → Memory → ℕ → Option ℕ
strlen_at zero m s = none
strlen_at (suc fuel) m s =
    let more = Option.map suc (strlen_at fuel m (s + 1)) in if m s == 0 then some 0 else more

-- `while ((*d++ = *src++) != 0)`.
pub strcpy : ℕ → Memory → ℕ → ℕ → Option Memory
strcpy zero m d s = none
strcpy (suc fuel) m d s =
    let more = strcpy fuel (store m d (m s)) (d + 1) (s + 1) in
    if m s == 0 then some (store m d (m s)) else more

-- Both loops of `strncpy`, with the rounds left.
pub strncpy : Memory → ℕ → ℕ → ℕ → Memory
strncpy m d s zero = m
strncpy m d s (suc n) =
    let padded = fill (suc n) m d 0 in
    let more = strncpy (store m d (m s)) (d + 1) (s + 1) n in if m s == 0 then padded else more

pub strcat : ℕ → Memory → ℕ → ℕ → Option Memory
strcat fuel m dst src = elim (strlen_at fuel m dst) [
  | none ↦ none
  | some n ↦ strcpy fuel m (dst + n) src
]

-- `while (n-- != 0 && *src != 0) *d++ = *src++; *d = 0`.
pub strncat_loop : ℕ → Memory → ℕ → ℕ → Memory
strncat_loop zero m d s = store m d 0
strncat_loop (suc n) m d s =
    let more = strncat_loop n (store m d (m s)) (d + 1) (s + 1) in
    if m s == 0 then store m d 0 else more

pub strncat : ℕ → Memory → ℕ → ℕ → ℕ → Option Memory
strncat fuel m dst src n = elim (strlen_at fuel m dst) [
  | none ↦ none
  | some k ↦ some (strncat_loop n m (dst + k) src)
]

-- `dst` is 0 for the null pointer; the result is the memory and the length of the source.
pub strxfrm : ℕ → Memory → ℕ → ℕ → ℕ → Option (Memory × ℕ)
strxfrm fuel m dst src n = elim (strlen_at fuel m src) [
  | none ↦ none
  | some len ↦
      let copy = if ltb len (n - 1) then len else n - 1 in
      if not (dst == 0) && ltb 0 n
      then some (store (memcpy m dst src copy) (dst + copy) 0, len)
      else some (m, len)
]
