-- ===== src/Str/Memory.antt =====
-- c/rt/string.c: memcpy, memmove, memset, bzero, memcmp and memchr over a memory of bytes.
-- A pointer is its address; no object reaches the end of the address space, so no sum wraps.
pub mod Laws
pub mod Move
use mellivora_os.Base.{
  ℕ, zero, suc, ◌+◌, ◌-◌, ◌*◌, ◌/◌, ◌%◌, ◌^◌, ◌≤◌, ◌<◌, min, bit_and, bit_or, ◌≡◌, refl, sym, ap,
  ◌∙◌, subst, fun_ext, ◌≢◌, ◌↔◌, ◌⊎◌, inl, inr, Bool, true, false, ◌&&◌, ◌||◌, not, Option, none,
  some, List, [], ◌∷◌, ◌++◌, map, append-nil, append_assoc, arith, dec_lt, ℕ_discrete, ltb, leb,
  ◌==◌, if◌then◌else◌, ltb→lt, lt→ltb, leb→le, ==_iff, tests, Bool-cases, Option-cases, length,
  get_elem?, set, length-append, get_or, take, drop, replicate, take-append-drop, length-take,
  length-drop, length-replicate, length-map, All, All-append, All-drop, drop-append_length, and_ten,
  u8, u16, u32, first, rest_of,
}
use mellivora_os.Base.Int.{ℤ, pos, ◌-ℤ◌}

abbrev pub Memory : Type 0
Memory = ℕ → ℕ

-- `*p = v`.
unfoldable pub store : Memory → ℕ → ℕ → Memory
store m p v = λ q. if q == p then v else m q

-- The loop `while (n--) *d++ = *s++`.
unfoldable pub copy_up : ℕ → Memory → ℕ → ℕ → Memory
copy_up zero m d s = m
copy_up (suc n) m d s = copy_up n (store m d (m s)) (d + 1) (s + 1)

-- The loop `while (n--) *--d = *--s`.
unfoldable pub copy_down : ℕ → Memory → ℕ → ℕ → Memory
copy_down zero m d s = m
copy_down (suc n) m d s = copy_down n (store m (d - 1) (m (s - 1))) (d - 1) (s - 1)

unfoldable pub memcpy : Memory → ℕ → ℕ → ℕ → Memory
unfolding copy_up
memcpy m dst src n = copy_up n m dst src

unfoldable pub memmove : Memory → ℕ → ℕ → ℕ → Memory
memmove m dst src n =
    if dst == src || n == 0
    then m
    else if ltb dst src
    then copy_up n m dst src
    else copy_down n m (dst + n) (src + n)

unfoldable pub fill : ℕ → Memory → ℕ → ℕ → Memory
fill zero m d c = m
fill (suc n) m d c = fill n (store m d (u8 c)) (d + 1) c

unfoldable pub memset : Memory → ℕ → ℕ → ℕ → Memory
memset m dst c n = fill n m dst c

pub bzero : Memory → ℕ → ℕ → Memory
unfolding memset
bzero m s n = memset m s 0 n

pub memcmp_loop : ℕ → Memory → ℕ → ℕ → ℤ
memcmp_loop zero m p q = pos 0
memcmp_loop (suc n) m p q =
    let more = memcmp_loop n m (p + 1) (q + 1) in
    if m p == m q then more else pos (m p) -ℤ pos (m q)

pub memcmp : Memory → ℕ → ℕ → ℕ → ℤ
unfolding memcmp_loop
memcmp m a b n = memcmp_loop n m a b

-- The address found, or the null pointer.
pub memchr_loop : ℕ → Memory → ℕ → ℕ → Option ℕ
memchr_loop zero m p c = none
memchr_loop (suc n) m p c =
    let more = memchr_loop n m (p + 1) c in if m p == u8 c then some p else more

pub memchr : Memory → ℕ → ℕ → ℕ → Option ℕ
unfolding memchr_loop
memchr m s c n = memchr_loop n m s c
