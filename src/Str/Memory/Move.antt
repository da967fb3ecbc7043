-- ===== src/Str/Memory/Move.antt =====
-- c/rt/string.c: what the copies and fills leave at every address.
use mellivora_os.Base.{
  ℕ, zero, suc, ◌+◌, ◌-◌, ◌≤◌, ◌<◌, ◌≡◌, sym, ap, ◌∙◌, ◌⊎◌, ◌&&◌, arith, ltb, leb, if◌then◌else◌,
  u8,
}
use mellivora_os.Str.Memory.{Memory, store, copy_up, copy_down, memcpy, memmove, memset, fill}

-- The memory after a copy: the bytes of the source as they were, elsewhere nothing new.
abbrev pub moved : Memory → ℕ → ℕ → ℕ → Memory
moved m dst src n = λ q. if leb dst q && ltb q (dst + n) then m (src + (q - dst)) else m q

read_up : (m : Memory) (d s q : ℕ) → d < q → m (s + 1 + (q - (d + 1))) ≡ m (s + (q - d))
read_up m d s q h = ap m (omega arith)

read_first : (m : Memory) (d s q : ℕ) → q ≡ d → m (s + (q - d)) ≡ m s
read_first m d s q h = ap m (omega arith)

copy_up_lem :
    (n : ℕ) (m : Memory) (d s q : ℕ) → (d ≤ s) ⊎ (s + n ≤ d) → copy_up n m d s q ≡ moved m d s n q
unfolding copy_up store
copy_up_lem zero m d s q h = ground arith
copy_up_lem (suc n) m d s q h = ground (
  arith,
  copy_up_lem n (store m d (m s)) (d + 1) (s + 1) q (omega arith),
  read_up m d s q,
  read_first m d s q,
)

read_last : (m : Memory) (d s n q : ℕ) → q ≡ d + n → m (s + n) ≡ m (s + (q - d))
read_last m d s n q h = ap m (omega arith)

copy_down_lem :
    (n : ℕ) (m : Memory) (d s q : ℕ) → s ≤ d → copy_down n m (d + n) (s + n) q ≡ moved m d s n q
unfolding copy_down store
copy_down_lem zero m d s q h = ground arith
copy_down_lem (suc n) m d s q h =
    let e : d + suc n - 1 ≡ d + n = omega arith in
    let e' : s + suc n - 1 ≡ s + n = omega arith in
    rw (e, e')
      (ground (arith, copy_down_lem n (store m (d + n) (m (s + n))) d s q h, read_last m d s n q))

read_here : (m : Memory) (d s q : ℕ) → d ≡ s → d ≤ q → m (s + (q - d)) ≡ m q
read_here m d s q e h = ap m (omega arith)

-- Whatever the overlap, after `memmove` the destination holds what the source held before the
-- call, and every other address is as it was.
pub memmove_lem : (m : Memory) (dst src n q : ℕ) → memmove m dst src n q ≡ moved m dst src n q
unfolding memmove
memmove_lem m dst src n q =
    ground (arith, read_here m dst src q, copy_up_lem n m dst src q, copy_down_lem n m dst src q)

-- `memcpy` does the same where the destination starts at or below the source, or behind its end.
pub memcpy_lem :
    (m : Memory) (dst src n q : ℕ)
    → (dst ≤ src) ⊎ (src + n ≤ dst)
    → memcpy m dst src n q ≡ memmove m dst src n q
unfolding memcpy
memcpy_lem m dst src n q h = copy_up_lem n m dst src q h ∙ sym (memmove_lem m dst src n q)

fill_lem :
    (n : ℕ) (m : Memory) (d c q : ℕ)
    → fill n m d c q ≡ (if leb d q && ltb q (d + n) then u8 c else m q)
unfolding fill store
fill_lem zero m d c q = ground arith
fill_lem (suc n) m d c q = ground (arith, fill_lem n (store m d (u8 c)) (d + 1) c q)

-- `memset` stores the low byte of `c` in the block and nowhere else.
pub memset_lem :
    (m : Memory) (s c n q : ℕ) → memset m s c n q ≡ (if leb s q && ltb q (s + n) then u8 c else m q)
unfolding memset
memset_lem m s c n q = fill_lem n m s c q
