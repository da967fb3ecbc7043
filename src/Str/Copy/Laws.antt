-- ===== src/Str/Copy/Laws.antt =====
-- c/rt/string.c: a copy of a string is a block copy of its bytes and its terminator.
use mellivora_os.Base.{
  ℕ, zero, suc, ◌+◌, ◌-◌, ◌≤◌, ◌<◌, min, ◌≡◌, refl, ap, ◌∙◌, ◌⊎◌, true, false, some, List, [], ◌∷◌,
  arith, ◌==◌, length,
}
use mellivora_os.Str.Memory.{Memory, store, memcpy, fill, copy_up, memset}
use mellivora_os.Str.Copy.{strlen_at, strcpy, strncpy}

-- The string `xs` stands at `p`, with its terminator behind it.
abbrev pub IsString : Memory → ℕ → List ℕ → Type 0
IsString m p [] = m p ≡ 0
IsString m p (x ∷ xs) = (m p ≡ x) × (0 < x) × IsString m (p + 1) xs

-- A store outside the string leaves it alone.
pub IsString-store :
    (m : Memory) (p : ℕ) (xs : List ℕ) (d v : ℕ)
    → IsString m p xs
    → (d < p) ⊎ (p + length xs < d)
    → IsString (store m d v) p xs
unfolding store
IsString-store m p [] d v h k = ground arith
IsString-store m p (x ∷ xs) d v h k =
    (ground arith, h.1, IsString-store m (p + 1) xs d v h.2 (omega arith))

pub strlen_at_lem :
    (xs : List ℕ) (fuel : ℕ) (m : Memory) (p : ℕ)
    → IsString m p xs
    → length xs < fuel
    → strlen_at fuel m p ≡ some (length xs)
unfolding strlen_at
strlen_at_lem xs zero m p h k = elim k [ ]
strlen_at_lem [] (suc fuel) m p h k = ground arith
strlen_at_lem (x ∷ xs) (suc fuel) m p h k =
    let e : (m p == 0) ≡ false = ground (arith, h.0, h.1) in
    rw (e, strlen_at_lem xs fuel m (p + 1) h.2 (omega arith))

strcpy-copy_up :
    (xs : List ℕ) (fuel : ℕ) (m : Memory) (d s : ℕ)
    → IsString m s xs
    → length xs < fuel
    → (d ≤ s) ⊎ (s + length xs < d)
    → strcpy fuel m d s ≡ some (copy_up (suc (length xs)) m d s)
unfolding strcpy copy_up
strcpy-copy_up xs zero m d s h k l = elim k [ ]
strcpy-copy_up [] (suc fuel) m d s h k l = let e : (m s == 0) ≡ true = ground arith in rw e
strcpy-copy_up (x ∷ xs) (suc fuel) m d s h k l =
    let e : (m s == 0) ≡ false = ground (arith, h.0, h.1) in
    rw e (
      strcpy-copy_up xs fuel (store m d (m s)) (d + 1) (s + 1)
        (IsString-store m (s + 1) xs d (m s) h.2 (omega arith)) (omega arith) (omega arith))

-- With a byte of fuel for each byte and the terminator, `strcpy` ends and is `memcpy` of the
-- string and its terminator, where the destination starts at or below the source or behind it.
pub strcpy-memcpy :
    (xs : List ℕ) (fuel : ℕ) (m : Memory) (d s : ℕ)
    → IsString m s xs
    → length xs < fuel
    → (d ≤ s) ⊎ (s + length xs < d)
    → strcpy fuel m d s ≡ some (memcpy m d s (length xs + 1))
unfolding memcpy
strcpy-memcpy xs fuel m d s h k l =
    strcpy-copy_up xs fuel m d s h k l ∙ ap (λ n. some (copy_up n m d s)) one
  where
    one : suc (length xs) ≡ length xs + 1
    one = omega arith

strncpy_parts :
    (xs : List ℕ) (m : Memory) (d s n k pad a : ℕ)
    → IsString m s xs
    → (d ≤ s) ⊎ (s + length xs < d)
    → k ≡ min n (length xs)
    → pad ≡ n - length xs
    → a ≡ d + k
    → strncpy m d s n ≡ fill pad (copy_up k m d s) a 0
unfolding strncpy copy_up fill
strncpy_parts xs m d s zero k pad a h l ek ep ea =
    let k0 : k ≡ 0 = omega arith in let p0 : pad ≡ 0 = omega arith in rw (k0, p0)
strncpy_parts [] m d s (suc n) k pad a h l ek ep ea =
    let k0 : k ≡ 0 = omega arith in
    let p0 : pad ≡ suc n = omega arith in
    let a0 : a ≡ d = omega arith in let e : (m s == 0) ≡ true = ground arith in rw (k0, p0, a0, e)
strncpy_parts (x ∷ xs) m d s (suc n) k pad a h l ek ep ea =
    let e : (m s == 0) ≡ false = ground (arith, h.0, h.1) in
    let k0 : k ≡ suc (k - 1) = omega arith in
    rw (k0, e)
      (strncpy_parts xs (store m d (m s)) (d + 1) (s + 1) n (k - 1) pad a
        (IsString-store m (s + 1) xs d (m s) h.2 (omega arith)) (omega arith) (omega arith)
        (omega arith) (omega arith))

-- `strncpy` is `memcpy` of the string, cut to `n` bytes, and zeros up to the `n`-th byte; it
-- stores no terminator where the string has `n` bytes or more.
pub strncpy-memcpy :
    (xs : List ℕ) (m : Memory) (d s n : ℕ)
    → IsString m s xs
    → (d ≤ s) ⊎ (s + length xs < d)
    → strncpy m d s n
      ≡ memset (memcpy m d s (min n (length xs))) (d + min n (length xs)) 0 (n - length xs)
unfolding memcpy memset
strncpy-memcpy xs m d s n h l =
    strncpy_parts xs m d s n (min n (length xs)) (n - length xs) _ h l refl refl refl
