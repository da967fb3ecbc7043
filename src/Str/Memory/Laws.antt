-- ===== src/Str/Memory/Laws.antt =====
-- c/rt/string.c: `memcmp` and `memchr` find the first byte that differs, or that fits.
use mellivora_os.Base.{
  ℕ, zero, suc, ◌+◌, ◌<◌, ◌≡◌, refl, sym, ap, ◌∙◌, ◌≢◌, ◌⊎◌, inl, inr, none, some, List, [], ◌∷◌,
  arith, ◌==◌, ==_iff, Bool-cases, All, u8,
}
use mellivora_os.Base.Int.{pos, ◌-ℤ◌}
use mellivora_os.Str.Memory.{Memory, memcmp, memcmp_loop, memchr, memchr_loop}

-- The `n` bytes from an address on.
abbrev pub bytes : Memory → ℕ → ℕ → List ℕ
bytes m p zero = []
bytes m p (suc n) = m p ∷ bytes m (p + 1) n

-- The first difference of two blocks, `i` bytes in.
abbrev pub DiffersAt : Memory → ℕ → ℕ → ℕ → Type 0
DiffersAt m a b i = (bytes m a i ≡ bytes m b i) × (m (a + i) ≢ m (b + i))

memcmp_loop_lem :
    (n : ℕ) (m : Memory) (a b : ℕ)
    → ((memcmp_loop n m a b ≡ pos 0) × (bytes m a n ≡ bytes m b n))
      ⊎ ((i : ℕ) × (i < n)
          × DiffersAt m a b i
          × (memcmp_loop n m a b ≡ pos (m (a + i)) -ℤ pos (m (b + i))))
unfolding memcmp_loop
memcmp_loop_lem zero m a b = inl (refl, refl)
memcmp_loop_lem (suc n) m a b = elim (Bool-cases (m a == m b)) [
  | inl same ↦ rw same (go ((==_iff _ _).0 same) (memcmp_loop_lem n m (a + 1) (b + 1)))
  | inr other ↦
      rw other (inr (0, omega arith, (refl, ground (arith, here a, here b)), rw (here a, here b)))
]
  where
    here : (p : ℕ) → m (p + 0) ≡ m p
    here p = ap m (omega arith)

    next : (p i : ℕ) → m (p + 1 + i) ≡ m (p + suc i)
    next p i = ap m (omega arith)

    go :
        m a ≡ m b
        → ((memcmp_loop n m (a + 1) (b + 1) ≡ pos 0) × (bytes m (a + 1) n ≡ bytes m (b + 1) n))
          ⊎ ((i : ℕ) × (i < n)
              × DiffersAt m (a + 1) (b + 1) i
              × (memcmp_loop n m (a + 1) (b + 1) ≡ pos (m (a + 1 + i)) -ℤ pos (m (b + 1 + i))))
        → ((memcmp_loop n m (a + 1) (b + 1) ≡ pos 0) × (bytes m a (suc n) ≡ bytes m b (suc n)))
          ⊎ ((i : ℕ) × (i < suc n)
              × DiffersAt m a b i
              × (memcmp_loop n m (a + 1) (b + 1) ≡ pos (m (a + i)) -ℤ pos (m (b + i))))
    go e0 (inl (z, e)) = inl (z, cc)
    go e0 (inr (i, h, (e, d), r)) = inr (
      suc i,
      omega arith,
      (cc, λ p. d (next a i ∙ p ∙ sym (next b i))),
      rw (← next a i, ← next b i) r,
    )

-- `memcmp` is 0 on equal blocks, and otherwise the difference of the first two bytes that differ.
pub memcmp_lem :
    (m : Memory) (a b n : ℕ)
    → ((memcmp m a b n ≡ pos 0) × (bytes m a n ≡ bytes m b n))
      ⊎ ((i : ℕ) × (i < n)
          × DiffersAt m a b i
          × (memcmp m a b n ≡ pos (m (a + i)) -ℤ pos (m (b + i))))
unfolding memcmp
memcmp_lem m a b n = memcmp_loop_lem n m a b

memchr_loop_lem :
    (n : ℕ) (m : Memory) (s c : ℕ)
    → ((memchr_loop n m s c ≡ none) × All (λ v. v ≢ u8 c) (bytes m s n))
      ⊎ ((i : ℕ) × (i < n)
          × (memchr_loop n m s c ≡ some (s + i))
          × (m (s + i) ≡ u8 c)
          × All (λ v. v ≢ u8 c) (bytes m s i))
unfolding memchr_loop
memchr_loop_lem zero m s c = inl (refl, tt)
memchr_loop_lem (suc n) m s c = elim (Bool-cases (m s == u8 c)) [
  | inl same ↦
      rw same
        (inr (0, omega arith, ap some (omega arith), ap m (omega arith) ∙ (==_iff _ _).0 same, tt))
  | inr other ↦ rw other (go (ground arith) (memchr_loop_lem n m (s + 1) c))
]
  where
    next : (i : ℕ) → s + 1 + i ≡ s + suc i
    next i = omega arith

    go :
        m s ≢ u8 c
        → ((memchr_loop n m (s + 1) c ≡ none) × All (λ v. v ≢ u8 c) (bytes m (s + 1) n))
          ⊎ ((i : ℕ) × (i < n)
              × (memchr_loop n m (s + 1) c ≡ some (s + 1 + i))
              × (m (s + 1 + i) ≡ u8 c)
              × All (λ v. v ≢ u8 c) (bytes m (s + 1) i))
        → ((memchr_loop n m (s + 1) c ≡ none) × All (λ v. v ≢ u8 c) (bytes m s (suc n)))
          ⊎ ((i : ℕ) × (i < suc n)
              × (memchr_loop n m (s + 1) c ≡ some (s + i))
              × (m (s + i) ≡ u8 c)
              × All (λ v. v ≢ u8 c) (bytes m s i))
    go skipped (inl (e, h)) = inl (e, (skipped, h))
    go skipped (inr (i, l, e, f, h)) =
        inr (suc i, omega arith, e ∙ ap some (next i), ap m (sym (next i)) ∙ f, (skipped, h))

-- `memchr` gives the first address of the block that holds the byte, and null if there is none.
pub memchr_lem :
    (m : Memory) (s c n : ℕ)
    → ((memchr m s c n ≡ none) × All (λ v. v ≢ u8 c) (bytes m s n))
      ⊎ ((i : ℕ) × (i < n)
          × (memchr m s c n ≡ some (s + i))
          × (m (s + i) ≡ u8 c)
          × All (λ v. v ≢ u8 c) (bytes m s i))
unfolding memchr
memchr_lem m s c n = memchr_loop_lem n m s c
