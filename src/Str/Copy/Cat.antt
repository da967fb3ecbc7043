-- ===== src/Str/Copy/Cat.antt =====
-- c/rt/string.c: a concatenation leaves both strings in the destination, one behind the other.
use mellivora_os.Base.{
  ℕ, zero, suc, ◌+◌, ◌≤◌, ◌<◌, ◌≡◌, refl, sym, ◌∙◌, subst, ◌⊎◌, true, false, some, List, [], ◌∷◌,
  ◌++◌, arith, ◌==◌, length, take,
}
use mellivora_os.Str.Memory.{Memory, store}
use mellivora_os.Str.Copy.{strcpy, strcat, strncat, strncat_loop}
use mellivora_os.Str.Copy.Laws.{IsString, IsString-store, strlen_at_lem}

-- What a copy to `d` leaves: the string at `d`, and the memory below `d` as it was.
abbrev Leaves : Memory → ℕ → List ℕ → Memory → Type 0
Leaves m d xs m' = IsString m' d xs × ((q : ℕ) → q < d → m' q ≡ m q)

Leaves-end : (m : Memory) (d : ℕ) → Leaves m d [] (store m d 0)
unfolding store
Leaves-end m d = (ground arith, λ q h. ground arith)

Leaves-cons :
    (m : Memory) (d x : ℕ) (xs : List ℕ) (m' : Memory)
    → 0 < x
    → Leaves (store m d x) (d + 1) xs m'
    → Leaves m d (x ∷ xs) m'
unfolding store
Leaves-cons m d x xs m' h (k, same) =
    ((ground (arith, same d (omega arith)), h, k), λ q l. ground (arith, same q (omega arith)))

strcpy-Leaves :
    (xs : List ℕ) (fuel : ℕ) (m : Memory) (d s : ℕ)
    → IsString m s xs
    → length xs < fuel
    → (d ≤ s) ⊎ (s + length xs < d)
    → (m' : Memory) × (strcpy fuel m d s ≡ some m') × Leaves m d xs m'
unfolding strcpy
strcpy-Leaves xs zero m d s h k l = elim k [ ]
strcpy-Leaves [] (suc fuel) m d s h k l =
    let e : (m s == 0) ≡ true = ground arith in (store m d 0, rw (e, h), Leaves-end m d)
strcpy-Leaves (x ∷ xs) (suc fuel) m d s (e0, pos', h) k l =
    let e : (m s == 0) ≡ false = ground arith in
    let (m', r, leaves) =
      strcpy-Leaves xs fuel (store m d x) (d + 1) (s + 1)
        (IsString-store m (s + 1) xs d x h (omega arith)) (omega arith) (omega arith) in
    (m', rw (e, e0) r, Leaves-cons m d x xs m' pos' leaves)

strncat-Leaves :
    (xs : List ℕ) (n : ℕ) (m : Memory) (d s : ℕ)
    → IsString m s xs
    → (d ≤ s) ⊎ (s + length xs < d)
    → Leaves m d (take n xs) (strncat_loop n m d s)
unfolding strncat_loop
strncat-Leaves xs zero m d s h l = Leaves-end m d
strncat-Leaves [] (suc n) m d s h l =
    let e : (m s == 0) ≡ true = ground arith in rw e (Leaves-end m d)
strncat-Leaves (x ∷ xs) (suc n) m d s (e0, pos', h) l =
    let e : (m s == 0) ≡ false = ground arith in
    let step : strncat_loop (suc n) m d s ≡ strncat_loop n (store m d x) (d + 1) (s + 1) =
      rw (e, e0) in
    subst (Leaves m d (x ∷ take n xs)) (sym step) (
      Leaves-cons m d x (take n xs) _ pos' (
        strncat-Leaves xs n (store m d x) (d + 1) (s + 1)
          (IsString-store m (s + 1) xs d x h (omega arith)) (omega arith)))

glue :
    (ys xs : List ℕ) (m m' : Memory) (p q : ℕ)
    → IsString m p ys
    → q ≡ p + length ys
    → Leaves m q xs m'
    → IsString m' p (ys ++ xs)
glue [] xs m m' p q h e (k, same) = let e' : q ≡ p = omega arith in rw e' at k
glue (y ∷ ys) xs m m' p q h e leaves =
    (leaves.1 p (omega arith) ∙ h.0, h.1, glue ys xs m m' (p + 1) q h.2 (omega arith) leaves)

-- `strcat` ends, and leaves the two strings one behind the other, where the source does not
-- overlap what is stored.
pub strcat_lem :
    (xs ys : List ℕ) (fuel : ℕ) (m : Memory) (dst src : ℕ)
    → IsString m dst ys
    → IsString m src xs
    → length xs < fuel
    → length ys < fuel
    → (dst + length ys ≤ src) ⊎ (src + length xs < dst + length ys)
    → (m' : Memory) × (strcat fuel m dst src ≡ some m') × IsString m' dst (ys ++ xs)
unfolding strcat
strcat_lem xs ys fuel m dst src h k l l' apart =
    let (m', r, leaves) = strcpy-Leaves xs fuel m (dst + length ys) src k l apart in
    (m', rw (strcat, strlen_at_lem ys fuel m dst h l', r), glue ys xs m m' dst _ h refl leaves)

-- `strncat` ends, appends at most `n` bytes of the source and always stores a terminator.
pub strncat_lem :
    (xs ys : List ℕ) (fuel : ℕ) (m : Memory) (dst src n : ℕ)
    → IsString m dst ys
    → IsString m src xs
    → length ys < fuel
    → (dst + length ys ≤ src) ⊎ (src + length xs < dst + length ys)
    → (m' : Memory) × (strncat fuel m dst src n ≡ some m') × IsString m' dst (ys ++ take n xs)
unfolding strncat
strncat_lem xs ys fuel m dst src n h k l apart = (
  strncat_loop n m (dst + length ys) src,
  rw (strncat, strlen_at_lem ys fuel m dst h l),
  glue ys (take n xs) m _ dst _ h refl (strncat-Leaves xs n m (dst + length ys) src k apart),
)
