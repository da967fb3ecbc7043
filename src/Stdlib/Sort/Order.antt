-- ===== src/Stdlib/Sort/Order.antt =====
-- `qsort` with a scratch: that it sorts, round by round.
use mellivora_os.Stdlib.Sort.{merge, merge_pass, merge_loop, is_before}
use mellivora_os.Stdlib.Sort.Laws.{
  take-short, drop-short, take-append_length, merge_left, merge_right, length-merge,
  length-merge_pass, drop-drop,
}
use mellivora_os.Base.Int.{ℤ, pos, ltb_ℤ}
use mellivora_os.Base.{
  ℕ, zero, suc, ◌+◌, ◌≤◌, ◌<◌, ◌≡◌, refl, subst, ◌⊎◌, inl, inr, Bool, true, false, not, List, [],
  ◌∷◌, ◌++◌, append-nil, arith, dec_lt, ltb, tests, Bool-cases, length, take, drop, length-take,
  length-drop, All, drop-append_length,
}

-- What the comparison has to be: its sign turns over with its arguments, and it is transitive.
pub record IsOrder {ℓ} {A : Type ℓ} (cmp : A → A → ℤ) : Type ℓ where
  pub flip : (a b : A) → ltb_ℤ (pos 0) (cmp a b) ≡ is_before cmp b a
  pub asym : (a b : A) → is_before cmp a b ≡ true → is_before cmp b a ≡ false
  pub trans :
      (a b c : A)
      → is_before cmp b a ≡ false
      → is_before cmp c b ≡ false
      → is_before cmp c a ≡ false

module _ {ℓ} {A : Type ℓ} (cmp : A → A → ℤ) where
  abbrev pub Below : A → A → Type 0
  Below a b = is_before cmp b a ≡ false

  -- No element comes before one that stands to its left.
  abbrev pub IsSorted : List A → Type 0
  IsSorted [] = Unit
  IsSorted (x ∷ l) = All (Below x) l × IsSorted l

  -- The first `n` runs of `w` elements are sorted.
  abbrev pub Runs : ℕ → ℕ → List A → Type 0
  Runs zero w l = Unit
  Runs (suc n) w l = IsSorted (take w l) × Runs n w (drop w l)

module _ {ℓ} {A : Type ℓ} (cmp : A → A → ℤ) (order : IsOrder cmp) where
  pub All-Below_trans :
      (a b : A) (l : List A) → Below cmp a b → All (Below cmp b) l → All (Below cmp a) l
  All-Below_trans a b [] h all = tt
  All-Below_trans a b (x ∷ l) h (hx, all) = (order.trans a b x h hx, All-Below_trans a b l h all)

  All-merge : (P : A → Type 0) (l r : List A) → All P l → All P r → All P (merge cmp l r)
  unfolding merge
  All-merge P [] r hl hr = hr
  All-merge P (x ∷ l) [] hl hr = hl
  All-merge P (x ∷ l) (y ∷ r) (hx, hl) (hy, hr) = elim (Bool-cases (is_before cmp y x)) [
    | inl h ↦ rw (merge_right cmp x y l r h) (hy, All-merge P (x ∷ l) r (hx, hl) hr)
    | inr h ↦ rw (merge_left cmp x y l r h) (hx, All-merge P l (y ∷ r) hl (hy, hr))
  ]

  pub merge-IsSorted :
      (l r : List A) → IsSorted cmp l → IsSorted cmp r → IsSorted cmp (merge cmp l r)
  unfolding merge
  merge-IsSorted [] r hl hr = hr
  merge-IsSorted (x ∷ l) [] hl hr = hl
  merge-IsSorted (x ∷ l) (y ∷ r) (hx, hl) (hy, hr) = elim (Bool-cases (is_before cmp y x)) [
    | inl h ↦ rw (merge_right cmp x y l r h) (
      All-merge (Below cmp y) (x ∷ l) r
          (order.asym y x h, All-Below_trans y x l (order.asym y x h) hx) hy,
      merge-IsSorted (x ∷ l) r (hx, hl) hr,
    )
    | inr h ↦ rw (merge_left cmp x y l r h) (
      All-merge (Below cmp x) l (y ∷ r) hx (h, All-Below_trans x y r h hy),
      merge-IsSorted l (y ∷ r) hl (hy, hr),
    )
  ]

  Runs-nil : (n w : ℕ) → Runs cmp n w []
  Runs-nil zero w = tt
  Runs-nil (suc n) w =
      let none_left : List A = [] in
      rw (take-short w none_left (omega arith), drop-short w none_left (omega arith))
        (tt, Runs-nil n w)

  -- Where a full run, or the last one, is followed by the others.
  Runs-append :
      (n w : ℕ) (run l : List A)
      → IsSorted cmp run
      → Runs cmp n w l
      → (length run ≡ w) ⊎ ((l ≡ []) × (length run ≤ w))
      → Runs cmp (suc n) w (run ++ l)
  Runs-append n w run l sorted runs (inl e) =
      subst (λ k. IsSorted cmp (take k (run ++ l)) × Runs cmp n w (drop k (run ++ l))) e
        (rw (take-append_length run l, drop-append_length run l) (sorted, runs))
  Runs-append n w run l sorted runs (inr (e, h)) =
      rw (e, append-nil run, take-short w run h, drop-short w run h) (sorted, Runs-nil n w)

  merge_pass-nil : (fuel w : ℕ) (l : List A) → l ≡ [] → merge_pass cmp fuel w l ≡ []
  unfolding merge_pass
  merge_pass-nil fuel w l e = rw e refl

  -- A pass leaves sorted runs of twice the width.
  pub merge_pass-Runs :
      (fuel n w : ℕ) (l : List A)
      → 0 < w
      → length l ≤ fuel
      → Runs cmp (n + n) w l
      → Runs cmp n (w + w) (merge_pass cmp fuel w l)
  unfolding merge_pass
  merge_pass-Runs fuel zero w l h enough runs = tt
  merge_pass-Runs fuel (suc n) w [] h enough runs = Runs-nil (suc n) (w + w)
  merge_pass-Runs zero (suc n) w (x ∷ l) h enough runs = absurd (omega arith)
  merge_pass-Runs (suc fuel) (suc n) w (x ∷ l) h enough runs =
      let all = x ∷ l in
      let rest = drop (w + w) all in
      let two : Runs cmp (suc (suc (n + n))) w all =
        subst (λ k. Runs cmp k w all) {y = suc (suc (n + n))} (omega arith) runs in
      let behind : Runs cmp (n + n) w rest =
        subst (Runs cmp (n + n) w) (drop-drop w w all) two.1.1 in
      let size = length-merge cmp (take w all) (take w (drop w all)) in
      Runs-append n (w + w) (merge cmp (take w all) (take w (drop w all)))
        (merge_pass cmp fuel w rest)
        (merge-IsSorted (take w all) (take w (drop w all)) two.0 two.1.0)
        (merge_pass-Runs fuel n w rest h (omega (arith, length-drop (w + w) all)) behind)
        (elim (dec_lt (length all) (w + w)) [
          | yes short ↦ inr (
            merge_pass-nil fuel w rest (drop-short (w + w) all (omega arith)),
            omega (arith, size, length-take w all, length-take w (drop w all)),
          )
          | no long ↦ inl (
              omega (arith, size, length-take w all, length-take w (drop w all), length-drop w all))
        ])

  pub short-IsSorted : (l : List A) → length l ≤ 1 → IsSorted cmp l
  short-IsSorted [] h = tt
  short-IsSorted (x ∷ []) h = (tt, tt)
  short-IsSorted (x ∷ y ∷ l) h = absurd (omega arith)

  pub Runs-one : (n : ℕ) (l : List A) → Runs cmp n 1 l
  Runs-one zero l = tt
  Runs-one (suc n) l =
      (short-IsSorted (take 1 l) (omega (arith, length-take 1 l)), Runs-one n (drop 1 l))

  -- The loop over the width ends with one run: `fuel` doublings are enough where the width and the
  -- fuel reach the length.
  pub merge_loop-IsSorted :
      (fuel w : ℕ) (b : Bool) (l : List A)
      → 0 < w
      → length l ≤ w + fuel
      → ((n : ℕ) → Runs cmp n w l)
      → IsSorted cmp (merge_loop cmp fuel w b l).items
  unfolding merge_loop
  merge_loop-IsSorted zero w b l h enough runs =
      subst (IsSorted cmp) (take-short w l (omega arith)) (runs 1).0
  merge_loop-IsSorted (suc fuel) w b l h enough runs = elim (Bool-cases (ltb w (length l))) [
    | inl longer ↦ rw longer (
        merge_loop-IsSorted fuel (w + w) (not b) (merge_pass cmp (length l) w l) (omega arith)
          (omega (arith, length-merge_pass cmp (length l) w l))
          (λ n. merge_pass-Runs (length l) n w l h (omega arith) (runs (n + n))))
    | inr short ↦ rw short (subst (IsSorted cmp) (take-short w l (grind tests)) (runs 1).0)
  ]
