-- ===== src/Stdlib/Sort/Laws.antt =====
-- The merge of `qsort` loses and invents no element.
use mellivora_os.Stdlib.Sort.{merge, merge_pass, merge_loop, is_before}
use mellivora_os.Base.Int.{ℤ}
use mathlib.Core.List.{Perm, perm_middle}
use mathlib.Core.List.Perm
use mellivora_os.Base.{
  ℕ, zero, suc, ◌+◌, ◌≤◌, ◌≡◌, refl, sym, ap, ◌∙◌, subst, inl, inr, Bool, true, false, not, List,
  [], ◌∷◌, ◌++◌, append-nil, append_assoc, arith, ltb, Bool-cases, length, length-append, take,
  drop, take-append-drop, length-take, length-drop,
}

module _ {ℓ} {A : Type ℓ} where
  pub take-short : (n : ℕ) (xs : List A) → length xs ≤ n → take n xs ≡ xs
  take-short zero [] h = refl
  take-short (suc n) [] h = refl
  take-short zero (x ∷ xs) h = absurd (omega arith)
  take-short (suc n) (x ∷ xs) h = ap (◌∷◌ x) (take-short n xs (omega arith))

  pub drop-short : (n : ℕ) (xs : List A) → length xs ≤ n → drop n xs ≡ []
  drop-short zero [] h = refl
  drop-short (suc n) [] h = refl
  drop-short zero (x ∷ xs) h = absurd (omega arith)
  drop-short (suc n) (x ∷ xs) h = drop-short n xs (omega arith)

  pub take-append_length : (xs ys : List A) → take (length xs) (xs ++ ys) ≡ xs
  take-append_length [] [] = refl
  take-append_length [] (y ∷ ys) = refl
  take-append_length (x ∷ xs) ys = ap (◌∷◌ x) (take-append_length xs ys)

  pub drop-drop : (m n : ℕ) (xs : List A) → drop n (drop m xs) ≡ drop (m + n) xs
  drop-drop zero n xs = ap (λ k. drop k xs) (let e : n ≡ 0 + n = omega arith in e)
  drop-drop (suc m) n [] =
      drop-short n [] (omega arith) ∙ sym (drop-short (suc m + n) [] (omega arith))
  drop-drop (suc m) n (x ∷ xs) =
      drop-drop m n xs
      ∙ ap (λ k. drop k (x ∷ xs)) (let e : suc (m + n) ≡ suc m + n = omega arith in e)

module _ {ℓ} {A : Type ℓ} (cmp : A → A → ℤ) where
  pub merge_right :
      (x y : A) (l r : List A)
      → is_before cmp y x ≡ true
      → merge cmp (x ∷ l) (y ∷ r) ≡ y ∷ merge cmp (x ∷ l) r
  unfolding merge
  merge_right x y l r h = ground arith

  pub merge_left :
      (x y : A) (l r : List A)
      → is_before cmp y x ≡ false
      → merge cmp (x ∷ l) (y ∷ r) ≡ x ∷ merge cmp l (y ∷ r)
  unfolding merge
  merge_left x y l r h = ground arith

  pub merge-Perm : (l r : List A) → Perm (merge cmp l r) (l ++ r)
  unfolding merge
  merge-Perm [] r = Perm.rfl
  merge-Perm (x ∷ l) [] = rw (append-nil l) Perm.rfl
  merge-Perm (x ∷ l) (y ∷ r) = elim (Bool-cases (is_before cmp y x)) [
    | inl h ↦
        rw (merge_right x y l r h)
          (Perm.trans (Perm.cons y (merge-Perm (x ∷ l) r)) (Perm.symm (perm_middle (x ∷ l) r)))
    | inr h ↦ rw (merge_left x y l r h) (Perm.cons x (merge-Perm l (y ∷ r)))
  ]

  pub length-merge : (l r : List A) → length (merge cmp l r) ≡ length l + length r
  unfolding merge
  length-merge [] r = omega arith
  length-merge (x ∷ l) [] = omega arith
  length-merge (x ∷ l) (y ∷ r) = elim (Bool-cases (is_before cmp y x)) [
    | inl h ↦ rw (merge_right x y l r h) (omega (arith, length-merge (x ∷ l) r))
    | inr h ↦ rw (merge_left x y l r h) (omega (arith, length-merge l (y ∷ r)))
  ]

  -- The two runs and what is behind them are the list.
  pub runs_split : (w : ℕ) (l : List A) → (take w l ++ take w (drop w l)) ++ drop (w + w) l ≡ l
  runs_split w l =
      append_assoc (take w l) (take w (drop w l)) (drop (w + w) l)
      ∙ ap (λ k. take w l ++ (take w (drop w l) ++ k)) (sym (drop-drop w w l))
      ∙ ap (λ k. take w l ++ k) (take-append-drop w (drop w l))
      ∙ take-append-drop w l

  pub merge_pass-Perm : (fuel w : ℕ) (l : List A) → Perm (merge_pass cmp fuel w l) l
  unfolding merge_pass
  merge_pass-Perm fuel w [] = Perm.rfl
  merge_pass-Perm zero w (x ∷ l) = Perm.rfl
  merge_pass-Perm (suc fuel) w (x ∷ l) =
      subst (Perm (merge_pass cmp (suc fuel) w (x ∷ l))) (runs_split w (x ∷ l)) (
        Perm.append (merge-Perm (take w (x ∷ l)) (take w (drop w (x ∷ l))))
          (merge_pass-Perm fuel w (drop (w + w) (x ∷ l))))

  pub length-merge_pass : (fuel w : ℕ) (l : List A) → length (merge_pass cmp fuel w l) ≡ length l
  unfolding merge_pass
  length-merge_pass fuel w [] = refl
  length-merge_pass zero w (x ∷ l) = refl
  length-merge_pass (suc fuel) w (x ∷ l) =
      length-append (merge cmp (take w (x ∷ l)) (take w (drop w (x ∷ l))))
        (merge_pass cmp fuel w (drop (w + w) (x ∷ l)))
      ∙ omega (
        arith,
        length-merge (take w (x ∷ l)) (take w (drop w (x ∷ l))),
        length-merge_pass fuel w (drop (w + w) (x ∷ l)),
        length-take w (x ∷ l),
        length-take w (drop w (x ∷ l)),
        length-drop w (x ∷ l),
        length-drop (w + w) (x ∷ l),
      )

  pub merge_loop-Perm :
      (fuel w : ℕ) (b : Bool) (l : List A) → Perm (merge_loop cmp fuel w b l).items l
  unfolding merge_loop
  merge_loop-Perm zero w b l = Perm.rfl
  merge_loop-Perm (suc fuel) w b l = elim (Bool-cases (ltb w (length l))) [
    | inl h ↦ rw h (
        Perm.trans (merge_loop-Perm fuel (w + w) (not b) (merge_pass cmp (length l) w l))
          (merge_pass-Perm (length l) w l))
    | inr h ↦ rw h Perm.rfl
  ]
