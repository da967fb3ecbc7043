-- ===== src/Stdlib/Sort/Stable.antt =====
-- `qsort` with a scratch: elements that compare equal keep their order.
use mellivora_os.Stdlib.Sort.{merge, merge_pass, merge_loop, is_before}
use mellivora_os.Stdlib.Sort.Laws.{merge_left, merge_right, drop-drop, runs_split}
use mellivora_os.Stdlib.Sort.Order.{IsOrder, Below, IsSorted, Runs, merge_pass-Runs}
use mellivora_os.Base.Int.{ℤ}
use mellivora_os.Base.{
  ℕ, zero, suc, ◌+◌, ◌≤◌, ◌<◌, ◌≡◌, refl, sym, ap, ◌∙◌, subst, ◌⊎◌, inl, inr, Bool, true, false,
  ◌&&◌, not, List, [], ◌∷◌, ◌++◌, append-nil, arith, ltb, if◌then◌else◌, Bool-cases, length, take,
  drop, length-drop, All,
}

module _ {ℓ} {A : Type ℓ} where
  abbrev pub select : (A → Bool) → List A → List A
  select p [] = []
  select p (x ∷ l) = if p x then x ∷ select p l else select p l

  pub select_append : (p : A → Bool) (l r : List A) → select p (l ++ r) ≡ select p l ++ select p r
  select_append p [] r = refl
  select_append p (x ∷ l) r = elim (Bool-cases (p x)) [
    | inl h ↦ rw h (ap (◌∷◌ x) (select_append p l r))
    | inr h ↦ rw h (select_append p l r)
  ]

  select_none : (p : A → Bool) (l : List A) → All (λ x. p x ≡ false) l → select p l ≡ []
  select_none p [] all = refl
  select_none p (x ∷ l) (h, all) = rw h (select_none p l all)

  -- An element comes first where the list that it passes has none of its kind.
  select_pass :
      (p : A → Bool) (y : A) (m l r : List A)
      → (p y ≡ false) ⊎ (select p l ≡ [])
      → select p m ≡ select p l ++ select p r
      → select p (y ∷ m) ≡ select p l ++ select p (y ∷ r)
  select_pass p y m l r (inl other) behind = rw other behind
  select_pass p y m l r (inr none_left) behind =
      let only = behind ∙ ap (λ k. k ++ select p r) none_left in
      rw none_left (elim (Bool-cases (p y)) [ inl h ↦ rw h (ap (◌∷◌ y) only) | inr h ↦ rw h only ])

module _ {ℓ} {A : Type ℓ} (cmp : A → A → ℤ) where
  -- Whether neither of two elements comes before the other.
  abbrev pub ties : A → A → Bool
  ties a b = not (is_before cmp a b) && not (is_before cmp b a)

  pub ties-Below : (a b : A) → ties a b ≡ true → Below cmp b a × Below cmp a b
  ties-Below a b h = go (is_before cmp a b) (is_before cmp b a) h
    where
      go : (p q : Bool) → (not p && not q) ≡ true → (p ≡ false) × (q ≡ false)
      go false false e = (refl, refl)
      go false true e = absurd (grind (arith, e))
      go true q e = absurd (grind (arith, e))

module _ {ℓ} {A : Type ℓ} (cmp : A → A → ℤ) (order : IsOrder cmp) (v : A) where
  irrefl : (x : A) → Below cmp x x
  irrefl x = elim (Bool-cases (is_before cmp x x)) [ inl h ↦ order.asym x x h | inr h ↦ h ]

  -- Behind an element that one of the kind of `v` comes before, there is none of that kind.
  no_ties :
      (x y : A) (l : List A)
      → ties cmp v y ≡ true
      → is_before cmp y x ≡ true
      → All (Below cmp x) l
      → All (λ z. ties cmp v z ≡ false) l
  no_ties x y [] kin h all = tt
  no_ties x y (z ∷ l) kin h (hz, all) = (
    elim (Bool-cases (ties cmp v z)) [
      | inl same ↦
          let below =
            order.trans x v y (order.trans x z v hz (ties-Below cmp v z same).0)
              (ties-Below cmp v y kin).1 in
          absurd (grind (arith, below, h))
      | inr other ↦ other
    ],
    no_ties x y l kin h all,
  )

  select-merge :
      (l r : List A)
      → IsSorted cmp l
      → IsSorted cmp r
      → select (ties cmp v) (merge cmp l r) ≡ select (ties cmp v) l ++ select (ties cmp v) r
  unfolding merge
  select-merge [] r hl hr = refl
  select-merge (x ∷ l) [] hl hr = sym (append-nil (select (ties cmp v) (x ∷ l)))
  select-merge (x ∷ l) (y ∷ r) (hx, hl) (hy, hr) = elim (Bool-cases (is_before cmp y x)) [
    | inl h ↦
        let behind = select-merge (x ∷ l) r (hx, hl) hr in
        rw (merge_right cmp x y l r h) (
          select_pass (ties cmp v) y (merge cmp (x ∷ l) r) (x ∷ l) r
            (elim (Bool-cases (ties cmp v y)) [
              | inl kin ↦
                  inr (select_none (ties cmp v) (x ∷ l) (no_ties x y (x ∷ l) kin h (irrefl x, hx)))
              | inr other ↦ inl other
            ])
            behind)
    | inr h ↦
        let behind = select-merge l (y ∷ r) hl (hy, hr) in
        rw (merge_left cmp x y l r h) (elim (Bool-cases (ties cmp v x)) [
          | inl kin ↦ rw kin (ap (◌∷◌ x) behind)
          | inr other ↦ rw other behind
        ])
  ]

  select-merge_pass :
      (fuel n w : ℕ) (l : List A)
      → 0 < w
      → length l ≤ fuel
      → length l ≤ n
      → Runs cmp (n + n) w l
      → select (ties cmp v) (merge_pass cmp fuel w l) ≡ select (ties cmp v) l
  unfolding merge_pass
  select-merge_pass fuel n w [] h enough many runs = refl
  select-merge_pass zero n w (x ∷ l) h enough many runs = refl
  select-merge_pass (suc fuel) zero w (x ∷ l) h enough many runs = absurd (omega arith)
  select-merge_pass (suc fuel) (suc n) w (x ∷ l) h enough many runs =
      let all = x ∷ l in
      let one = take w all in
      let other = take w (drop w all) in
      let rest = drop (w + w) all in
      let two : Runs cmp (suc (suc (n + n))) w all =
        subst (λ k. Runs cmp k w all) {y = suc (suc (n + n))} (omega arith) runs in
      let behind : Runs cmp (n + n) w rest =
        subst (Runs cmp (n + n) w) (drop-drop w w all) two.1.1 in
      let shorter = length-drop (w + w) all in
      let later =
        select-merge_pass fuel n w rest h (omega (arith, shorter)) (omega (arith, shorter))
          behind in
      select_append (ties cmp v) (merge cmp one other) (merge_pass cmp fuel w rest)
      ∙ ap (λ k. k ++ select (ties cmp v) (merge_pass cmp fuel w rest))
          (select-merge one other two.0 two.1.0)
      ∙ ap (λ k. (select (ties cmp v) one ++ select (ties cmp v) other) ++ k) later
      ∙ ap (λ k. k ++ select (ties cmp v) rest) (sym (select_append (ties cmp v) one other))
      ∙ sym (select_append (ties cmp v) (one ++ other) rest)
      ∙ ap (select (ties cmp v)) (runs_split cmp w all)

  pub select-merge_loop :
      (fuel w : ℕ) (b : Bool) (l : List A)
      → 0 < w
      → ((n : ℕ) → Runs cmp n w l)
      → select (ties cmp v) (merge_loop cmp fuel w b l).items ≡ select (ties cmp v) l
  unfolding merge_loop
  select-merge_loop zero w b l h runs = refl
  select-merge_loop (suc fuel) w b l h runs = elim (Bool-cases (ltb w (length l))) [
    | inl longer ↦ rw longer (
        select-merge_loop fuel (w + w) (not b) (merge_pass cmp (length l) w l) (omega arith)
          (λ n. merge_pass-Runs cmp order (length l) n w l h (omega arith) (runs (n + n)))
        ∙ select-merge_pass (length l) (length l) w l h (omega arith) (omega arith)
            (runs (length l + length l)))
    | inr short ↦ rw short refl
  ]
