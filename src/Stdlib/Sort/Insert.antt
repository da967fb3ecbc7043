-- ===== src/Stdlib/Sort/Insert.antt =====
-- The insertion sort of `qsort`, over the sorted part given last to first.
use mellivora_os.Stdlib.Sort.{sink, insertion, is_before}
use mellivora_os.Stdlib.Sort.Order.{IsOrder, Below, IsSorted}
use mellivora_os.Stdlib.Sort.Stable.{select, select_append, ties, ties-Below}
use mellivora_os.Base.Int.{ℤ, pos, ltb_ℤ}
use mathlib.Core.List.{Perm, perm_middle, reverse, reverse_aux, reverse_aux-eq}
use mathlib.Core.List.Perm
use mellivora_os.Base.{
  ◌≡◌, refl, sym, ap, ◌∙◌, inl, inr, true, false, List, [], ◌∷◌, ◌++◌, append-nil, arith,
  Bool-cases, All,
}

module _ {ℓ} {A : Type ℓ} (cmp : A → A → ℤ) where
  IsFalling : List A → Type 0
  IsFalling [] = Unit
  IsFalling (x ∷ l) = All (λ y. Below cmp y x) l × IsFalling l

  sink_past :
      (x y : A) (l : List A)
      → ltb_ℤ (pos 0) (cmp y x) ≡ true
      → sink cmp x (y ∷ l) ≡ y ∷ sink cmp x l
  unfolding sink
  sink_past x y l h = ground arith

  sink_stop :
      (x y : A) (l : List A) → ltb_ℤ (pos 0) (cmp y x) ≡ false → sink cmp x (y ∷ l) ≡ x ∷ y ∷ l
  unfolding sink
  sink_stop x y l h = ground arith

  sink-Perm : (x : A) (l : List A) → Perm (sink cmp x l) (x ∷ l)
  unfolding sink
  sink-Perm x [] = Perm.rfl
  sink-Perm x (y ∷ l) = elim (Bool-cases (ltb_ℤ (pos 0) (cmp y x))) [
    | inl h ↦ rw (sink_past x y l h) (Perm.trans (Perm.cons y (sink-Perm x l)) (Perm.swap x y l))
    | inr h ↦ rw (sink_stop x y l h) Perm.rfl
  ]

  pub insertion-Perm : (back l : List A) → Perm (insertion cmp back l) (back ++ l)
  unfolding insertion
  insertion-Perm back [] = rw (append-nil back) Perm.rfl
  insertion-Perm back (x ∷ l) =
      Perm.trans (insertion-Perm (sink cmp x back) l)
        (Perm.trans (Perm.append_right l (sink-Perm x back)) (Perm.symm (perm_middle back l)))

module _ {ℓ} {A : Type ℓ} (cmp : A → A → ℤ) (order : IsOrder cmp) where
  All-sink : (P : A → Type 0) (x : A) (l : List A) → P x → All P l → All P (sink cmp x l)
  unfolding sink
  All-sink P x [] hx all = (hx, tt)
  All-sink P x (y ∷ l) hx (hy, all) = elim (Bool-cases (ltb_ℤ (pos 0) (cmp y x))) [
    | inl h ↦ rw (sink_past cmp x y l h) (hy, All-sink P x l hx all)
    | inr h ↦ rw (sink_stop cmp x y l h) (hx, (hy, all))
  ]

  falling_trans :
      (a b : A) (l : List A)
      → Below cmp b a
      → All (λ y. Below cmp y b) l
      → All (λ y. Below cmp y a) l
  falling_trans a b [] h all = tt
  falling_trans a b (y ∷ l) h (hy, all) = (order.trans y b a hy h, falling_trans a b l h all)

  sink-IsFalling : (x : A) (l : List A) → IsFalling cmp l → IsFalling cmp (sink cmp x l)
  unfolding sink IsFalling
  sink-IsFalling x [] falling = (tt, tt)
  sink-IsFalling x (y ∷ l) (hy, falling) = elim (Bool-cases (ltb_ℤ (pos 0) (cmp y x))) [
    | inl h ↦ rw (sink_past cmp x y l h) (
      All-sink (λ z. Below cmp z y) x l (order.asym x y (sym (order.flip y x) ∙ h)) hy,
      sink-IsFalling x l falling,
    )
    | inr h ↦
        let below = sym (order.flip y x) ∙ h in
        rw (sink_stop cmp x y l h) ((below, falling_trans x y l below hy), (hy, falling))
  ]

  insertion-IsFalling :
      (back l : List A) → IsFalling cmp back → IsFalling cmp (insertion cmp back l)
  unfolding insertion
  insertion-IsFalling back [] falling = falling
  insertion-IsFalling back (x ∷ l) falling =
      insertion-IsFalling (sink cmp x back) l (sink-IsFalling x back falling)

  All-both : (P Q : A → Type 0) (l : List A) → All P l → All Q l → All (λ x. P x × Q x) l
  All-both P Q [] hp hq = tt
  All-both P Q (x ∷ l) (px, hp) (qx, hq) = ((px, qx), All-both P Q l hp hq)

  All-nothing : (l : List A) → All (λ y. All (Below cmp y) []) l
  All-nothing [] = tt
  All-nothing (x ∷ l) = (tt, All-nothing l)

  reversed-IsSorted :
      (l r : List A)
      → IsFalling cmp l
      → IsSorted cmp r
      → All (λ y. All (Below cmp y) r) l
      → IsSorted cmp (reverse_aux l r)
  unfolding IsFalling
  reversed-IsSorted [] r falling sorted below = sorted
  reversed-IsSorted (x ∷ l) r (hx, falling) sorted (x_below, below) =
      reversed-IsSorted l (x ∷ r) falling (x_below, sorted)
        (All-both (λ y. Below cmp y x) (λ y. All (Below cmp y) r) l hx below)

  pub insertion-IsSorted : (l : List A) → IsSorted cmp (reverse (insertion cmp [] l))
  unfolding IsFalling
  insertion-IsSorted l =
      reversed-IsSorted (insertion cmp [] l) [] (insertion-IsFalling [] l tt) tt
        (All-nothing (insertion cmp [] l))

  module _ (v : A) where
    select_swap :
        (x y : A) (r : List A)
        → is_before cmp x y ≡ true
        → select (ties cmp v) (x ∷ y ∷ r) ≡ select (ties cmp v) (y ∷ x ∷ r)
    select_swap x y r h = elim (Bool-cases (ties cmp v x)) [
      | inr other ↦ rw other refl
      | inl same ↦ elim (Bool-cases (ties cmp v y)) [
        | inr other ↦ rw other refl
        | inl also ↦
            let below = order.trans y v x (ties-Below cmp v y also).0 (ties-Below cmp v x same).1 in
            absurd (grind (arith, below, h))
      ]
    ]

    select_behind :
        (back r s : List A)
        → select (ties cmp v) r ≡ select (ties cmp v) s
        → select (ties cmp v) (reverse_aux back r) ≡ select (ties cmp v) (reverse_aux back s)
    select_behind back r s h =
        ap (select (ties cmp v)) (reverse_aux-eq back r)
        ∙ select_append (ties cmp v) (reverse back) r
        ∙ ap (λ k. select (ties cmp v) (reverse back) ++ k) h
        ∙ sym (select_append (ties cmp v) (reverse back) s)
        ∙ ap (select (ties cmp v)) (sym (reverse_aux-eq back s))

    select-sink :
        (x : A) (back r : List A)
        → select (ties cmp v) (reverse_aux (sink cmp x back) r)
          ≡ select (ties cmp v) (reverse_aux back (x ∷ r))
    unfolding sink
    select-sink x [] r = refl
    select-sink x (y ∷ back) r = elim (Bool-cases (ltb_ℤ (pos 0) (cmp y x))) [
      | inl h ↦ rw (sink_past cmp x y back h) (
          select-sink x back (y ∷ r)
          ∙ select_behind back (x ∷ y ∷ r) (y ∷ x ∷ r)
              (select_swap x y r (sym (order.flip y x) ∙ h)))
      | inr h ↦ rw (sink_stop cmp x y back h) refl
    ]

    select-insertion_back :
        (back l : List A)
        → select (ties cmp v) (reverse (insertion cmp back l))
          ≡ select (ties cmp v) (reverse_aux back l)
    unfolding insertion
    select-insertion_back back [] = refl
    select-insertion_back back (x ∷ l) =
        select-insertion_back (sink cmp x back) l ∙ select-sink x back l

    pub select-insertion :
        (l : List A) → select (ties cmp v) (reverse (insertion cmp [] l)) ≡ select (ties cmp v) l
    select-insertion l = select-insertion_back [] l
