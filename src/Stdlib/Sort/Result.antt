-- ===== src/Stdlib/Sort/Result.antt =====
-- What `qsort` of c/rt/stdlib.c promises, whether its scratch is allocated or not.
use mellivora_os.Stdlib.Sort.{
  qsort, merge_loop, merge_pass, insertion, Freed, base, scratch, nothing,
}
use mellivora_os.Stdlib.Sort.Laws.{merge_loop-Perm, length-merge_pass}
use mellivora_os.Stdlib.Sort.Order.{
  IsOrder, IsSorted, Runs-one, merge_loop-IsSorted, short-IsSorted,
}
use mellivora_os.Stdlib.Sort.Stable.{select, ties, select-merge_loop}
use mellivora_os.Stdlib.Sort.Insert.{insertion-IsSorted, insertion-Perm, select-insertion}
use mellivora_os.Base.Int.{ℤ}
use mathlib.Core.List.{Perm, reverse, reverse_perm}
use mathlib.Core.List.Perm
use mellivora_os.Base.{
  ℕ, zero, suc, ◌+◌, ◌≡◌, refl, ap, ◌∙◌, ◌⊎◌, inl, inr, Bool, true, false, not, List, [], arith,
  ltb, if◌then◌else◌, tests, Bool-cases, length,
}

module _ {ℓ} {A : Type ℓ} (cmp : A → A → ℤ) (order : IsOrder cmp) where
  -- With a comparison whose sign turns over with its arguments and that is transitive, `qsort` leaves
  -- the elements of the array, each as often as it was there, and no element comes before one to its
  -- left: with a scratch, and without one.
  pub qsort_lem :
      (allocated : Bool) (l : List A)
      → IsSorted cmp (qsort cmp allocated l).items × Perm (qsort cmp allocated l).items l
  unfolding qsort
  qsort_lem allocated l = elim (Bool-cases (ltb (length l) 2)) [
    | inl h ↦ rw h (short-IsSorted cmp order l (grind tests), Perm.rfl)
    | inr h ↦ rw h (go allocated)
  ]
    where
      go :
          (b : Bool)
          → let out =
              if b
              then merge_loop cmp (length l) 1 true l
              else record { items = reverse (insertion cmp [] l); freed = nothing } in
            IsSorted cmp out.items × Perm out.items l
      go true = (
        merge_loop-IsSorted cmp order (length l) 1 true l (omega arith) (omega arith)
            (λ n. Runs-one cmp order n l),
        merge_loop-Perm cmp (length l) 1 true l,
      )
      go false = (
        insertion-IsSorted cmp order l,
        Perm.trans (reverse_perm (insertion cmp [] l)) (insertion-Perm cmp [] l),
      )

  -- `qsort` is stable, with a scratch and without one: the elements that compare equal to a given one
  -- stand in the result in the order in which they stood in the array.
  pub qsort_stable :
      (allocated : Bool) (l : List A) (v : A)
      → select (ties cmp v) (qsort cmp allocated l).items ≡ select (ties cmp v) l
  unfolding qsort
  qsort_stable allocated l v = elim (Bool-cases (ltb (length l) 2)) [
    | inl h ↦ rw h refl
    | inr h ↦ rw h (go allocated)
  ]
    where
      go :
          (b : Bool)
          → select
              (ties cmp v)
              (if b
                then merge_loop cmp (length l) 1 true l
                else record { items = reverse (insertion cmp [] l); freed = nothing }).items
            ≡ select (ties cmp v) l
      go true =
          select-merge_loop cmp order v (length l) 1 true l (omega arith)
            (λ n. Runs-one cmp order n l)
      go false = select-insertion cmp order v l

-- What is freed behind the passes depends on the count alone.
freed_at : ℕ → ℕ → Bool → ℕ → Freed
freed_at zero width in_base n = if in_base then base else scratch
freed_at (suc fuel) width in_base n =
    let after = freed_at fuel (width + width) (not in_base) n in
    if ltb width n then after else (if in_base then base else scratch)

module _ {ℓ} {A : Type ℓ} (cmp : A → A → ℤ) where
  merge_loop-freed :
      (fuel w : ℕ) (b : Bool) (l : List A)
      → (merge_loop cmp fuel w b l).freed ≡ freed_at fuel w b (length l)
  unfolding merge_loop freed_at
  merge_loop-freed zero w b l = refl
  merge_loop-freed (suc fuel) w b l = elim (Bool-cases (ltb w (length l))) [
    | inl h ↦ rw h (
        merge_loop-freed fuel (w + w) (not b) (merge_pass cmp (length l) w l)
        ∙ ap (freed_at fuel (w + w) (not b)) (length-merge_pass cmp (length l) w l))
    | inr h ↦ rw h refl
  ]

  -- Of an array of three or four elements `qsort` gives the memory of the array to `free`, where it
  -- got a scratch: after two passes `src` is the array again.
  pub qsort-frees_array :
      (l : List A) → (length l ≡ 3) ⊎ (length l ≡ 4) → (qsort cmp true l).freed ≡ base
  unfolding qsort freed_at
  qsort-frees_array l (inl e) = rw e (merge_loop-freed 3 1 true l ∙ ap (freed_at 3 1 true) e)
  qsort-frees_array l (inr e) = rw e (merge_loop-freed 4 1 true l ∙ ap (freed_at 4 1 true) e)
