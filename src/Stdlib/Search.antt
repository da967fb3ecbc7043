-- ===== src/Stdlib/Search.antt =====
-- c/rt/stdlib.c: `bsearch`. The result is the index of an element, or the null pointer.
use mellivora_os.Base.{
  ℕ, zero, suc, ◌+◌, ◌-◌, ◌/◌, ◌≤◌, ◌<◌, ◌≡◌, refl, sym, ap, ◌∙◌, subst, ◌≢◌, ◌⊎◌, inl, inr, true,
  false, Option, none, some, List, [], ◌∷◌, arith, dec_lt, ℕ_discrete, ◌==◌, if◌then◌else◌, tests,
  Bool-cases, Option-cases, length, get_elem?, All,
}
use mathlib.Core.Option
use mellivora_os.Base.Int.{ℤ, pos, ltb_ℤ, negsuc}

module _ {ℓ κ} {K : Type ℓ} {A : Type κ} (cmp : K → A → ℤ) (key : K) where
  -- The loop, with `lo` an index. The interval loses an element every round, so that `fuel` is enough
  -- at `n`.
  unfoldable pub bsearch_loop : ℕ → List A → ℕ → ℕ → Option ℕ
  bsearch_loop zero items lo n = none
  bsearch_loop (suc fuel) items lo n =
      let half = n / 2 in
      let right = bsearch_loop fuel items (lo + half + 1) (n - (half + 1)) in
      let left = bsearch_loop fuel items lo half in
      if n == 0 then none else elim (get_elem? items (lo + half)) [
        | none ↦ none
        | some mid ↦
            if ltb_ℤ (pos 0) (cmp key mid)
            then right
            else if ltb_ℤ (cmp key mid) (pos 0)
            then left
            else some (lo + half)
      ]

  unfoldable pub bsearch : List A → Option ℕ
  bsearch items = bsearch_loop (length items) items 0 (length items)

  -- The elements stand in the order of the comparison: past one that the key lies below, and before
  -- one that it lies above, there is none that it is equal to.
  pub record IsOrdered (items : List A) : Type κ where
    pub above :
        (i j : ℕ) (a b : A)
        → i < j
        → get_elem? items i ≡ some a
        → get_elem? items j ≡ some b
        → ltb_ℤ (cmp key a) (pos 0) ≡ true
        → ltb_ℤ (cmp key b) (pos 0) ≡ true
    pub below :
        (i j : ℕ) (a b : A)
        → i < j
        → get_elem? items i ≡ some a
        → get_elem? items j ≡ some b
        → ltb_ℤ (pos 0) (cmp key b) ≡ true
        → ltb_ℤ (pos 0) (cmp key a) ≡ true

  abbrev pub IsEqual : A → Type 0
  IsEqual a = cmp key a ≡ pos 0

  sign_zero : (z : ℤ) → ltb_ℤ (pos 0) z ≡ false → ltb_ℤ z (pos 0) ≡ false → z ≡ pos 0
  sign_zero (pos n) h k = ap pos (grind (tests, h))
  sign_zero (negsuc n) h k = absurd (grind (tests, k))

  -- One round, at the middle of an interval that is not empty.
  probe : ℕ → List A → ℕ → ℕ → A → Option ℕ
  probe fuel items lo n mid =
      if ltb_ℤ (pos 0) (cmp key mid)
      then bsearch_loop fuel items (lo + n / 2 + 1) (n - (n / 2 + 1))
      else if ltb_ℤ (cmp key mid) (pos 0)
      then bsearch_loop fuel items lo (n / 2)
      else some (lo + n / 2)

  round :
      (fuel : ℕ) (items : List A) (lo n : ℕ) (mid : A)
      → 0 < n
      → get_elem? items (lo + n / 2) ≡ some mid
      → bsearch_loop (suc fuel) items lo n ≡ probe fuel items lo n mid
  unfolding bsearch_loop probe
  round fuel items lo n mid h e =
      let nonzero : (n == 0) ≡ false = ground arith in rw (nonzero, e) refl

  Hit : List A → Option ℕ → Type κ
  Hit items none = Unit
  Hit items (some i) = (a : A) × ((get_elem? items i ≡ some a) × IsEqual a)

  probe-Hit :
      (fuel lo n : ℕ) (items : List A) (mid : A)
      → get_elem? items (lo + n / 2) ≡ some mid
      → Hit items (bsearch_loop fuel items (lo + n / 2 + 1) (n - (n / 2 + 1)))
      → Hit items (bsearch_loop fuel items lo (n / 2))
      → Hit items (probe fuel items lo n mid)
  unfolding probe Hit
  probe-Hit fuel lo n items mid e right left = elim (Bool-cases (ltb_ℤ (pos 0) (cmp key mid))) [
    | inl h ↦ rw h right
    | inr h ↦ rw h (elim (Bool-cases (ltb_ℤ (cmp key mid) (pos 0))) [
      | inl k ↦ rw k left
      | inr k ↦ rw k (mid, (e, sign_zero (cmp key mid) h k))
    ])
  ]

  bsearch_loop-Hit : (fuel lo n : ℕ) (items : List A) → Hit items (bsearch_loop fuel items lo n)
  unfolding Hit bsearch_loop
  bsearch_loop-Hit zero lo n items = tt
  bsearch_loop-Hit (suc fuel) lo n items = elim (ℕ_discrete n 0) [
    | yes e ↦ rw e tt
    | no nonzero ↦ elim (Option-cases (get_elem? items (lo + n / 2))) [
      | inl e ↦ let positive : (n == 0) ≡ false = ground arith in rw (positive, e) tt
      | inr (mid, e) ↦ subst (Hit items) (sym (round fuel items lo n mid (omega arith) e)) (
          probe-Hit fuel lo n items mid e
            (bsearch_loop-Hit fuel (lo + n / 2 + 1) (n - (n / 2 + 1)) items)
            (bsearch_loop-Hit fuel lo (n / 2) items))
    ]
  ]

  get_below : (items : List A) (i : ℕ) → i < length items → (a : A) × (get_elem? items i ≡ some a)
  get_below [] i h = absurd (omega arith)
  get_below (x ∷ items) zero h = (x, refl)
  get_below (x ∷ items) (suc i) h = get_below items i (omega arith)

  zero_above : (a : A) → IsEqual a → ltb_ℤ (pos 0) (cmp key a) ≢ true
  zero_above a e h =
      let k : ltb_ℤ (pos 0) (pos 0) ≡ true = subst (λ z. ltb_ℤ (pos 0) z ≡ true) e h in
      absurd (grind (tests, k))

  zero_below : (a : A) → IsEqual a → ltb_ℤ (cmp key a) (pos 0) ≢ true
  zero_below a e h =
      let k : ltb_ℤ (pos 0) (pos 0) ≡ true = subst (λ z. ltb_ℤ z (pos 0) ≡ true) e h in
      absurd (grind (tests, k))

  same_place :
      (i m : ℕ) (items : List A) (a mid : A)
      → i ≡ m
      → get_elem? items i ≡ some a
      → get_elem? items m ≡ some mid
      → a ≡ mid
  same_place i m items a mid e at_i at_m =
      Option.some-injective a mid (sym at_i ∙ ap (get_elem? items) e ∙ at_m)

  -- The interval of a round holds the index of an element that the key is equal to.
  probe_finds :
      (fuel lo n i : ℕ) (items : List A) (mid a : A)
      → IsOrdered items
      → get_elem? items (lo + n / 2) ≡ some mid
      → get_elem? items i ≡ some a
      → IsEqual a
      → (lo + n / 2 < i → bsearch_loop fuel items (lo + n / 2 + 1) (n - (n / 2 + 1)) ≢ none)
      → (i < lo + n / 2 → bsearch_loop fuel items lo (n / 2) ≢ none)
      → probe fuel items lo n mid ≢ none
  unfolding probe
  probe_finds fuel lo n i items mid a ordered at_mid at_i equal right left =
      elim (Bool-cases (ltb_ℤ (pos 0) (cmp key mid))) [
        | inl h ↦ rw h (elim (dec_lt (lo + n / 2) i) [
          | yes past ↦ right past
          | no before ↦ elim (dec_lt i (lo + n / 2)) [
            | yes left_of ↦
                absurd
                  (zero_above a equal (ordered.below i (lo + n / 2) a mid left_of at_i at_mid h))
            | no here ↦ absurd (
                zero_above mid
                  (subst IsEqual (same_place i (lo + n / 2) items a mid (omega arith) at_i at_mid)
                    equal)
                  h)
          ]
        ])
        | inr h ↦ rw h (elim (Bool-cases (ltb_ℤ (cmp key mid) (pos 0))) [
          | inl k ↦ rw k (elim (dec_lt i (lo + n / 2)) [
            | yes before ↦ left before
            | no past ↦ elim (dec_lt (lo + n / 2) i) [
              | yes right_of ↦
                  absurd
                    (zero_below a equal (ordered.above (lo + n / 2) i mid a right_of at_mid at_i k))
              | no here ↦ absurd (
                  zero_below mid
                    (subst IsEqual (same_place i (lo + n / 2) items a mid (omega arith) at_i at_mid)
                      equal)
                    k)
            ]
          ])
          | inr k ↦ rw k (grind arith)
        ])
      ]

  loop_finds :
      (fuel lo n i : ℕ) (items : List A) (a : A)
      → IsOrdered items
      → n ≤ fuel
      → lo + n ≤ length items
      → lo ≤ i
      → i < lo + n
      → get_elem? items i ≡ some a
      → IsEqual a
      → bsearch_loop fuel items lo n ≢ none
  loop_finds zero lo n i items a ordered enough inside above below at_i equal = absurd (omega arith)
  loop_finds (suc fuel) lo n i items a ordered enough inside above below at_i equal =
      let (mid, at_mid) = get_below items (lo + n / 2) (omega arith) in
      rw (round fuel items lo n mid (omega arith) at_mid) (
        probe_finds fuel lo n i items mid a ordered at_mid at_i equal
          (λ past.
            loop_finds fuel (lo + n / 2 + 1) (n - (n / 2 + 1)) i items a ordered (omega arith)
              (omega arith) (omega arith) (omega arith) at_i equal)
          (λ before.
            loop_finds fuel lo (n / 2) i items a ordered (omega arith) (omega arith) above before
              at_i equal))

  All-of_get :
      (P : A → Type 0) (items : List A)
      → ((i : ℕ) (a : A) → i < length items → get_elem? items i ≡ some a → P a)
      → All P items
  All-of_get P [] h = tt
  All-of_get P (x ∷ items) h =
      (h 0 x (omega arith) refl, All-of_get P items (λ i a below e. h (suc i) a (omega arith) e))

  -- Over an array in the order of the comparison, `bsearch` answers with the index of an element that
  -- the key is equal to, or with null, and then the key is equal to none of the elements.
  pub bsearch_lem :
      (items : List A)
      → IsOrdered items
      → ((i : ℕ) × ((a : A) × ((bsearch items ≡ some i)
              × ((get_elem? items i ≡ some a) × IsEqual a))))
        ⊎ ((bsearch items ≡ none) × All (λ a. ¬ IsEqual a) items)
  unfolding bsearch Hit
  bsearch_lem items ordered = elim (Option-cases (bsearch items)) [
    | inl e ↦ inr (
      e,
      All-of_get (λ a. ¬ IsEqual a) items
          (λ i a below at_i equal.
            loop_finds (length items) 0 (length items) i items a ordered (omega arith) (omega arith)
              (omega arith) (omega arith) at_i equal e),
    )
    | inr (i, e) ↦
        let (a, hit) =
          subst (Hit items) e (bsearch_loop-Hit (length items) 0 (length items) items) in
        inl (i, (a, (e, hit)))
  ]
