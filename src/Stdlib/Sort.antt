-- ===== src/Stdlib/Sort.antt =====
-- c/rt/stdlib.c: `qsort`. An array is the list of its elements, and the comparison is a parameter, as
-- it is of the function.
pub mod Laws
pub mod Order
pub mod Stable
pub mod Insert
pub mod Result
use mellivora_os.Base.{
  add-one, ℕ, zero, suc, ◌+◌, ◌-◌, ◌*◌, ◌/◌, ◌%◌, ◌^◌, ◌≤◌, ◌<◌, min, bit_and, bit_or, ◌≡◌, refl,
  sym, ap, ◌∙◌, subst, fun_ext, ◌≢◌, ◌↔◌, ◌⊎◌, inl, inr, Bool, true, false, ◌&&◌, ◌||◌, not, Option,
  none, some, List, [], ◌∷◌, ◌++◌, map, append-nil, append_assoc, arith, dec_lt, ℕ_discrete, ltb,
  leb, ◌==◌, if◌then◌else◌, ltb→lt, lt→ltb, leb→le, ==_iff, tests, Bool-cases, Option-cases, length,
  get_elem?, set, length-append, get_or, take, drop, replicate, take-append-drop, length-take,
  length-drop, length-replicate, length-map, All, All-append, All-drop, drop-append_length, and_ten,
  u8, u16, u32, first, rest_of,
}
use mellivora_os.Base.Int.{ℤ, pos, ltb_ℤ}
use mathlib.Core.List.{reverse}

-- What `qsort` leaves in the array, and the memory that it gives to `free`.
pub data Freed : Type 0 where
  nothing : Freed
  scratch : Freed
  base : Freed

pub record Outcome {ℓ} (A : Type ℓ) : Type ℓ where
  pub items : List A
  pub freed : Freed

module _ {ℓ} {A : Type ℓ} (cmp : A → A → ℤ) where
  abbrev pub is_before : A → A → Bool
  is_before a b = ltb_ℤ (cmp a b) (pos 0)

  -- The three inner loops: two runs into one. The element of the second run is taken only where it
  -- comes before that of the first.
  unfoldable pub merge : List A → List A → List A
  merge [] r = r
  merge (x ∷ l) [] = x ∷ l
  merge (x ∷ l) (y ∷ r) = elim (is_before y x) [
    | true ↦ y ∷ merge (x ∷ l) r
    | false ↦ x ∷ merge l (y ∷ r)
  ]

  -- The loop over `start`: the runs are merged two by two. Every round takes an element at least, so
  -- that `fuel` is enough at the length of the list.
  unfoldable pub merge_pass : ℕ → ℕ → List A → List A
  merge_pass _ width [] = []
  merge_pass zero width (x ∷ l) = x ∷ l
  merge_pass (suc fuel) width (x ∷ l) =
      merge (take width (x ∷ l)) (take width (drop width (x ∷ l)))
      ++ merge_pass fuel width (drop (width + width) (x ∷ l))

  -- The loop over `width`. `in_base`: `src` is the caller's array and not the scratch.
  unfoldable pub merge_loop : ℕ → ℕ → Bool → List A → Outcome A
  merge_loop zero width in_base l = record { items = l; freed = if in_base then base else scratch }
  merge_loop (suc fuel) width in_base l =
      let after = merge_loop fuel (width + width) (not in_base) (merge_pass (length l) width l) in
      if ltb width (length l)
      then after
      else record { items = l; freed = if in_base then base else scratch }

  -- The inner loop of the insertion sort: the elements before index `j` are given last to first.
  unfoldable pub sink : A → List A → List A
  sink x [] = x ∷ []
  sink x (left ∷ earlier) = elim (ltb_ℤ (pos 0) (cmp left x)) [
    | true ↦ left ∷ sink x earlier
    | false ↦ x ∷ left ∷ earlier
  ]

  unfoldable pub insertion : List A → List A → List A
  insertion earlier [] = earlier
  insertion earlier (x ∷ l) = insertion (sink x earlier) l

  -- `allocated`: whether `malloc` gave the scratch.
  unfoldable pub qsort : Bool → List A → Outcome A
  qsort allocated l =
      if ltb (length l) 2
      then record { items = l; freed = nothing }
      else if allocated
      then merge_loop (length l) 1 true l
      else record { items = reverse (insertion [] l); freed = nothing }
