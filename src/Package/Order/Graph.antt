-- ===== src/Package/Order/Graph.antt =====
-- tools/hbpkg.c: the graph of the dependencies, paths in it and orders of it.
use mellivora_os.Package.Order.{mark}
use mellivora_os.Base.Int.{ℤ, pos, negsuc}
use mellivora_os.Base.{
  ℕ, zero, suc, ◌+◌, ◌≤◌, ◌<◌, ◌≡◌, refl, sym, ap, ◌∙◌, subst, fun_ext, ◌⊎◌, inl, inr, Bool, true,
  false, ◌||◌, List, [], ◌∷◌, ◌++◌, arith, ◌==◌, if◌then◌else◌, Bool-cases,
}

abbrev pub Has : List ℤ → ℕ → Type 0
Has [] d = ⊥
Has (pos n ∷ l) d = (n ≡ d) ⊎ Has l d
Has (negsuc n ∷ l) d = Has l d

module _ (dep_indices : ℕ → List ℤ) (count : ℕ) where
  -- `d` is a dependency of `i`.
  abbrev pub IsDep : ℕ → ℕ → Type 0
  IsDep i d = (d < count) × Has (dep_indices i) d

  -- One dependency after the other, one at least.
  pub data HasPath : ℕ → ℕ → Type 0 where
    one : {i d : ℕ} → IsDep i d → HasPath i d
    more : {i d e : ℕ} → HasPath i d → IsDep d e → HasPath i e

pub or_swap : (a b c : Bool) → ((b || a) || c) ≡ (a || (b || c))
or_swap true true c = refl
or_swap true false c = refl
or_swap false true c = refl
or_swap false false c = refl

pub or_true : (b : Bool) → (b || true) ≡ true
or_true true = refl
or_true false = refl

pub or_false : (b : Bool) → (b || false) ≡ b
or_false true = refl
or_false false = refl

abbrev pub member : ℕ → List ℕ → Bool
member j [] = false
member j (x ∷ l) = x == j || member j l

pub member-append : (j : ℕ) (l r : List ℕ) → member j (l ++ r) ≡ member j l || member j r
member-append j [] r = refl
member-append j (x ∷ l) r = elim (Bool-cases (x == j)) [
  | inl same ↦ rw same refl
  | inr other ↦ rw other (member-append j l r)
]

module _ (dep_indices : ℕ → List ℤ) (count : ℕ) where
  -- Each node of the list is new, and its dependencies stand before it.
  abbrev pub IsOrdered : List ℕ → List ℕ → Type 0
  IsOrdered seen [] = Unit {0}
  IsOrdered seen (i ∷ l) =
      (member i seen ≡ false)
      × ((d : ℕ) → IsDep dep_indices count i d → member d seen ≡ true)
      × IsOrdered (i ∷ seen) l

  -- A node whose dependencies are there goes to the end.
  pub IsOrdered-snoc :
      (i : ℕ) (seen l : List ℕ)
      → IsOrdered seen l
      → (member i seen || member i l) ≡ false
      → ((d : ℕ) → IsDep dep_indices count i d → (member d seen || member d l) ≡ true)
      → IsOrdered seen (l ++ (i ∷ []))
  IsOrdered-snoc i seen [] h new deps = (
    sym (or_false (member i seen)) ∙ new,
    λ d dep. sym (or_false (member d seen)) ∙ deps d dep,
    tt,
  )
  IsOrdered-snoc i seen (x ∷ l) h new deps = (
    h.0,
    h.1,
    IsOrdered-snoc i (x ∷ seen) l h.2 (or_swap (member i seen) (x == i) (member i l) ∙ new)
        (λ d dep. or_swap (member d seen) (x == d) (member d l) ∙ deps d dep),
  )

-- How many of the numbers below `n` are not marked.
pub unmarked : (ℕ → Bool) → ℕ → ℕ
unmarked f zero = 0
unmarked f (suc n) = (if f n then 0 else 1) + unmarked f n

unmarked-same : (f : ℕ → Bool) (i : ℕ) (n : ℕ) → n ≤ i → unmarked (mark f i true) n ≡ unmarked f n
unfolding unmarked
unmarked-same f i zero h = refl
unmarked-same f i (suc n) h =
    let other : (n == i) ≡ false = ground arith in
    rw other (ap (λ m. (if f n then 0 else 1) + m) (unmarked-same f i n (omega arith)))

-- One fewer for a new mark.
pub unmarked-mark :
    (f : ℕ → Bool) (i n : ℕ) → i < n → f i ≡ false → suc (unmarked (mark f i true) n) ≡ unmarked f n
unfolding unmarked
unmarked-mark f i zero h new = absurd (omega arith)
unmarked-mark f i (suc n) h new = elim (Bool-cases (n == i)) [
  | inl last ↦
      let e : i ≡ n = ground (arith, last) in
      let same = unmarked-same f i n (omega (arith, e)) in
      let unset : f n ≡ false = subst (λ j. f j ≡ false) e new in
      rw (last, unset) (omega (arith, same))
  | inr other ↦
      let below : i < n = ground (arith, other) in
      let later = unmarked-mark f i n below new in rw other (omega (arith, later))
]

pub mark-back : (f : ℕ → Bool) (i : ℕ) → f i ≡ false → mark (mark f i true) i false ≡ f
mark-back f i new = fun_ext (λ j. elim (Bool-cases (j == i)) [
  | inl same ↦
      let e : i ≡ j = ground (arith, same) in rw same (sym (subst (λ m. f m ≡ false) e new))
  | inr other ↦ rw other refl
])

pub mark_self : (f : ℕ → Bool) (i : ℕ) (b : Bool) → mark f i b i ≡ b
mark_self f i b = let e : (i == i) ≡ true = ground arith in rw e refl

-- A node that is marked is the new one, or it was marked.
pub mark-true : (f : ℕ → Bool) (i j : ℕ) → mark f i true j ≡ true → (i ≡ j) ⊎ (f j ≡ true)
mark-true f i j h = elim (Bool-cases (j == i)) [
  | inl same ↦ inl (ground (arith, same))
  | inr other ↦ inr (subst (λ b. (if b then true else f j) ≡ true) other h)
]

pub mark_keeps : (f : ℕ → Bool) (i j : ℕ) → f j ≡ true → mark f i true j ≡ true
mark_keeps f i j h = elim (Bool-cases (j == i)) [ inl same ↦ rw same refl | inr other ↦ rw other h ]

pub mark_other : (f : ℕ → Bool) (i j : ℕ) (b : Bool) → (j == i) ≡ false → mark f i b j ≡ f j
mark_other f i j b h = rw h refl

-- A node that is still marked is another one.
pub mark-false :
    (f : ℕ → Bool) (i j : ℕ) → mark f i false j ≡ true → ((j == i) ≡ false) × (f j ≡ true)
mark-false f i j h = elim (Bool-cases (j == i)) [
  | inl same ↦ absurd (let e = subst (λ b. (if b then false else f j) ≡ true) same h in (cc))
  | inr other ↦ (other, subst (λ b. (if b then false else f j) ≡ true) other h)
]

pub member-snoc :
    (f : ℕ → Bool) (i j : ℕ) (l : List ℕ)
    → member j l ≡ f j
    → member j (l ++ (i ∷ [])) ≡ mark f i true j
member-snoc f i j l h = elim (Bool-cases (j == i)) [
  | inl same ↦
      let e : (i == j) ≡ true = ground (arith, same) in
      rw (member-append j l (i ∷ []), e, same) (or_true (member j l))
  | inr other ↦
      let e : (i == j) ≡ false = ground (arith, other) in
      rw (member-append j l (i ∷ []), e, other) (or_false (member j l) ∙ h)
]

pub unmarked_none : (f : ℕ → Bool) (n : ℕ) → ((j : ℕ) → j < n → f j ≡ true) → unmarked f n ≡ 0
unfolding unmarked
unmarked_none f zero all = refl
unmarked_none f (suc n) all =
    let rest = unmarked_none f n (λ j h. all j (omega (arith, h))) in
    rw (all n (omega arith)) (omega (arith, rest))

pub unmarked_all : (f : ℕ → Bool) (n : ℕ) → ((j : ℕ) → f j ≡ false) → unmarked f n ≡ n
unfolding unmarked
unmarked_all f zero out = refl
unmarked_all f (suc n) out = let rest = unmarked_all f n out in rw (out n) (omega (arith, rest))

pub member_cons : (j i : ℕ) (l : List ℕ) → member j (i ∷ l) ≡ true → (i ≡ j) ⊎ (member j l ≡ true)
member_cons j i l h = elim (Bool-cases (i == j)) [
  | inl same ↦ inl (ground (arith, same))
  | inr other ↦ inr (subst (λ b. (b || member j l) ≡ true) other h)
]

pub member_there : (j i : ℕ) (l : List ℕ) → member j l ≡ true → member j (i ∷ l) ≡ true
member_there j i l h = rw h (or_true (i == j))
