-- ===== src/Str/Search/Sub.antt =====
-- c/rt/string.c: `strstr` against the occurrences of one string in another.
use mellivora_os.Base.{
  ℕ, suc, ◌≤◌, ◌≡◌, refl, sym, ap, ◌∙◌, inl, inr, Bool, true, ◌&&◌, Option, none, some, List, [],
  ◌∷◌, ◌++◌, arith, ◌==◌, Bool-cases, length, take, drop, take-append-drop, first,
}
use mathlib.Core.Option
use mellivora_os.Base.Int.{ℤ, pos}
use mellivora_os.Str.Search.{strstr, strstr_loop}
use mellivora_os.Str.Compare.{IsText, strncmp, eqb_ℤ}
use mellivora_os.Str.Compare.Order.{strncmp-eq_iff, strlen-length}

take-length : (s t : List ℕ) → take (length s) (s ++ t) ≡ s
take-length [] t = refl
take-length (x ∷ s) t = ap (◌∷◌ x) (take-length s t)

take-length_self : (s : List ℕ) → take (length s) s ≡ s
take-length_self [] = refl
take-length_self (x ∷ s) = ap (◌∷◌ x) (take-length_self s)

-- The test of one round: whether the needle stands here.
abbrev hit : List ℕ → List ℕ → Bool
hit here needle = first here == first needle && eqb_ℤ (strncmp here needle (length needle)) (pos 0)

eqb_zero : (z : ℤ) → eqb_ℤ z (pos 0) ≡ true → z ≡ pos 0
eqb_zero z h = ground arith

hit-append :
    (y : ℕ) (needle post : List ℕ)
    → IsText (y ∷ needle)
    → IsText ((y ∷ needle) ++ post)
    → hit ((y ∷ needle) ++ post) (y ∷ needle) ≡ true
hit-append y needle post h k = rw (z, same)
  where
    z : strncmp ((y ∷ needle) ++ post) (y ∷ needle) (length (y ∷ needle)) ≡ pos 0
    z =
        (strncmp-eq_iff _ _ _ k h).1
          (take-length (y ∷ needle) post ∙ sym (take-length_self (y ∷ needle)))

    same : (y == y) ≡ true
    same = ground arith

append-hit :
    (here : List ℕ) (needle : List ℕ)
    → IsText here
    → IsText needle
    → hit here needle ≡ true
    → here ≡ needle ++ drop (length needle) here
append-hit here needle h k e =
    sym (take-append-drop (length needle) here)
    ∙ ap (λ t. t ++ drop (length needle) here)
        ((strncmp-eq_iff here needle (length needle) h k).0 (eqb_zero _ (ground arith))
          ∙ take-length_self needle)

map-suc-inv :
    (o : Option ℕ) (i : ℕ) → Option.map suc o ≡ some i → (j : ℕ) × (o ≡ some j) × (i ≡ suc j)
map-suc-inv none i e = cc
map-suc-inv (some j) i e = (j, refl, cc)

module _ (y : ℕ) (needle : List ℕ) (text : IsText (y ∷ needle)) where
  Occurs : List ℕ → ℕ → Type 0
  Occurs s i = (pre post : List ℕ) × (s ≡ pre ++ ((y ∷ needle) ++ post)) × (length pre ≡ i)

  Occurs-cons : (x : ℕ) (s : List ℕ) (i j : ℕ) → i ≡ suc j → Occurs s j → Occurs (x ∷ s) i
  unfolding Occurs
  Occurs-cons x s i j h (pre, post, e, l) = (x ∷ pre, post, ap (◌∷◌ x) e, omega (arith, l))

  strstr_loop_sound :
      (s : List ℕ)
      → IsText s
      → (i : ℕ) → strstr_loop s (y ∷ needle) (length (y ∷ needle)) ≡ some i
      → Occurs s i
  unfolding strstr_loop
  strstr_loop_sound [] h i e = cc
  strstr_loop_sound (x ∷ s) h i e = elim (Bool-cases (hit (x ∷ s) (y ∷ needle))) [
    | inl here ↦
        unfold Occurs in
        (
          [],
          drop (length (y ∷ needle)) (x ∷ s),
          append-hit (x ∷ s) (y ∷ needle) h text here,
          some-injective' (rw here at e),
        )
    | inr not_here ↦
        let (j, e', l) = map-suc-inv _ i (rw not_here at e) in
        Occurs-cons x s i j l (strstr_loop_sound s h.1 j e')
  ]
    where
      some-injective' : {a b : ℕ} → some a ≡ some b → a ≡ b
      some-injective' e = cc

  strstr_loop_complete :
      (pre post : List ℕ)
      → IsText (pre ++ ((y ∷ needle) ++ post))
      → (i : ℕ) × (strstr_loop (pre ++ ((y ∷ needle) ++ post)) (y ∷ needle) (length (y ∷ needle))
          ≡ some i)
        × (i ≤ length pre)
  unfolding strstr_loop
  strstr_loop_complete [] post h = (0, rw (hit-append y needle post text h), omega arith)
  strstr_loop_complete (x ∷ pre) post h =
      elim (Bool-cases (hit ((x ∷ pre) ++ ((y ∷ needle) ++ post)) (y ∷ needle))) [
        | inl here ↦ (0, rw here, omega arith)
        | inr not_here ↦
            let (i, e, l) = strstr_loop_complete pre post h.1 in
            (suc i, rw (not_here, e), omega (arith, l))
      ]

-- Where `strstr` answers with a pointer, the needle stands there.
pub strstr_sound :
    (s needle : List ℕ) (i : ℕ)
    → IsText s
    → IsText needle
    → strstr s needle ≡ some i
    → (pre post : List ℕ) × (s ≡ pre ++ (needle ++ post)) × (length pre ≡ i)
unfolding strstr Occurs
strstr_sound s [] i h k e = ([], s, refl, cc)
strstr_sound s (y ∷ needle) i h k e = strstr_loop_sound y needle k s h i (rw strlen-length at e)

-- Where the needle occurs, `strstr` finds it, at that place or before.
pub strstr_complete :
    (pre needle post : List ℕ)
    → IsText (pre ++ (needle ++ post))
    → IsText needle
    → (i : ℕ) × (strstr (pre ++ (needle ++ post)) needle ≡ some i) × (i ≤ length pre)
unfolding strstr
strstr_complete pre [] post h k = (0, refl, omega arith)
strstr_complete pre (y ∷ needle) post h k =
    rw strlen-length (strstr_loop_complete y needle k pre post h)
