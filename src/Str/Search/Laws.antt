-- ===== src/Str/Search/Laws.antt =====
-- c/rt/string.c: `strchr` and `strrchr` against the first and the last occurrence of a byte.
use mellivora_os.Base.{
  ℕ, suc, ◌+◌, ◌%◌, ◌<◌, ◌≡◌, refl, ap, ◌∙◌, ◌≢◌, ◌⊎◌, inl, inr, false, Option, none, some, List,
  [], ◌∷◌, ◌++◌, arith, ◌==◌, Bool-cases, length, All,
}
use mathlib.Core.Option
use mellivora_os.Str.Search.{strchr, strrchr, strrchr_loop}
use mellivora_os.Str.Compare.{IsText}

abbrev pub Lacks : ℕ → List ℕ → Type 0
Lacks c s = All (λ x. x ≢ c) s

-- `strchr` finds the first byte equal to `c`, and null exactly where the string lacks it.
pub strchr_lem :
    (s : List ℕ) (c : ℕ)
    → 0 < c
    → c < 256
    → ((strchr s c ≡ none) × Lacks c s)
      ⊎ ((pre post : List ℕ) × (s ≡ pre ++ (c ∷ post))
          × Lacks c pre
          × (strchr s c ≡ some (length pre)))
unfolding strchr
strchr_lem [] c h k = inl (ground arith, tt)
strchr_lem (x ∷ s) c h k = elim (Bool-cases (x == c % 256)) [
  | inl same ↦ rw same (inr ([], s, ap (λ t. t ∷ s) (ground arith), tt, refl))
  | inr other ↦ rw other (go (ground arith) (strchr_lem s c h k))
]
  where
    go :
        x ≢ c
        → ((strchr s c ≡ none) × Lacks c s)
          ⊎ ((pre post : List ℕ) × (s ≡ pre ++ (c ∷ post))
              × Lacks c pre
              × (strchr s c ≡ some (length pre)))
        → ((Option.map suc (strchr s c) ≡ none) × Lacks c (x ∷ s))
          ⊎ ((pre post : List ℕ) × ((x ∷ s) ≡ pre ++ (c ∷ post))
              × Lacks c pre
              × (Option.map suc (strchr s c) ≡ some (length pre)))
    go ne (inl (e, l)) = inl (rw e, (ne, l))
    go ne (inr (pre, post, e, l, f)) = inr (x ∷ pre, post, ap (◌∷◌ x) e, (ne, l), rw f)

-- The terminator is found at the end of the string.
pub strchr-zero : (s : List ℕ) → IsText s → strchr s 0 ≡ some (length s)
unfolding strchr
strchr-zero [] h = refl
strchr-zero (x ∷ s) h =
    let e : (x == 0) ≡ false = ground (arith, h.0.0) in rw (e, strchr-zero s h.1)

-- What a search for the last `c` of `s` answers, where `found` is the last one before `s`.
abbrev LastAt : ℕ → List ℕ → ℕ → Option ℕ → Option ℕ → Type 0
LastAt c s at found r =
    ((r ≡ found) × Lacks c s)
    ⊎ ((pre post : List ℕ) × (s ≡ pre ++ (c ∷ post)) × Lacks c post × (r ≡ some (at + length pre)))

LastAt-hit :
    (c x : ℕ) (s : List ℕ) (at : ℕ) (found r : Option ℕ)
    → x ≡ c
    → LastAt c s (at + 1) (some at) r
    → LastAt c (x ∷ s) at found r
LastAt-hit c x s at found r h (inl (e, l)) =
    inr ([], s, ap (λ t. t ∷ s) h, l, e ∙ ap some (omega arith))
LastAt-hit c x s at found r h (inr (pre, post, e, l, f)) =
    inr (x ∷ pre, post, ap (◌∷◌ x) e, l, f ∙ ap some (omega arith))

LastAt-miss :
    (c x : ℕ) (s : List ℕ) (at : ℕ) (found r : Option ℕ)
    → x ≢ c
    → LastAt c s (at + 1) found r
    → LastAt c (x ∷ s) at found r
LastAt-miss c x s at found r h (inl (e, l)) = inl (e, (h, l))
LastAt-miss c x s at found r h (inr (pre, post, e, l, f)) =
    inr (x ∷ pre, post, ap (◌∷◌ x) e, l, f ∙ ap some (omega arith))

strrchr_loop_lem :
    (s : List ℕ) (c at : ℕ) (found : Option ℕ)
    → 0 < c
    → c < 256
    → LastAt c s at found (strrchr_loop s c at found)
unfolding strrchr_loop
strrchr_loop_lem [] c at found h k = inl (ground arith, tt)
strrchr_loop_lem (x ∷ s) c at found h k = elim (Bool-cases (x == c % 256)) [
  | inl same ↦
      rw same
        (LastAt-hit c x s at found _ (ground arith) (strrchr_loop_lem s c (at + 1) (some at) h k))
  | inr other ↦
      rw other
        (LastAt-miss c x s at found _ (ground arith) (strrchr_loop_lem s c (at + 1) found h k))
]

-- `strrchr` finds the last byte equal to `c`, and null exactly where the string lacks it.
pub strrchr_lem :
    (s : List ℕ) (c : ℕ)
    → 0 < c
    → c < 256
    → ((strrchr s c ≡ none) × Lacks c s)
      ⊎ ((pre post : List ℕ) × (s ≡ pre ++ (c ∷ post))
          × Lacks c post
          × (strrchr s c ≡ some (length pre)))
unfolding strrchr
strrchr_lem s c h k = elim (strrchr_loop_lem s c 0 none h k) [
  | inl (e, l) ↦ inl (e, l)
  | inr (pre, post, e, l, f) ↦ inr (pre, post, e, l, f ∙ ap some (omega arith))
]
