-- ===== src/Str/Compare/Fold.antt =====
-- c/rt/string.c: the comparisons that ignore the case of ASCII letters.
use mellivora_os.Base.{
  zero, suc, ℕ, ◌+◌, ◌≤◌, ◌<◌, ◌≡◌, refl, ap, ◌≢◌, ◌↔◌, inl, inr, false, ◌&&◌, List, [], ◌∷◌, map,
  arith, leb, ◌==◌, if◌then◌else◌, ==_iff, Bool-cases, first, rest_of, take, suc,
}
use mellivora_os.Base.Int.{pos, ◌-ℤ◌, pos_part, neg_part}
use mellivora_os.Str.Compare.{IsText, strcasecmp, fold_case, eqb_ℤ, strcmp, strncasecmp}

-- A byte with the letters A to Z taken to lower case.
abbrev pub lower : ℕ → ℕ
lower c = if leb b'A' c && leb c b'Z' then c + 32 else c

eqb_fold : (x y : ℕ) → x < 256 → y < 256 → eqb_ℤ (fold_case x) (fold_case y) ≡ (lower x == lower y)
unfolding fold_case
eqb_fold x y h k = ground arith

diff_fold :
    (x y : ℕ)
    → x < 256
    → y < 256
    → (lower x == lower y) ≡ false
    → fold_case x -ℤ fold_case y ≢ pos 0
unfolding fold_case ◌-ℤ◌
diff_fold x y h k e z = ground arith

-- `strcasecmp` answers 0 exactly when the strings agree up to the case of ASCII letters.
pub strcasecmp-eq_iff :
    (a b : List ℕ) → IsText a → IsText b → (strcasecmp a b ≡ pos 0) ↔ (map lower a ≡ map lower b)
unfolding strcasecmp ◌-ℤ◌
strcasecmp-eq_iff [] [] h k = (λ e. refl, λ e. refl)
strcasecmp-eq_iff [] (y ∷ b) h k = (λ e. ground arith, λ e. cc)
strcasecmp-eq_iff (x ∷ a) [] h k = (λ e. ground arith, λ e. cc)
strcasecmp-eq_iff (x ∷ a) (y ∷ b) h k = elim (Bool-cases (lower x == lower y)) [
  | inl same ↦
      rw (eqb_fold x y h.0.1 k.0.1, same)
        (let ih = strcasecmp-eq_iff a b h.1 k.1 in
          let e0 : lower x ≡ lower y = (==_iff _ _).0 same in
          (λ e. cc (e0, ih.0 e), λ e. ih.1 (ap rest_of e)))
  | inr other ↦
      rw (eqb_fold x y h.0.1 k.0.1, other)
        ((
          λ e. absurd (diff_fold x y h.0.1 k.0.1 other e),
          λ e. absurd (ground (arith, ap first e)),
        ))
]

-- A byte from 128 up compares below every ASCII byte here, and above it in `strcmp`.
pub strcasecmp-high_byte :
    (x y : ℕ) (a b : List ℕ)
    → 128 ≤ x
    → x < 256
    → 0 < y
    → y < 128
    → (pos_part (strcasecmp (x ∷ a) (y ∷ b)) ≡ 0)
      × (0 < neg_part (strcasecmp (x ∷ a) (y ∷ b)))
      × (0 < pos_part (strcmp (x ∷ a) (y ∷ b)))
unfolding strcasecmp strcmp fold_case ◌-ℤ◌
strcasecmp-high_byte x y a b h k l m = ground arith

-- One of two strings has ended and the other has not.
ended :
    (x : ℕ)
    → 0 < x
    → x < 256
    → (eqb_ℤ (fold_case x) (fold_case 0) ≡ false)
      × (eqb_ℤ (fold_case 0) (fold_case x) ≡ false)
      × (fold_case x -ℤ fold_case 0 ≢ pos 0)
      × (fold_case 0 -ℤ fold_case x ≢ pos 0)
unfolding fold_case ◌-ℤ◌
ended x h k = (ground arith, ground arith, λ e. ground arith, λ e. ground arith)

-- `strncasecmp` answers 0 exactly when the first `n` bytes agree up to the case of letters.
pub strncasecmp-eq_iff :
    (a b : List ℕ) (n : ℕ)
    → IsText a
    → IsText b
    → (strncasecmp a b n ≡ pos 0) ↔ (map lower (take n a) ≡ map lower (take n b))
unfolding strncasecmp
strncasecmp-eq_iff a b zero h k = (λ e. refl, λ e. refl)
strncasecmp-eq_iff [] [] (suc n) h k = (λ e. refl, λ e. unfold fold_case in refl)
strncasecmp-eq_iff [] (y ∷ b) (suc n) h k =
    let (_, e1, _, e2) = ended y k.0.0 k.0.1 in rw e1 (λ e. absurd (e2 e), λ e. cc)
strncasecmp-eq_iff (x ∷ a) [] (suc n) h k =
    let (e1, _, e2, _) = ended x h.0.0 h.0.1 in rw e1 (λ e. absurd (e2 e), λ e. cc)
strncasecmp-eq_iff (x ∷ a) (y ∷ b) (suc n) h k = elim (Bool-cases (lower x == lower y)) [
  | inl same ↦
      rw (eqb_fold x y h.0.1 k.0.1, same, not_end)
        (let ih = strncasecmp-eq_iff a b n h.1 k.1 in
          let e0 : lower x ≡ lower y = (==_iff _ _).0 same in
          (λ e. cc (e0, ih.0 e), λ e. ih.1 (ap rest_of e)))
  | inr other ↦
      rw (eqb_fold x y h.0.1 k.0.1, other)
        (λ e. absurd (diff_fold x y h.0.1 k.0.1 other e), λ e. absurd (ground (arith, ap first e)))
]
  where
    not_end : (x == 0) ≡ false
    not_end = ground (arith, h.0.0)
