-- ===== src/Str/Compare/Order.antt =====
-- c/rt/string.c: `strcmp` and `strncmp` against the lexicographic order of bytes.
use mellivora_os.Base.{
  ℕ, zero, suc, min, ◌≡◌, refl, sym, ap, ◌∙◌, ◌↔◌, List, [], ◌∷◌, arith, take, length,
}
use Prim.Native.Nat.{compare, Ordering}
use mellivora_os.Base.Int.{ℤ, pos, negsuc, ◌-ℤ◌}
use mellivora_os.Str.Compare.{IsText, strlen, strnlen, strcmp, strncmp}

-- The sign of an int.
abbrev pub sign : ℤ → Ordering
sign (pos zero) = Ordering.eq
sign (pos (suc n)) = Ordering.gt
sign (negsuc n) = Ordering.lt

-- Lexicographic order; a proper prefix comes first.
abbrev pub lex : List ℕ → List ℕ → Ordering
lex [] [] = Ordering.eq
lex [] (y ∷ b) = Ordering.lt
lex (x ∷ a) [] = Ordering.gt
lex (x ∷ a) (y ∷ b) = elim (compare x y) [
  | Ordering.lt ↦ Ordering.lt
  | Ordering.gt ↦ Ordering.gt
  | Ordering.eq ↦ lex a b
]

sign_diff : (x y : ℕ) → sign (pos x -ℤ pos y) ≡ compare x y
unfolding ◌-ℤ◌
sign_diff x y = ground arith

-- `strcmp` has the sign of the lexicographic comparison of the two strings as unsigned bytes.
pub sign-strcmp : (a b : List ℕ) → IsText a → IsText b → sign (strcmp a b) ≡ lex a b
unfolding strcmp
sign-strcmp [] [] h k = sign_diff 0 0
sign-strcmp [] (y ∷ b) h k = ground (arith, sign_diff 0 y)
sign-strcmp (x ∷ a) [] h k = ground (arith, sign_diff x 0)
sign-strcmp (x ∷ a) (y ∷ b) h k = ground (arith, sign_diff x y, sign-strcmp a b h.1 k.1)

-- `strncmp` has the sign of the comparison of the first `n` bytes of the two strings.
pub sign-strncmp :
    (a b : List ℕ) (n : ℕ) → IsText a → IsText b → sign (strncmp a b n) ≡ lex (take n a) (take n b)
unfolding strncmp
sign-strncmp a b zero h k = refl
sign-strncmp [] [] (suc n) h k = sign_diff 0 0
sign-strncmp [] (y ∷ b) (suc n) h k = ground (arith, sign_diff 0 y)
sign-strncmp (x ∷ a) [] (suc n) h k = ground (arith, sign_diff x 0)
sign-strncmp (x ∷ a) (y ∷ b) (suc n) h k = ground (arith, sign_diff x y, sign-strncmp a b n h.1 k.1)

lex-eq : (a b : List ℕ) → lex a b ≡ Ordering.eq → a ≡ b
lex-eq [] [] e = refl
lex-eq [] (y ∷ b) e = cc
lex-eq (x ∷ a) [] e = cc
lex-eq (x ∷ a) (y ∷ b) e = ground (arith, lex-eq a b)

lex_refl : (a : List ℕ) → lex a a ≡ Ordering.eq
lex_refl [] = refl
lex_refl (x ∷ a) = ground (arith, lex_refl a)

pub sign_eq : (z : ℤ) → sign z ≡ Ordering.eq → z ≡ pos 0
sign_eq (pos zero) e = refl
sign_eq (pos (suc n)) e = cc
sign_eq (negsuc n) e = cc

-- `strncmp` answers 0 exactly when the first `n` bytes of the two strings agree.
pub strncmp-eq_iff :
    (a b : List ℕ) (n : ℕ) → IsText a → IsText b → (strncmp a b n ≡ pos 0) ↔ (take n a ≡ take n b)
strncmp-eq_iff a b n h k = (
  λ e. lex-eq _ _ (sym (sign-strncmp a b n h k) ∙ ap sign e),
  λ e. sign_eq _ (sign-strncmp a b n h k ∙ ap (lex (take n a)) (sym e) ∙ lex_refl (take n a)),
)

-- `strlen` is the length, and `strnlen` the smaller of it and its bound.
pub strnlen-strlen : (s : List ℕ) (max : ℕ) → strnlen s max ≡ min max (strlen s)
unfolding strnlen strlen
strnlen-strlen s zero = omega arith
strnlen-strlen [] (suc max) = omega arith
strnlen-strlen (c ∷ s) (suc max) = omega (arith, strnlen-strlen s max)

pub strlen-length : (s : List ℕ) → strlen s ≡ length s
unfolding strlen
strlen-length [] = refl
strlen-length (c ∷ s) = omega (arith, strlen-length s)
