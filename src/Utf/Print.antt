-- ===== src/Utf/Print.antt =====
-- c/rt/utf.c: `mv_printw` prints the UTF-8 form of its string, through a buffer of 128 bytes.
use mellivora_os.Base.{
  ℕ, zero, suc, ◌+◌, ◌≤◌, ◌<◌, ◌≡◌, refl, sym, ap, ◌∙◌, subst, inl, inr, Option, some, List, [],
  ◌∷◌, ◌++◌, append-nil, append_assoc, arith, leb, Bool-cases, length, length-append, All,
  All-append,
}
use mellivora_os.Utf.{utf8_encode, utf16_next, printw, printw_loop}
use mellivora_os.Utf.Points.{encoded, utf16_points, utf16_next_bounds, length-encode, IsUnit16}

-- The calls of `printf` one behind the other.
abbrev pub together : List (List ℕ) → List ℕ
together [] = []
together (s ∷ printed) = s ++ together printed

together-snoc :
    (printed : List (List ℕ)) (s : List ℕ) → together (printed ++ (s ∷ [])) ≡ together printed ++ s
together-snoc [] s = append-nil s
together-snoc (p ∷ printed) s =
    ap (λ t. p ++ t) (together-snoc printed s) ∙ sym (append_assoc p (together printed) s)

abbrev pub FitsBuffer : List ℕ → Type 0
FitsBuffer s = length s < 128

-- What one run of the loop prints.
abbrev Prints : Option (List (List ℕ)) → List ℕ → Type 0
Prints o text =
    (printed : List (List ℕ)) × (o ≡ some printed)
    × (together printed ≡ text)
    × All FitsBuffer printed

printw_loop_lem :
    (fuel : ℕ) (s buf : List ℕ) (printed : List (List ℕ))
    → All IsUnit16 s
    → length s ≤ fuel
    → FitsBuffer buf
    → All FitsBuffer printed
    → Prints
        (printw_loop fuel s buf printed)
        ((together printed ++ buf) ++ encoded utf8_encode (utf16_points fuel s))
unfolding printw_loop utf16_points
printw_loop_lem zero [] buf printed units h k l = (
  printed ++ (buf ∷ []),
  refl,
  rw (together-snoc, append-nil),
  All-append FitsBuffer printed (buf ∷ []) l (k, tt),
)
printw_loop_lem (suc fuel) [] buf printed units h k l = (
  printed ++ (buf ∷ []),
  refl,
  rw (together-snoc, append-nil),
  All-append FitsBuffer printed (buf ∷ []) l (k, tt),
)
printw_loop_lem zero (w ∷ s) buf printed units h k l = absurd (omega arith)
printw_loop_lem (suc fuel) (w ∷ s) buf printed units h k l =
    elim (Bool-cases (leb 128 (length buf + length (utf8_encode cp)))) [
      | inl full ↦ rw full (
          subst
            (Prints (printw_loop fuel (utf16_next w s).1 (utf8_encode cp) (printed ++ (buf ∷ []))))
            (simp (together-snoc, append_assoc))
            (printw_loop_lem fuel (utf16_next w s).1 (utf8_encode cp) (printed ++ (buf ∷ []))
              (utf16_next_bounds w s units).2 (omega (arith, utf16_next_bounds w s units))
              (omega (arith, length-encode cp))
              (All-append FitsBuffer printed (buf ∷ []) l (k, tt))))
      | inr room ↦ rw room (
          subst (Prints (printw_loop fuel (utf16_next w s).1 (buf ++ utf8_encode cp) printed))
            (simp append_assoc)
            (printw_loop_lem fuel (utf16_next w s).1 (buf ++ utf8_encode cp) printed
              (utf16_next_bounds w s units).2 (omega (arith, utf16_next_bounds w s units))
              (ground (arith, length-append buf (utf8_encode cp))) l))
    ]
  where
    cp : ℕ
    cp = (utf16_next w s).0

-- `mv_printw` ends on every string of 16-bit units; what its calls of `printf` are given is, one
-- behind the other, the UTF-8 form of the string, and each is shorter than its buffer.
pub printw_lem :
    (s : List ℕ)
    → All IsUnit16 s
    → (printed : List (List ℕ)) × (printw s ≡ some printed)
      × (together printed ≡ encoded utf8_encode (utf16_points (length s) s))
      × All FitsBuffer printed
unfolding printw
printw_lem s units = printw_loop_lem (length s) s [] [] units (omega arith) (omega arith) tt
