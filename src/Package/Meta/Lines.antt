-- ===== src/Package/Meta/Lines.antt =====
-- tools/hbpkg.c: the lines that fgets gives of a file.
use mellivora_os.Base.{
  ℕ, zero, suc, ◌≤◌, ◌<◌, ◌≡◌, refl, ap, ◌∙◌, true, false, List, [], ◌∷◌, ◌++◌, map, arith, ◌==◌,
  length, length-append, All,
}
use mellivora_os.Package.Meta.{read_line, lines_of, in_line, cut_line}

-- A text within a line.
abbrev pub IsLine : List ℕ → Type 0
IsLine s = All (λ c. in_line c ≡ true) s

-- Lines, each with its end.
unfoldable pub joined_lines : List (List ℕ) → List ℕ
joined_lines [] = []
joined_lines (s ∷ l) = s ++ (10 ∷ joined_lines l)

read_line_lem :
    (s b : List ℕ) (n : ℕ)
    → IsLine s
    → length s < n
    → read_line n (s ++ (10 ∷ b)) ≡ (s ++ (10 ∷ []), b)
unfolding read_line
read_line_lem [] b zero h k = absurd (omega (arith, k))
read_line_lem [] b (suc n) h k = refl
read_line_lem (c ∷ s) b zero h k = absurd (omega (arith, k))
read_line_lem (c ∷ s) b (suc n) h k =
    let real = h.0 in
    let not_end : (c == 10) ≡ false = ground (arith, real) in
    rw (not_end, read_line_lem s b n h.1 (omega (arith, k))) refl

pub cut_line_lem : (s : List ℕ) → IsLine s → cut_line (s ++ (10 ∷ [])) ≡ s
unfolding cut_line
cut_line_lem [] h = refl
cut_line_lem (c ∷ s) h = rw h.0 (ap (λ l. c ∷ l) (cut_line_lem s h.1))

abbrev pub with_end : List ℕ → List ℕ
with_end s = s ++ (10 ∷ [])

-- Lines that fgets has the room for.
abbrev pub AreLines : List (List ℕ) → Type 0
AreLines l = All (λ s. IsLine s × (length s < 511)) l

step_lem :
    (fuel : ℕ) (s b : List ℕ)
    → IsLine s
    → length s < 511
    → lines_of (suc fuel) (s ++ (10 ∷ b)) ≡ with_end s ∷ lines_of fuel b
unfolding lines_of
step_lem fuel [] b h k = rw (read_line_lem [] b 511 h k) refl
step_lem fuel (c ∷ s) b h k = rw (read_line_lem (c ∷ s) b 511 h k) refl

pub lines_of-joined_lines :
    (l : List (List ℕ)) (fuel : ℕ)
    → AreLines l
    → length l ≤ fuel
    → lines_of fuel (joined_lines l) ≡ map with_end l
unfolding lines_of joined_lines
lines_of-joined_lines [] zero h k = refl
lines_of-joined_lines [] (suc fuel) h k = refl
lines_of-joined_lines (s ∷ l) zero h k = absurd (omega arith)
lines_of-joined_lines (s ∷ l) (suc fuel) h k =
    step_lem fuel s (joined_lines l) h.0.0 h.0.1
    ∙ ap (λ r. with_end s ∷ r) (lines_of-joined_lines l fuel h.1 (omega arith))

pub length-joined_lines : (l : List (List ℕ)) → length l ≤ length (joined_lines l)
unfolding joined_lines
length-joined_lines [] = omega arith
length-joined_lines (s ∷ l) =
    let sum = length-append s (10 ∷ joined_lines l) in
    let rest = length-joined_lines l in omega (arith, sum, rest)
