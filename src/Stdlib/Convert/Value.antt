-- ===== src/Stdlib/Convert/Value.antt =====
-- c/rt/stdlib.c: the number that strtol reads, by the values that the digits stand for.
use mellivora_os.Base.{
  ℕ, ◌≡◌, refl, List, ◌<◌, inl, ◌≤◌, Bool-cases, All, dec_lt, ◌+◌, ◌∷◌, Bool, arith, ◌⊎◌, ◌≢◌, inr,
  ◌*◌, true, ◌-◌, first, ◌++◌, [], if◌then◌else◌, ap, ◌∙◌, u32, false,
}
use mellivora_os.Stdlib.Convert.{digit_value, is_space, as_long, strtol, in_range}
use mellivora_os.Stdlib.Convert.Numeral.{horner, sign_text, strtol-digits}

-- A byte stands for a value from 0 to 35: '0' to '9' (48 to 57) for 0 to 9, and a letter of the
-- alphabet, small (from 97) or capital (from 65), for 10 and its place.
abbrev pub StandsFor : ℕ → ℕ → Type 0
StandsFor c v =
    ((v < 10) × (c ≡ 48 + v)) ⊎ ((k : ℕ) × (k < 26) × (v ≡ 10 + k) × ((c ≡ 97 + k) ⊎ (c ≡ 65 + k)))

abbrev pub AllStandFor : List ℕ → List ℕ → Type 0
AllStandFor [] [] = Unit
AllStandFor [] (v ∷ vs) = ⊥
AllStandFor (c ∷ ds) [] = ⊥
AllStandFor (c ∷ ds) (v ∷ vs) = StandsFor c v × AllStandFor ds vs

-- The number with these digits to a base, behind those that are worth `n`.
abbrev pub in_base : ℕ → ℕ → List ℕ → ℕ
in_base base n [] = n
in_base base n (v ∷ vs) = in_base base (n * base + v) vs

StandsFor-digit_value : (c v : ℕ) → StandsFor c v → digit_value c ≡ v
unfolding digit_value
StandsFor-digit_value c v (inl (l, e)) = ground (arith, l, e)
StandsFor-digit_value c v (inr (k, l, e, inl small)) = ground (arith, l, e, small)
StandsFor-digit_value c v (inr (k, l, e, inr capital)) = ground (arith, l, e, capital)

digit_value-StandsFor : (c : ℕ) → digit_value c < 36 → StandsFor c (digit_value c)
unfolding digit_value
digit_value-StandsFor c h = elim (Bool-cases (in_range c 48 57)) [
  | inl digit ↦ inl (ground (arith, digit), ground (arith, digit))
  | inr no_digit ↦ elim (Bool-cases (in_range c 97 122)) [
    | inl small ↦ inr (
      c - 97,
      ground (arith, small),
      ground (arith, no_digit, small),
      inl (ground (arith, small)),
    )
    | inr no_small ↦ elim (Bool-cases (in_range c 65 90)) [
      | inl capital ↦ inr (
        c - 65,
        ground (arith, capital),
        ground (arith, no_digit, no_small, capital),
        inr (ground (arith, capital)),
      )
      | inr nothing ↦ absurd (ground (arith, h, no_digit, no_small, nothing))
    ]
  ]
]

horner-in_base :
    (base n : ℕ) (ds vs : List ℕ) → AllStandFor ds vs → horner base n ds ≡ in_base base n vs
horner-in_base base n [] [] h = refl
horner-in_base base n [] (v ∷ vs) h = elim h [ ]
horner-in_base base n (c ∷ ds) [] h = elim h [ ]
horner-in_base base n (c ∷ ds) (v ∷ vs) (hc, h) =
    ap (λ w. horner base (n * base + w) ds) (StandsFor-digit_value c v hc)
    ∙ horner-in_base base (n * base + v) ds vs h

digits_below :
    (base : ℕ) (ds vs : List ℕ)
    → AllStandFor ds vs
    → All (λ v. v < base) vs
    → All (λ c. digit_value c < base) ds
digits_below base [] [] h l = tt
digits_below base [] (v ∷ vs) h l = tt
digits_below base (c ∷ ds) [] h l = elim h [ ]
digits_below base (c ∷ ds) (v ∷ vs) (hc, h) (lv, l) =
    (omega (arith, StandsFor-digit_value c v hc, lv), digits_below base ds vs h l)

stops : (base c : ℕ) → base ≤ 36 → ((v : ℕ) → v < base → ¬ StandsFor c v) → base ≤ digit_value c
stops base c high none_there = elim (dec_lt (digit_value c) base) [
  | yes below ↦
      absurd
        (none_there (digit_value c) below (digit_value-StandsFor c (omega (arith, below, high))))
  | no above ↦ omega (arith, above)
]

-- To a base from 2 to 36 other than 16, `strtol` reads spaces, a minus or none and digits of the base,
-- one at least, up to the first byte that is no digit of it: the value is the number that has in
-- this base the digits that the bytes stand for, modulo 2 ^ 32, negated after a minus, as a signed
-- number of 32 bits; `endptr` is what follows, and `errno` is left alone.
pub strtol_lem :
    (base : ℕ) (spaces : List ℕ) (minus : Bool) (d v : ℕ) (ds vs rest : List ℕ)
    → 2 ≤ base
    → base ≤ 36
    → base ≢ 16
    → All (λ x. is_space x ≡ true) spaces
    → AllStandFor (d ∷ ds) (v ∷ vs)
    → All (λ w. w < base) (v ∷ vs)
    → ((w : ℕ) → w < base → ¬ StandsFor (first rest) w)
    → strtol (spaces ++ (sign_text minus ++ (d ∷ (ds ++ rest)))) base ≡ record {
      value = as_long (
          if minus
          then u32 (0x100000000 - u32 (in_base base 0 (v ∷ vs)))
          else u32 (in_base base 0 (v ∷ vs)));
      endptr = rest;
      invalid = false;
    }
strtol_lem base spaces minus d v ds vs rest low high other all stand below end =
    strtol-digits base spaces minus d ds rest low high other all
      (digits_below base (d ∷ ds) (v ∷ vs) stand below) (stops base (first rest) high end)
    ∙ ap
        (λ n. record {
          value = as_long (if minus then u32 (0x100000000 - u32 n) else u32 n);
          endptr = rest;
          invalid = false;
        })
        (horner-in_base base 0 (d ∷ ds) (v ∷ vs) stand)
