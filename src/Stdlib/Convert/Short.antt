-- ===== src/Stdlib/Convert/Short.antt =====
-- c/rt/malloc.c: atoi, against strtol of c/rt/stdlib.c.
use mellivora_os.Stdlib.Convert.{
  in_range, digit_value, is_space, skip_space, Digits, digits_loop, sign_of, as_long, number_of,
  read_digits, read_signed, strtol,
}
use mellivora_os.Base.Int.{ℤ, pos}
use mellivora_os.Base.{
  ℕ, ◌+◌, ◌-◌, ◌*◌, ◌≤◌, ◌≡◌, refl, sym, subst, inl, inr, Bool, true, false, ◌||◌, not, List, [],
  ◌∷◌, arith, leb, ◌==◌, if◌then◌else◌, Bool-cases, u32, first,
}

unfoldable pub skip_blank : List ℕ → List ℕ
skip_blank [] = []
skip_blank (c ∷ s) = let rest = skip_blank s in if c == 32 || c == 9 then rest else c ∷ s

-- The sign, and the string behind it.
abbrev pub atoi_sign : List ℕ → Bool × List ℕ
atoi_sign [] = (false, [])
atoi_sign (c ∷ s) = if c == 45 then (true, s) else if c == 43 then (false, s) else (false, c ∷ s)

-- `value` has 32 bits, and wraps where C leaves the overflow undefined.
unfoldable pub atoi_loop : ℕ → List ℕ → ℕ
atoi_loop value [] = value
atoi_loop value (c ∷ s) =
    let further = atoi_loop (u32 (value * 10 + (c - 48))) s in
    if in_range c 48 57 then further else value

abbrev pub signed_value : Bool → ℕ → ℤ
signed_value negative v = as_long (if negative then u32 (0x100000000 - v) else v)

unfoldable pub atoi : List ℕ → ℤ
atoi s = signed_value (atoi_sign (skip_blank s)).0 (atoi_loop 0 (atoi_sign (skip_blank s)).1)

is_space-blank : (c : ℕ) → (c == 32 || c == 9) ≡ true → is_space c ≡ true
is_space-blank c h = ground (arith, h)

skip_blank-skip_space :
    (s : List ℕ) → is_space (first (skip_blank s)) ≡ false → skip_space s ≡ skip_blank s
unfolding skip_blank skip_space
skip_blank-skip_space [] h = refl
skip_blank-skip_space (c ∷ s) h = elim (Bool-cases (c == 32 || c == 9)) [
  | inl blank ↦
      let later =
        skip_blank-skip_space s
          (subst (λ b. is_space (first (if b then skip_blank s else c ∷ s)) ≡ false) blank h) in
      rw (is_space-blank c blank, blank) later
  | inr other ↦
      let no_space =
        subst (λ b. is_space (first (if b then skip_blank s else c ∷ s)) ≡ false) other h in
      rw (no_space, other) refl
]

or_true : (b : Bool) → (b || true) ≡ true
or_true true = refl
or_true false = refl

or_false : (b : Bool) → (b || false) ≡ b
or_false true = refl
or_false false = refl

same_sign : (s : List ℕ) → sign_of s ≡ atoi_sign s
same_sign [] = refl
same_sign (c ∷ s) = elim (Bool-cases (c == 45)) [
  | inl minus ↦ rw (minus, or_true (c == 43)) refl
  | inr no_minus ↦ rw (no_minus, or_false (c == 43)) refl
]

decimal : (c : ℕ) → leb 10 (digit_value c) ≡ not (in_range c 48 57)
unfolding digit_value
decimal c = ground arith

decimal_value : (c : ℕ) → in_range c 48 57 ≡ true → digit_value c ≡ c - 48
unfolding digit_value
decimal_value c h = ground (arith, h)

same_digits : (s : List ℕ) (v n : ℕ) → (digits_loop 10 v n s).value ≡ atoi_loop v s
unfolding digits_loop atoi_loop
same_digits [] v n = refl
same_digits (c ∷ s) v n = elim (Bool-cases (in_range c 48 57)) [
  | inl digit ↦
      rw (decimal c, digit, decimal_value c digit) (same_digits s (u32 (v * 10 + (c - 48))) (n + 1))
  | inr other ↦ rw (decimal c, other) refl
]

count_up : (s : List ℕ) (v n : ℕ) → n ≤ (digits_loop 10 v n s).count
unfolding digits_loop
count_up [] v n = omega arith
count_up (c ∷ s) v n = elim (Bool-cases (leb 10 (digit_value c))) [
  | inl other ↦ rw other (omega arith)
  | inr digit ↦
      let later = count_up s (u32 (v * 10 + digit_value c)) (n + 1) in
      rw digit (omega (arith, later))
]

no_digits : (s : List ℕ) (v : ℕ) → ((digits_loop 10 v 0 s).count == 0) ≡ true → atoi_loop v s ≡ v
unfolding digits_loop atoi_loop
no_digits [] v h = refl
no_digits (c ∷ s) v h = elim (Bool-cases (in_range c 48 57)) [
  | inl digit ↦
      let some_digits = count_up s (u32 (v * 10 + digit_value c)) 1 in
      let counted : ((digits_loop 10 (u32 (v * 10 + digit_value c)) 1 s).count == 0) ≡ true =
        subst
          (λ (b : Bool).
            ((let r : Digits =
                  if not b
                  then record { value = v; count = 0; rest = c ∷ s }
                  else digits_loop 10 (u32 (v * 10 + digit_value c)) 1 s in
                r).count
              == 0)
            ≡ true)
          digit
          (subst
            (λ (b : Bool).
              ((let r : Digits =
                    if b
                    then record { value = v; count = 0; rest = c ∷ s }
                    else digits_loop 10 (u32 (v * 10 + digit_value c)) 1 s in
                  r).count
                == 0)
              ≡ true)
            (decimal c) h) in
      absurd (ground (arith, counted, some_digits))
  | inr other ↦ rw other refl
]

no_value : (negative : Bool) → pos 0 ≡ signed_value negative 0
no_value true = refl
no_value false = refl

same_number :
    (s : List ℕ) (negative : Bool) (p : List ℕ)
    → (number_of s negative (digits_loop 10 0 0 p)).value ≡ signed_value negative (atoi_loop 0 p)
same_number s negative p = elim (Bool-cases ((digits_loop 10 0 0 p).count == 0)) [
  | inl none_read ↦ rw (none_read, no_digits p 0 none_read) (no_value negative)
  | inr read ↦ rw (read, same_digits p 0 0) refl
]

-- `atoi` gives what `strtol` gives to base 10, and wraps where that wraps, if no line break and none of
-- the other spaces that only `strtol` skips stands behind the spaces and tabs at the start.
pub atoi-strtol :
    (s : List ℕ) → is_space (first (skip_blank s)) ≡ false → atoi s ≡ (strtol s 10).value
unfolding atoi strtol read_signed read_digits
atoi-strtol s h =
    rw (skip_blank-skip_space s h, same_sign (skip_blank s))
      (sym (same_number s (atoi_sign (skip_blank s)).0 (atoi_sign (skip_blank s)).1))
