-- ===== src/Stdlib/Convert/Numeral.antt =====
-- c/rt/stdlib.c: what strtol reads of a numeral.
use mellivora_os.Stdlib.Convert.{
  read_digits, read_signed, digit_value, is_space, skip_space, digits_loop, sign_of, base_of,
  as_long, number_of, strtol,
}
use native.Mathlib.Nat.{add-mul, mul_assoc}
use mellivora_os.Base.{
  ℕ, suc, ◌+◌, ◌-◌, ◌*◌, ◌/◌, ◌≤◌, ◌<◌, ◌≡◌, refl, sym, ap, ◌∙◌, ◌≢◌, Bool, true, false, ◌||◌, List,
  [], ◌∷◌, ◌++◌, arith, dec_lt, leb, ◌==◌, if◌then◌else◌, length, All, u32, first,
}

-- The value of digits to a base, behind those that are worth `v`.
abbrev pub horner : ℕ → ℕ → List ℕ → ℕ
horner base v [] = v
horner base v (c ∷ ds) = horner base (v * base + digit_value c) ds

shift_word : (k y : ℕ) → u32 (0x100000000 * k + y) ≡ u32 y
shift_word k y = omega arith

split_word : (x b : ℕ) → x * b ≡ 0x100000000 * (x / 0x100000000 * b) + u32 x * b
split_word x b =
    ap (λ k. k * b) (let e : x ≡ 0x100000000 * (x / 0x100000000) + u32 x = omega arith in e)
    ∙ add-mul (0x100000000 * (x / 0x100000000)) (u32 x) b
    ∙ ap (λ k. k + u32 x * b) (mul_assoc 0x100000000 (x / 0x100000000) b)

word_step : (x b d : ℕ) → u32 (u32 x * b + d) ≡ u32 (x * b + d)
word_step x b d =
    let big = x / 0x100000000 * b in
    let small = u32 x * b in
    sym (shift_word big (small + d)) ∙ ap u32 (omega (arith, split_word x b))

le→leb : (a b : ℕ) → a ≤ b → leb a b ≡ true
le→leb a b h = ground arith

lt→leb : (a b : ℕ) → b < a → leb a b ≡ false
lt→leb a b h = ground arith

digits_loop_lem :
    (base v n : ℕ) (ds rest : List ℕ)
    → All (λ c. digit_value c < base) ds
    → base ≤ digit_value (first rest)
    → digits_loop base (u32 v) n (ds ++ rest)
      ≡ record { value = u32 (horner base v ds); count = n + length ds; rest = rest }
unfolding digits_loop
digits_loop_lem base v n [] [] all stop =
    ap (λ k. record { value = u32 v; count = k; rest = [] }) (let e : n ≡ n + 0 = omega arith in e)
digits_loop_lem base v n [] (c ∷ rest) all stop = rw (le→leb base (digit_value c) stop) (
    ap (λ k. record { value = u32 v; count = k; rest = c ∷ rest })
      (let e : n ≡ n + 0 = omega arith in e))
digits_loop_lem base v n (d ∷ ds) rest (hd, all) stop = rw (lt→leb base (digit_value d) hd) (
    ap (λ k. digits_loop base k (n + 1) (ds ++ rest)) (word_step v base (digit_value d))
    ∙ digits_loop_lem base (v * base + digit_value d) (n + 1) ds rest all stop
    ∙ ap
        (λ k. record {
          value = u32 (horner base (v * base + digit_value d) ds);
          count = k;
          rest = rest;
        })
        (let e : n + 1 + length ds ≡ n + suc (length ds) = omega arith in e))

digit_from : (c : ℕ) → digit_value c < 36 → 48 ≤ c
unfolding digit_value
digit_from c h = elim (dec_lt c 48) [ yes below ↦ absurd (ground arith) | no above ↦ omega arith ]

-- A digit is neither a space nor a sign.
space_below : (c : ℕ) → 48 ≤ c → is_space c ≡ false
space_below c h = ground arith

sign_below : (c : ℕ) → 48 ≤ c → (c == 43 || c == 45) ≡ false
sign_below c h = ground arith

-- The sign as it is written.
abbrev pub sign_text : Bool → List ℕ
sign_text minus = if minus then 45 ∷ [] else []

sign_of_digits :
    (minus : Bool) (c : ℕ) (s : List ℕ)
    → 48 ≤ c
    → sign_of (skip_space (sign_text minus ++ c ∷ s)) ≡ (minus, c ∷ s)
unfolding skip_space
sign_of_digits true c s h = refl
sign_of_digits false c s h = rw (space_below c h, sign_below c h) refl

skip_space_blanks :
    (spaces s : List ℕ)
    → All (λ x. is_space x ≡ true) spaces
    → skip_space (spaces ++ s) ≡ skip_space s
unfolding skip_space
skip_space_blanks [] s all = refl
skip_space_blanks (x ∷ spaces) s (hx, all) = rw hx (skip_space_blanks spaces s all)

base_of_plain : (base : ℕ) (p : List ℕ) → 0 < base → base ≢ 16 → base_of base p ≡ (base, p)
base_of_plain base p h other =
    let zero_no : (base == 0) ≡ false = ground arith in
    let hex_no : (base == 16) ≡ false = ground arith in rw (zero_no, hex_no) refl

counted :
    (s : List ℕ) (minus : Bool) (v n : ℕ) (rest : List ℕ)
    → number_of s minus (record { value = v; count = 0 + suc n; rest = rest }) ≡ record {
      value = as_long (if minus then u32 (0x100000000 - v) else v);
      endptr = rest;
      invalid = false;
    }
counted s minus v n rest =
    let some_read : (0 + suc n == 0) ≡ false = ground arith in rw some_read refl

-- The same with the digits read by `digit_value`.
pub strtol-digits :
    (base : ℕ) (spaces : List ℕ) (minus : Bool) (d : ℕ) (ds rest : List ℕ)
    → 2 ≤ base
    → base ≤ 36
    → base ≢ 16
    → All (λ x. is_space x ≡ true) spaces
    → All (λ c. digit_value c < base) (d ∷ ds)
    → base ≤ digit_value (first rest)
    → strtol (spaces ++ (sign_text minus ++ (d ∷ (ds ++ rest)))) base ≡ record {
      value = as_long (
          if minus
          then u32 (0x100000000 - u32 (horner base 0 (d ∷ ds)))
          else u32 (horner base 0 (d ∷ ds)));
      endptr = rest;
      invalid = false;
    }
unfolding strtol read_signed read_digits
strtol-digits base spaces minus d ds rest low high other all (hd, digits) stop =
    let tail = d ∷ (ds ++ rest) in
    let s = spaces ++ (sign_text minus ++ tail) in
    let signed : sign_of (skip_space s) ≡ (minus, tail) =
      ap sign_of (skip_space_blanks spaces (sign_text minus ++ tail) all)
      ∙ sign_of_digits minus d (ds ++ rest) (digit_from d (omega arith)) in
    ap (read_signed s base) signed
    ∙ ap (read_digits s minus) (base_of_plain base tail (omega arith) other)
    ∙ ap (number_of s minus) (digits_loop_lem base 0 0 (d ∷ ds) rest (hd, digits) stop)
    ∙ counted s minus (u32 (horner base 0 (d ∷ ds))) (length ds) rest
