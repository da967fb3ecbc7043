-- ===== src/Stdio/Decimal.antt =====
-- c/rt/stdio.c with c/rt/stdlib.c: what "%d" prints, `strtol` reads back.
use mellivora_os.Stdio.Format.{
  plain, read_directive, read_flags, read_number, read_width, read_precision, skip_modifiers,
  number_digits, out_digits, out_number, conversion, format_loop, magnitude_of, is_minus, sign_of,
}
use mellivora_os.Stdio.Format.Text.{format_text, collect}
use mellivora_os.Stdlib.Convert.{strtol, digit_value, as_long}
use mellivora_os.Stdlib.Convert.Numeral.{strtol-digits, horner, sign_text}
use mellivora_os.Base.Signed.{to_i32}
use mellivora_os.Base.Texts.{codes}
use mellivora_os.Base.Writer.{put_all, put_repeat}
use mathlib.Core.List.{reverse, reverse-cons}
use mellivora_os.Base.{
  ℕ, zero, suc, ◌+◌, ◌-◌, ◌*◌, ◌/◌, ◌%◌, ◌≤◌, ◌<◌, ◌≡◌, refl, sym, ap, ◌∙◌, ◌≢◌, inl, inr, Bool,
  true, false, List, [], ◌∷◌, ◌++◌, append-nil, arith, dec_lt, ◌==◌, if◌then◌else◌, Bool-cases,
  length, get_or, All, All-append, u32,
}

digit_char : (r : ℕ) → r < 10 → get_or (codes "0123456789abcdef") r 0 ≡ 48 + r
digit_char zero h = refl
digit_char (suc zero) h = refl
digit_char (suc (suc zero)) h = refl
digit_char (suc (suc (suc zero))) h = refl
digit_char (suc (suc (suc (suc zero)))) h = refl
digit_char (suc (suc (suc (suc (suc zero))))) h = refl
digit_char (suc (suc (suc (suc (suc (suc zero)))))) h = refl
digit_char (suc (suc (suc (suc (suc (suc (suc zero))))))) h = refl
digit_char (suc (suc (suc (suc (suc (suc (suc (suc zero)))))))) h = refl
digit_char (suc (suc (suc (suc (suc (suc (suc (suc (suc zero))))))))) h = refl
digit_char (suc (suc (suc (suc (suc (suc (suc (suc (suc (suc r)))))))))) h = absurd (omega arith)

digit_of : (r : ℕ) → r < 10 → digit_value (48 + r) ≡ r
unfolding digit_value
digit_of r h = ground arith

horner_last :
    (base v : ℕ) (l : List ℕ) (c : ℕ)
    → horner base v (l ++ (c ∷ [])) ≡ horner base v l * base + digit_value c
horner_last base v [] c = refl
horner_last base v (d ∷ l) c = horner_last base (v * base + digit_value d) l c

-- 10 ^ n
limit : ℕ → ℕ
limit zero = 1
limit (suc n) = 10 * limit n

digits_done : (room n : ℕ) → n < 10 → number_digits (suc room) false 10 n ≡ (48 + n) ∷ []
unfolding number_digits
digits_done room n h =
    let done : (n / 10 == 0) ≡ true = ground arith in
    rw (done, digit_char (n % 10) (omega arith))
      (ap (λ k. (48 + k) ∷ []) (let e : n % 10 ≡ n = omega arith in e))

digits_more :
    (room n : ℕ)
    → 10 ≤ n
    → number_digits (suc room) false 10 n ≡ (48 + n % 10) ∷ number_digits room false 10 (n / 10)
unfolding number_digits
digits_more room n h =
    let more : (n / 10 == 0) ≡ false = ground arith in
    rw (more, digit_char (n % 10) (omega arith)) refl

-- The digits to base 10, read as strtol does.
record IsNumeral (n : ℕ) (l : List ℕ) : Type 0 where
  value : horner 10 0 l ≡ n
  digits : All (λ c. digit_value c < 10) l
  some_digit : l ≢ []

snoc_some : (l : List ℕ) (c : ℕ) → l ++ (c ∷ []) ≢ []
snoc_some [] c e = let n : suc 0 ≡ 0 = ap length e in omega arith
snoc_some (d ∷ l) c e = let n : suc (length (l ++ (c ∷ []))) ≡ 0 = ap length e in omega arith

one_digit : (r : ℕ) → r < 10 → All (λ c. digit_value c < 10) ((48 + r) ∷ [])
one_digit r h = (omega (arith, digit_of r h), tt)

one-IsNumeral : (room n : ℕ) → n < 10 → IsNumeral n (reverse (number_digits (suc room) false 10 n))
one-IsNumeral room n h = rw (digits_done room n h) (record {
  value = omega (arith, digit_of n h);
  digits = one_digit n h;
  some_digit = snoc_some [] (48 + n);
})

more-IsNumeral :
    (room n : ℕ)
    → 10 ≤ n
    → IsNumeral (n / 10) (reverse (number_digits room false 10 (n / 10)))
    → IsNumeral n (reverse (number_digits (suc room) false 10 n))
more-IsNumeral room n many before =
    let high = number_digits room false 10 (n / 10) in
    let c = 48 + n % 10 in
    rw (digits_more room n many, reverse-cons c high)
      (record {
        value =
            horner_last 10 0 (reverse high) c
            ∙ omega (arith, before.value, digit_of (n % 10) (omega arith));
        digits =
            All-append (λ c. digit_value c < 10) (reverse high) (c ∷ []) before.digits
              (one_digit (n % 10) (omega arith));
        some_digit = snoc_some (reverse high) c;
      })

digits-IsNumeral :
    (room n : ℕ)
    → n < limit (suc room)
    → IsNumeral n (reverse (number_digits (suc room) false 10 n))
unfolding limit
digits-IsNumeral zero n small = one-IsNumeral zero n (omega arith)
digits-IsNumeral (suc room) n small = elim (dec_lt n 10) [
  | yes h ↦ one-IsNumeral (suc room) n h
  | no h ↦ more-IsNumeral (suc room) n (omega arith) (digits-IsNumeral room (n / 10) (omega arith))
]

strtol_numeral :
    (minus : Bool) (n : ℕ) (l : List ℕ)
    → IsNumeral n l
    → strtol (sign_text minus ++ l) 10 ≡ record {
      value = as_long (if minus then u32 (0x100000000 - u32 n) else u32 n);
      endptr = [];
      invalid = false;
    }
unfolding digit_value
strtol_numeral minus n [] h = absurd (h.some_digit refl)
strtol_numeral minus n (d ∷ ds) h =
    ap (λ l. strtol (sign_text minus ++ (d ∷ l)) 10) (sym (append-nil ds))
    ∙ strtol-digits 10 [] minus d ds [] (omega arith) (omega arith) (omega arith) tt h.digits
        (omega arith)
    ∙ ap
        (λ v. record {
          value = as_long (if minus then u32 (0x100000000 - u32 v) else u32 v);
          endptr = [];
          invalid = false;
        })
        h.value

out_digits-plain :
    (prefix digits : List ℕ) (s : List ℕ) (next : ℕ) (put : List ℕ → ℕ → List ℕ)
    → out_digits (List ℕ) put (plain next) prefix digits s
      ≡ put_all put (put_all put s prefix) (reverse digits)
unfolding out_digits put_repeat
out_digits-plain prefix digits s next put =
    let none_left : (x : ℕ) → 0 - x ≡ 0 = λ x. omega arith in
    rw (none_left (length digits), none_left (u32 (length digits + 0 + length prefix))) refl

decimal_text :
    (args : ℕ → ℕ) (strings : ℕ → List ℕ)
    → format_text args strings (codes "%d")
      ≡ sign_of (plain 0) (args 0) ++ reverse (number_digits 32 false 10 (magnitude_of (args 0)))
unfolding format_text format_loop read_directive read_flags read_width read_number read_precision
    skip_modifiers conversion out_number
decimal_text args strings =
    let digits = number_digits 32 false 10 (magnitude_of (args 0)) in
    let prefix = sign_of (plain 0) (args 0) in
    out_digits-plain prefix digits [] 0 (λ s c. s ++ (c ∷ []))
    ∙ ap (λ s. put_all (λ (s : List ℕ) c. s ++ (c ∷ [])) s (reverse digits)) (collect [] prefix)
    ∙ collect prefix (reverse digits)

small_number : (w : ℕ) → w < 0x100000000 → magnitude_of w < limit 32
unfolding limit
small_number w h = ground arith

sign_plain : (word : ℕ) → sign_of (plain 0) word ≡ sign_text (is_minus word)
sign_plain word = elim (Bool-cases (is_minus word)) [ inl h ↦ rw h refl | inr h ↦ rw h refl ]

value_back :
    (w : ℕ)
    → w < 0x100000000
    → as_long
        (if is_minus w then u32 (0x100000000 - u32 (magnitude_of w)) else u32 (magnitude_of w))
      ≡ to_i32 w
unfolding to_i32
value_back w h = ground arith

-- What the format "%d" prints of any argument, `strtol` reads back as the number with those 32 bits,
-- to the end of the text and with no error.
pub strtol-format_text :
    (args : ℕ → ℕ) (strings : ℕ → List ℕ)
    → args 0 < 0x100000000
    → strtol (format_text args strings (codes "%d")) 10
      ≡ record { value = to_i32 (args 0); endptr = []; invalid = false }
strtol-format_text args strings h =
    let n = magnitude_of (args 0) in
    let digits = reverse (number_digits 32 false 10 n) in
    ap (λ l. strtol l 10) (decimal_text args strings ∙ ap (λ l. l ++ digits) (sign_plain (args 0)))
    ∙ strtol_numeral (is_minus (args 0)) n digits (digits-IsNumeral 31 n (small_number (args 0) h))
    ∙ ap (λ v. record { value = v; endptr = []; invalid = false }) (value_back (args 0) h)
