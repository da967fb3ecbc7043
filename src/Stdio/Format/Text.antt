-- ===== src/Stdio/Format/Text.antt =====
-- c/rt/stdio.c: what the formatter puts does not depend on the sink.
use mellivora_os.Stdio.Format.{
  Directive, read_directive, number_digits, out_digits, out_number, out_string, conversion,
  format_loop, magnitude_of, sign_of, is_signed, shown_text, eight_wide, string_at, takes_word,
}
use mellivora_os.Base.Texts.{codes}
use mellivora_os.Base.Writer.{
  put_all, Writes, writes_nothing, writes_one, writes_all, writes_both, writes_repeat, writes_if,
  writes_case, writes_list,
}
use mathlib.Core.List.{reverse}
use mellivora_os.Base.{
  ℕ, zero, suc, ◌+◌, ◌-◌, ◌≡◌, sym, ap, ◌∙◌, Bool, true, false, ◌&&◌, not, List, [], ◌∷◌, ◌++◌,
  append-nil, append_assoc, ◌==◌, if◌then◌else◌, length, u8, u32, first,
}

out_digits-Writes :
    (d : Directive) (prefix digits : List ℕ) → Writes (λ S put. out_digits S put d prefix digits)
unfolding out_digits
out_digits-Writes d prefix digits =
    let zeros = d.precision - length digits in
    let fill = d.width - u32 (length digits + zeros + length prefix) in
    writes_both _ _
      (writes_both _ _
        (writes_both _ _
          (writes_both _ _
            (writes_both _ _
              (writes_if (not d.left && d.pad == b' ') _ _ (writes_repeat b' ' fill) writes_nothing)
              (writes_all prefix))
            (writes_if (not d.left && d.pad == b'0' && d.precision == 0) _ _
              (writes_repeat b'0' fill) writes_nothing))
          (writes_repeat b'0' zeros))
        (writes_all (reverse digits)))
      (writes_if d.left _ _ (writes_repeat b' ' fill) writes_nothing)

out_number-Writes :
    (d : Directive) (n : ℕ) (prefix : List ℕ) (base : ℕ) (upper : Bool)
    → Writes (λ S put. out_number S put d n prefix base upper)
unfolding out_number
out_number-Writes d n prefix base upper = out_digits-Writes d prefix (number_digits 32 upper base n)

pub collect : (s l : List ℕ) → put_all (λ (t : List ℕ) c. t ++ (c ∷ [])) s l ≡ s ++ l
unfolding put_all
collect s [] = sym (append-nil s)
collect s (c ∷ l) = collect (s ++ (c ∷ [])) l ∙ append_assoc s (c ∷ []) l

module _ (args : ℕ → ℕ) (strings : ℕ → List ℕ) where
  out_string-Writes :
      (d : Directive) (text : List ℕ) → Writes (λ S put. out_string args strings S put d text)
  unfolding out_string
  out_string-Writes d text =
      let shown = shown_text d text in
      let fill = d.width - length shown in
      writes_both _ _
        (writes_both _ _ (writes_if d.left _ _ writes_nothing (writes_repeat b' ' fill))
          (writes_all shown))
        (writes_if d.left _ _ (writes_repeat b' ' fill) writes_nothing)

  conversion-Writes : (d : Directive) (c : ℕ) → Writes (λ S put. conversion args strings S put d c)
  unfolding conversion
  conversion-Writes d c =
      let word = args d.next in
      writes_if (is_signed c) _ _
        (out_number-Writes d (magnitude_of word) (sign_of d word) 10 false)
        (writes_if (c == b'u') _ _ (out_number-Writes d (u32 word) [] 10 false) (
          writes_if (c == b'o') _ _
            (out_number-Writes d (u32 word) (if d.alt then codes "0" else []) 8 false)
            (writes_if (c == b'x') _ _
              (out_number-Writes d (u32 word) (if d.alt then codes "0x" else []) 16 false)
              (writes_if (c == b'X') _ _
                (out_number-Writes d (u32 word) (if d.alt then codes "0X" else []) 16 true)
                (writes_if (c == b'p') _ _
                  (writes_both _ _ (writes_all (codes "0x"))
                    (out_number-Writes eight_wide (u32 word) [] 16 false))
                  (writes_if (c == b's') _ _ (out_string-Writes d (string_at args strings word)) (
                    writes_if (c == b'c') _ _ (writes_one (u8 word))
                      (writes_both _ _ (writes_one b'%') (writes_one c)))))))))

  pub format_loop-Writes :
      (next skip : ℕ) (fmt : List ℕ)
      → Writes (λ S put. format_loop args strings S put next skip fmt)
  unfolding format_loop
  format_loop-Writes next skip [] = writes_nothing
  format_loop-Writes next (suc skip) (c ∷ fmt) = format_loop-Writes next skip fmt
  format_loop-Writes next zero (c ∷ fmt) =
      let d = (read_directive args next fmt).0 in
      writes_case (c == b'%') _ _
        (writes_case (first fmt == b'%') _ _
          (writes_both _ _ (writes_one b'%') (format_loop-Writes next 1 fmt))
          (writes_list (read_directive args next fmt).1 _ _ (writes_one b'%') (λ letter rest.
            writes_both _ _ (conversion-Writes d letter) (
              format_loop-Writes (if takes_word letter then d.next + 1 else d.next)
                (length fmt - length rest) fmt))))
        (writes_both _ _ (writes_one c) (format_loop-Writes next 0 fmt))

  -- What the format puts, with a list as the sink.
  unfoldable pub format_text : List ℕ → List ℕ
  format_text fmt = format_loop args strings (List ℕ) (λ s c. s ++ (c ∷ [])) 0 0 fmt []

  -- The formatter puts that text into every sink.
  pub format_loop-put_all :
      (fmt : List ℕ) (S : Type 0) (put : S → ℕ → S) (s : S)
      → format_loop args strings S put 0 0 fmt s ≡ put_all put s (format_text fmt)
  unfolding format_text
  format_loop-put_all fmt S put s =
      let w = format_loop-Writes 0 0 fmt in
      w.law S put s
      ∙ ap (put_all put s) (sym (w.law (List ℕ) (λ t c. t ++ (c ∷ [])) [] ∙ collect [] w.text))
