-- ===== src/Stdio/Format.antt =====
-- c/rt/stdio.c: the formatter. Its functions are for any sink, since they only call `out_char`, which
-- is `put` here. An argument is a word of 32 bits, the `n`-th one `args n`; the string at a pointer is
-- a parameter.
pub mod Text
use mellivora_os.Base.Int.{ℤ, pos, negsuc, ltb_ℤ, neg_part}
use mellivora_os.Base.Signed.{to_i32}
use mellivora_os.Base.Texts.{codes}
use mellivora_os.Base.Writer.{put_all, put_repeat}
use mathlib.Core.List.{reverse}
use mellivora_os.Base.{
  add-one, ℕ, zero, suc, ◌+◌, ◌-◌, ◌*◌, ◌/◌, ◌%◌, ◌^◌, ◌≤◌, ◌<◌, min, bit_and, bit_or, ◌≡◌, refl,
  sym, ap, ◌∙◌, subst, fun_ext, ◌≢◌, ◌↔◌, ◌⊎◌, inl, inr, Bool, true, false, ◌&&◌, ◌||◌, not, Option,
  none, some, List, [], ◌∷◌, ◌++◌, map, append-nil, append_assoc, arith, dec_lt, ℕ_discrete, ltb,
  leb, ◌==◌, if◌then◌else◌, ltb→lt, lt→ltb, leb→le, ==_iff, tests, Bool-cases, Option-cases, length,
  get_elem?, set, length-append, get_or, take, drop, replicate, take-append-drop, length-take,
  length-drop, length-replicate, length-map, All, All-append, All-drop, drop-append_length, and_ten,
  u8, u16, u32, first, rest_of,
}

-- The flags, the width and the precision of a conversion, and the number of the next argument.
pub record Directive : Type 0 where
  pub left : Bool
  pub pad : ℕ
  pub plus : Bool
  pub space : Bool
  pub alt : Bool
  pub width : ℕ
  pub precision : ℕ
  pub next : ℕ

abbrev pub plain : ℕ → Directive
plain next = record {
  left = false;
  pad = b' ';
  plus = false;
  space = false;
  alt = false;
  width = 0;
  precision = 0;
  next = next;
}

abbrev pub is_flag : ℕ → Bool
is_flag c = c == b'-' || c == b'0' || c == b'+' || c == b' ' || c == b'#'

abbrev pub set_flag : ℕ → Directive → Directive
set_flag c d =
    if c == b'-'
    then record d { left = true }
    else if c == b'0'
    then record d { pad = b'0' }
    else if c == b'+'
    then record d { plus = true }
    else if c == b' '
    then record d { space = true }
    else record d { alt = true }

unfoldable pub read_flags : Directive → List ℕ → Directive × List ℕ
read_flags d [] = (d, [])
read_flags d (c ∷ fmt) =
    let further = read_flags (set_flag c d) fmt in if is_flag c then further else (d, c ∷ fmt)

unfoldable pub read_number : ℕ → List ℕ → ℕ × List ℕ
read_number n [] = (n, [])
read_number n (c ∷ fmt) =
    let further = read_number (u32 (n * 10 + (c - 48))) fmt in
    if leb b'0' c && leb c b'9' then further else (n, c ∷ fmt)

abbrev pub is_modifier : ℕ → Bool
is_modifier c = c == b'l' || c == b'h' || c == b'z' || c == b't' || c == b'j' || c == b'q'

unfoldable pub skip_modifiers : List ℕ → List ℕ
skip_modifiers [] = []
skip_modifiers (c ∷ fmt) = let rest = skip_modifiers fmt in if is_modifier c then rest else c ∷ fmt

-- The size of a number of either sign, as the source negates it.
abbrev pub magnitude_of : ℕ → ℕ
magnitude_of word = if ltb_ℤ (to_i32 word) (pos 0) then u32 (0x100000000 - u32 word) else u32 word

abbrev pub is_minus : ℕ → Bool
is_minus word = ltb_ℤ (to_i32 word) (pos 0)

module _ (args : ℕ → ℕ) where
  unfoldable pub read_width : Directive × List ℕ → Directive × List ℕ
  read_width (d, fmt) =
      if first fmt == b'*'
      then (
        record d {
          left = if is_minus (args d.next) then true else d.left;
          width = magnitude_of (args d.next);
          next = d.next + 1;
        },
        rest_of fmt,
      )
      else (record d { width = (read_number 0 fmt).0 }, (read_number 0 fmt).1)

  -- "%.0d" is still one digit here.
  abbrev pub at_least_one : ℕ → ℕ
  at_least_one n = if n == 0 then 1 else n

  abbrev pub precision_at : Directive → List ℕ → Directive × List ℕ
  precision_at d fmt =
      if first fmt == b'*'
      then (
        record d {
          precision = at_least_one (if is_minus (args d.next) then 0 else u32 (args d.next));
          next = d.next + 1;
        },
        rest_of fmt,
      )
      else (record d { precision = at_least_one (read_number 0 fmt).0 }, (read_number 0 fmt).1)

  unfoldable pub read_precision : Directive × List ℕ → Directive × List ℕ
  read_precision (d, fmt) = if first fmt == b'.' then precision_at d (rest_of fmt) else (d, fmt)

  -- What stands between `%` and the letter of the conversion.
  unfoldable pub read_directive : ℕ → List ℕ → Directive × List ℕ
  read_directive next fmt =
      let (d, rest) = read_precision (read_width (read_flags (plain next) fmt)) in
      (d, skip_modifiers rest)

abbrev pub digit_table : Bool → List ℕ
digit_table upper = if upper then codes "0123456789ABCDEF" else codes "0123456789abcdef"

-- The digits, last one first; `room` is what is left of the buffer of 32.
unfoldable pub number_digits : ℕ → Bool → ℕ → ℕ → List ℕ
number_digits zero upper base n = []
number_digits (suc room) upper base n =
    let more = number_digits room upper base (n / base) in
    get_or (digit_table upper) (n % base) 0 ∷ (if n / base == 0 then [] else more)

module _ (S : Type 0) (put : S → ℕ → S) where
  unfoldable pub out_digits : Directive → List ℕ → List ℕ → S → S
  out_digits d prefix digits s =
      let zeros = d.precision - length digits in
      let shown = u32 (length digits + zeros + length prefix) in
      let fill = d.width - shown in
      let spaced = if not d.left && d.pad == b' ' then put_repeat put b' ' fill s else s in
      let prefixed = put_all put spaced prefix in
      let filled =
        if not d.left && d.pad == b'0' && d.precision == 0
        then put_repeat put b'0' fill prefixed
        else prefixed in
      let shown_all = put_all put (put_repeat put b'0' zeros filled) (reverse digits) in
      if d.left then put_repeat put b' ' fill shown_all else shown_all

  unfoldable pub out_number : Directive → ℕ → List ℕ → ℕ → Bool → S → S
  out_number d magnitude prefix base upper =
      out_digits d prefix (number_digits 32 upper base magnitude)

abbrev pub is_signed : ℕ → Bool
is_signed c = c == b'd' || c == b'i'

abbrev pub sign_of : Directive → ℕ → List ℕ
sign_of d word =
    if is_minus word
    then codes "-"
    else if d.plus
    then codes "+"
    else if d.space
    then codes " "
    else []

-- "%.3s" prints three bytes at most.
abbrev pub shown_text : Directive → List ℕ → List ℕ
shown_text d text =
    if not (d.precision == 0) && ltb d.precision (length text) then take d.precision text else text

abbrev pub eight_wide : Directive
eight_wide = record (plain 0) { pad = b'0'; width = 8 }

abbrev pub takes_word : ℕ → Bool
takes_word c =
    is_signed c
    || c == b'u'
    || c == b'o'
    || c == b'x'
    || c == b'X'
    || c == b'p'
    || c == b's'
    || c == b'c'

module _ (args : ℕ → ℕ) (strings : ℕ → List ℕ) where
  abbrev pub string_at : ℕ → List ℕ
  string_at pointer = if u32 pointer == 0 then codes "(null)" else strings (u32 pointer)

  module _ (S : Type 0) (put : S → ℕ → S) where
    unfoldable pub out_string : Directive → List ℕ → S → S
    out_string d text s =
        let shown = shown_text d text in
        let fill = d.width - length shown in
        let spaced = if d.left then s else put_repeat put b' ' fill s in
        let put_text = put_all put spaced shown in
        if d.left then put_repeat put b' ' fill put_text else put_text

    -- A floating point conversion prints as it was written, as does any letter that is not known.
    unfoldable pub conversion : Directive → ℕ → S → S
    conversion d c s =
        let word = args d.next in
        if is_signed c
        then out_number S put d (magnitude_of word) (sign_of d word) 10 false s
        else if c == b'u'
        then out_number S put d (u32 word) [] 10 false s
        else if c == b'o'
        then out_number S put d (u32 word) (if d.alt then codes "0" else []) 8 false s
        else if c == b'x'
        then out_number S put d (u32 word) (if d.alt then codes "0x" else []) 16 false s
        else if c == b'X'
        then out_number S put d (u32 word) (if d.alt then codes "0X" else []) 16 true s
        else if c == b'p'
        then out_number S put eight_wide (u32 word) [] 16 false (put_all put s (codes "0x"))
        else if c == b's'
        then out_string d (string_at word) s
        else if c == b'c'
        then put s (u8 word)
        else put (put s b'%') c

    -- The loop of `format_into` over the format. `skip` is the number of bytes that the last
    -- conversion has taken and that are still before `fmt` here, `next` that of the next argument.
    unfoldable pub format_loop : ℕ → ℕ → List ℕ → S → S
    format_loop next skip [] s = s
    format_loop next (suc skip) (c ∷ fmt) s = format_loop next skip fmt s
    format_loop next zero (c ∷ fmt) s = elim (c == b'%') [
      | false ↦ format_loop next 0 fmt (put s c)
      | true ↦ elim (first fmt == b'%') [
        | true ↦ format_loop next 1 fmt (put s b'%')
        | false ↦
            let d = (read_directive args next fmt).0 in
            elim (read_directive args next fmt).1 [
              | [] ↦ put s b'%'
              | letter ∷ rest ↦
                  format_loop (if takes_word letter then d.next + 1 else d.next)
                    (length fmt - length rest) fmt (conversion d letter s)
            ]
      ]
    ]
