-- ===== src/Time/Format.antt =====
-- c/rt/time.c: strftime. The functions above `put` are for any sink, as they only call it.
pub mod Truncate
use mellivora_os.Time.{Tm, tz_offset_minutes}
use mellivora_os.Base.Int.{ℤ, pos, negsuc, ltb_ℤ, ◌+ℤ◌, ◌-ℤ◌, pos_part, neg_part}
use mellivora_os.Base.Signed.{i32, to_u32, quot_ℤ, rem_ℤ}
use mellivora_os.Base.Texts.{codes}
use mellivora_os.Base.Writer.{put_all, put_repeat}
use mathlib.Core.List.{reverse}
use mellivora_os.Base.{
  add-one, ℕ, zero, suc, ◌+◌, ◌-◌, ◌*◌, ◌/◌, ◌%◌, ◌^◌, ◌≤◌, ◌<◌, min, bit_and, bit_or, ◌≡◌, refl,
  sym, ap, ◌∙◌, subst, fun_ext, ◌≢◌, ◌↔◌, ◌⊎◌, inl, inr, Bool, true, false, ◌&&◌, ◌||◌, not, Option,
  none, some, List, [], ◌∷◌, ◌++◌, map, append-nil, append_assoc, arith, dec_lt, ℕ_discrete, ltb,
  leb, ◌==◌, if◌then◌else◌, ltb→lt, lt→ltb, leb→le, ==_iff, tests, Bool-cases, Option-cases, length,
  get_elem?, set, length-append, get_or, take, drop, replicate, take-append-drop, length-take,
  length-drop, length-replicate, length-map, All, All-append, All-drop, drop-append_length, and_ten,
  u8, u16, u32, first, rest_of,
}

abbrev pub is_zero : ℤ → Bool
is_zero z = pos_part z == 0 && neg_part z == 0

-- The digits, last one first; `room` is what is left of the buffer of twelve.
unfoldable pub digits_of : ℕ → ℤ → List ℕ
digits_of zero value = []
digits_of (suc room) value =
    let more = digits_of room (quot_ℤ value 10) in
    to_u32 (pos 48 +ℤ rem_ℤ value 10) % 256 ∷ (if is_zero (quot_ℤ value 10) then [] else more)

abbrev pub day_names : List (List ℕ)
day_names =
    codes "Sunday"
    ∷ codes "Monday"
    ∷ codes "Tuesday"
    ∷ codes "Wednesday"
    ∷ codes "Thursday"
    ∷ codes "Friday"
    ∷ codes "Saturday"
    ∷ []

abbrev pub month_names : List (List ℕ)
month_names =
    codes "January"
    ∷ codes "February"
    ∷ codes "March"
    ∷ codes "April"
    ∷ codes "May"
    ∷ codes "June"
    ∷ codes "July"
    ∷ codes "August"
    ∷ codes "September"
    ∷ codes "October"
    ∷ codes "November"
    ∷ codes "December"
    ∷ []

-- An entry of a table; `outside` is what lies before it, at a negative index.
abbrev pub entry : (List (List ℕ) → ℤ → List ℕ) → List (List ℕ) → ℤ → List ℕ
entry outside table (pos n) = get_or table n []
entry outside table (negsuc n) = outside table (negsuc n)

module _ (outside : List (List ℕ) → ℤ → List ℕ) (S : Type 0) (put : S → ℕ → S) where
  abbrev pub put_text : List ℕ → S → S
  put_text l s = put_all put s l

  unfoldable pub put_digits : ℤ → ℕ → ℕ → S → S
  put_digits value width pad s =
      put_text (reverse (digits_of 12 value))
        (put_repeat put pad (width - length (digits_of 12 value)) s)

  unfoldable pub put_num : ℤ → ℕ → ℕ → S → S
  put_num value width pad s =
      if ltb_ℤ value (pos 0)
      then put_digits (i32 (pos 0 -ℤ value)) width pad (put s b'-')
      else put_digits value width pad s

  unfoldable pub put_zone : Option (List ℕ) → S → S
  put_zone tz s =
      let minutes = tz_offset_minutes tz in
      let mag = if ltb_ℤ minutes (pos 0) then i32 (pos 0 -ℤ minutes) else minutes in
      let signed = put (put_text (codes "UTC") s) (if ltb_ℤ minutes (pos 0) then b'-' else b'+') in
      put_num (rem_ℤ mag 60) 2 b'0' (put (put_num (quot_ℤ mag 60) 2 b'0' signed) b':')

  -- One conversion, by its letter.
  unfoldable pub conversion : Option (List ℕ) → Tm → ℕ → S → S
  conversion tz tm c s =
      let year = i32 (tm.year +ℤ pos 1900) in
      let half = rem_ℤ tm.hour 12 in
      if c == b'Y'
      then put_num year 4 b'0' s
      else if c == b'y'
      then put_num (rem_ℤ year 100) 2 b'0' s
      else if c == b'm'
      then put_num (i32 (tm.mon +ℤ pos 1)) 2 b'0' s
      else if c == b'd'
      then put_num tm.mday 2 b'0' s
      else if c == b'e'
      then put_num tm.mday 2 b' ' s
      else if c == b'H'
      then put_num tm.hour 2 b'0' s
      else if c == b'I'
      then put_num (if is_zero half then pos 12 else half) 2 b'0' s
      else if c == b'M'
      then put_num tm.min 2 b'0' s
      else if c == b'S'
      then put_num tm.sec 2 b'0' s
      else if c == b'j'
      then put_num (i32 (tm.yday +ℤ pos 1)) 3 b'0' s
      else if c == b'a'
      then put_text (entry outside (map (take 3) day_names) (rem_ℤ tm.wday 7)) s
      else if c == b'A'
      then put_text (entry outside day_names (rem_ℤ tm.wday 7)) s
      else if c == b'b'
      then put_text (entry outside (map (take 3) month_names) (rem_ℤ tm.mon 12)) s
      else if c == b'B'
      then put_text (entry outside month_names (rem_ℤ tm.mon 12)) s
      else if c == b'p'
      then put_text (if ltb_ℤ tm.hour (pos 12) then codes "AM" else codes "PM") s
      else if c == b'Z'
      then put_zone tz s
      else if c == b'%'
      then put s b'%'
      else put s c

  -- The loop over the format. A `%` that is its last byte is put as it is.
  unfoldable pub format_loop : Option (List ℕ) → Tm → List ℕ → S → S
  format_loop tz tm [] s = s
  format_loop tz tm (c ∷ []) s = put s c
  format_loop tz tm (c ∷ d ∷ fmt) s = elim (c == b'%') [
    | true ↦ format_loop tz tm fmt (conversion tz tm d s)
    | false ↦ format_loop tz tm (d ∷ fmt) (put s c)
  ]

-- The sink: the bytes stored, with `used` their number.
pub record Out : Type 0 where
  pub stored : List ℕ
  pub size : ℕ
  pub overflow : Bool

unfoldable pub put : Out → ℕ → Out
put o c =
    if leb o.size (length o.stored + 1)
    then record o { overflow = true }
    else record o { stored = o.stored ++ (c ∷ []) }

-- What is stored before the terminator, and the result. Nothing is stored where `size` is 0.
pub record Formatted : Type 0 where
  pub text : List ℕ
  pub result : ℕ

unfoldable pub strftime :
    (List (List ℕ) → ℤ → List ℕ) → Option (List ℕ) → ℕ → List ℕ → Tm → Formatted
strftime outside tz size fmt tm =
    let o =
      format_loop outside Out put tz tm fmt
        (record { stored = []; size = size; overflow = false }) in
    if size == 0
    then record { text = []; result = 0 }
    else record { text = o.stored; result = if o.overflow then 0 else length o.stored }
