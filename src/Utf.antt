-- ===== src/Utf.antt =====
-- c/rt/utf.c: one code point from and to UTF-8, and whole strings between UTF-8 and UTF-16.
-- A string is the list of the units before its terminator; a read at the end gives the 0.
pub mod Plain
pub mod Decode
pub mod Inversion
pub mod Points
pub mod Fit
pub mod Wide
pub mod Narrow
pub mod Print
pub mod RoundTrip
mod Tests
use mellivora_os.Base.{
  ℕ, zero, suc, ◌+◌, ◌-◌, ◌*◌, ◌/◌, ◌%◌, ◌^◌, bit_and, bit_or, ltb, leb, ◌==◌, if◌then◌else◌, Bool,
  true, false, ◌&&◌, ◌||◌, not, List, [], ◌∷◌, ◌++◌, Option, none, some, length, drop, u8, u16, u32,
  first, rest_of,
}

-- MV_REPLACEMENT
abbrev pub replacement : ℕ
replacement = 0xFFFD

-- What `mv_utf8_decode` returns, and what it stores through `len`.
pub record Decoded : Type 0 where
  pub cp : ℕ
  pub len : ℕ

abbrev pub malformed : Decoded
malformed = record { cp = replacement; len = 1 }

-- The loop over the continuation bytes, with the rounds left; `none` is its jump to `malformed`.
pub continue_bytes : ℕ → List ℕ → ℕ → Option ℕ
continue_bytes zero s cp = some cp
continue_bytes (suc n) s cp =
    let more = continue_bytes n (rest_of s) (bit_or (u32 (cp * 64)) (bit_and (first s) 0x3F)) in
    if bit_and (first s) 0xC0 == 0x80 then more else none

-- The checks behind the loop: what UTF-8 cannot mean, whatever the bytes say.
abbrev pub is_invalid : ℕ → ℕ → Bool
is_invalid need cp =
    (need == 2 && ltb cp 0x800)
    || (need == 3 && ltb cp 0x10000)
    || ltb 0x10FFFF cp
    || (leb 0xD800 cp && leb cp 0xDFFF)

pub check_range : ℕ → ℕ → Decoded
check_range need cp = if is_invalid need cp then malformed else record { cp = cp; len = need + 1 }

-- From the lead byte on, with the count of continuation bytes that it asks for.
pub decode_tail : ℕ → List ℕ → ℕ → Decoded
decode_tail need s cp = elim (continue_bytes need s cp) [
  | none ↦ malformed
  | some c ↦ check_range need c
]

pub utf8_decode : List ℕ → Decoded
unfolding decode_tail check_range
utf8_decode s =
    if ltb (first s) 0x80
    then record { cp = first s; len = 1 }
    else if bit_and (first s) 0xE0 == 0xC0
    then (if ltb (bit_and (first s) 0x1F) 0x02
        then malformed
        else decode_tail 1 (rest_of s) (bit_and (first s) 0x1F))
    else if bit_and (first s) 0xF0 == 0xE0
    then decode_tail 2 (rest_of s) (bit_and (first s) 0x0F)
    else if bit_and (first s) 0xF8 == 0xF0
    then decode_tail 3 (rest_of s) (bit_and (first s) 0x07)
    else malformed

-- The bytes stored through `out`, in order; the function returns their number.
pub utf8_encode : ℕ → List ℕ
utf8_encode cp =
    if ltb cp 0x80
    then u8 cp ∷ []
    else if ltb cp 0x800
    then u8 (bit_or 0xC0 (cp / 64)) ∷ u8 (bit_or 0x80 (bit_and cp 0x3F)) ∷ []
    else if ltb cp 0x10000
    then u8 (bit_or 0xE0 (cp / 4096))
      ∷ u8 (bit_or 0x80 (bit_and (cp / 64) 0x3F))
      ∷ u8 (bit_or 0x80 (bit_and cp 0x3F))
      ∷ []
    else u8 (bit_or 0xF0 (cp / 2 ^ 18))
      ∷ u8 (bit_or 0x80 (bit_and (cp / 4096) 0x3F))
      ∷ u8 (bit_or 0x80 (bit_and (cp / 64) 0x3F))
      ∷ u8 (bit_or 0x80 (bit_and cp 0x3F))
      ∷ []

-- The loops over a string take the number of code points that they may still read; `none` means
-- that this fuel ran out. The length of the string is enough.
pub utf16_len_loop : ℕ → List ℕ → ℕ → Option ℕ
utf16_len_loop fuel [] units = some units
utf16_len_loop zero (b ∷ s) units = none
utf16_len_loop (suc fuel) (b ∷ s) units =
    let d = utf8_decode (b ∷ s) in
    utf16_len_loop fuel (drop d.len (b ∷ s)) (u32 (units + (if ltb 0xFFFF d.cp then 2 else 1)))

pub utf16_len : List ℕ → Option ℕ
unfolding utf16_len_loop
utf16_len s = utf16_len_loop (length s) s 0

-- What a conversion leaves in the caller's buffer, terminator included, and what it returns.
pub record Converted : Type 0 where
  pub buffer : List ℕ
  pub written : ℕ

-- The stores so far, and the one behind the loop.
pub finish : ℕ → List ℕ → Converted
finish cap out = record { buffer = if cap == 0 then out else out ++ (0 ∷ []); written = length out }

-- The units of one code point.
pub utf16_units : ℕ → List ℕ
utf16_units cp =
    if ltb 0xFFFF cp
    then u16 (0xD800 + (cp - 0x10000) / 1024) ∷ u16 (0xDC00 + bit_and (cp - 0x10000) 0x3FF) ∷ []
    else u16 cp ∷ []

-- Whether a code point of so many units does not fit behind `written`.
pub no_room : ℕ → ℕ → ℕ → Bool
no_room written size cap = leb cap (u32 (written + size))

pub to_utf16_loop : ℕ → List ℕ → ℕ → List ℕ → Option (List ℕ)
to_utf16_loop fuel [] cap out = some out
to_utf16_loop zero (b ∷ s) cap out = none
to_utf16_loop (suc fuel) (b ∷ s) cap out =
    let d = utf8_decode (b ∷ s) in
    let units = utf16_units d.cp in
    let more = to_utf16_loop fuel (drop d.len (b ∷ s)) cap (out ++ units) in
    if no_room (length out) (if ltb 0xFFFF d.cp then 2 else 1) cap then some out else more

pub utf8_to_utf16 : List ℕ → ℕ → Option Converted
utf8_to_utf16 s cap = elim (to_utf16_loop (length s) s cap []) [
  | none ↦ none
  | some out ↦ some (finish cap out)
]

pub is_high : ℕ → Bool
is_high w = leb 0xD800 w && leb w 0xDBFF

pub is_low : ℕ → Bool
is_low w = leb 0xDC00 w && leb w 0xDFFF

-- The code point that begins with the unit `w`, and the units behind it.
pub utf16_next : ℕ → List ℕ → ℕ × List ℕ
unfolding is_high is_low
utf16_next w s =
    if is_high w
    then (if is_low (first s)
        then (0x10000 + (w - 0xD800) * 1024 + (first s - 0xDC00), rest_of s)
        else (replacement, s))
    else if is_low w
    then (replacement, s)
    else (w, s)

pub to_utf8_loop : ℕ → List ℕ → ℕ → List ℕ → Option (List ℕ)
to_utf8_loop fuel [] cap out = some out
to_utf8_loop zero (w ∷ s) cap out = none
to_utf8_loop (suc fuel) (w ∷ s) cap out =
    let (cp, behind) = utf16_next w s in
    let bytes = utf8_encode cp in
    let more = to_utf8_loop fuel behind cap (out ++ bytes) in
    if no_room (length out) (length bytes) cap then some out else more

pub utf16_to_utf8 : List ℕ → ℕ → Option Converted
utf16_to_utf8 wide cap = elim (to_utf8_loop (length wide) wide cap []) [
  | none ↦ none
  | some out ↦ some (finish cap out)
]

-- What `mv_printw` hands to `printf`, call after call: `buf` is flushed when the next code point
-- does not fit.
pub printw_loop : ℕ → List ℕ → List ℕ → List (List ℕ) → Option (List (List ℕ))
printw_loop fuel [] buf printed = some (printed ++ (buf ∷ []))
printw_loop zero (w ∷ s) buf printed = none
printw_loop (suc fuel) (w ∷ s) buf printed =
    let (cp, behind) = utf16_next w s in
    let one = utf8_encode cp in
    let flushed = printw_loop fuel behind one (printed ++ (buf ∷ [])) in
    let kept = printw_loop fuel behind (buf ++ one) printed in
    if leb 128 (length buf + length one) then flushed else kept

pub printw : List ℕ → Option (List (List ℕ))
printw wide = printw_loop (length wide) wide [] []
