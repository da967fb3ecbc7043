-- ===== src/Utf/Tests.antt =====
-- c/rt/utf.c: runs of the functions, and the theorems at concrete inputs.
use mellivora_os.Base.{ℕ, ◌+◌, ◌≤◌, ◌≡◌, refl, ◌⊎◌, some, List, [], ◌∷◌, ◌++◌, arith, length, first}
use mellivora_os.Utf.{
  utf8_encode, utf8_decode, continue_bytes, utf16_units, utf8_to_utf16, utf16_to_utf8,
  to_utf16_loop, to_utf8_loop, utf16_len, utf16_len_loop, printw, printw_loop, utf16_next, no_room,
  finish, malformed,
}
use mellivora_os.Utf.Points.{encoded, utf8_points, utf16_points}
use mellivora_os.Utf.Decode.{Decodes}
use mellivora_os.Utf.Inversion.{utf8_decode_lem}
use mellivora_os.Utf.Wide.{utf8_to_utf16_lem}
use mellivora_os.Utf.Narrow.{utf16_to_utf8_lem}
use mellivora_os.Utf.RoundTrip.{utf8_to_utf16-utf16_to_utf8}

-- "h", U+20AC, U+1F600.
abbrev text : List ℕ
text = 0x68 ∷ 0xE2 ∷ 0x82 ∷ 0xAC ∷ 0xF0 ∷ 0x9F ∷ 0x98 ∷ 0x80 ∷ []

abbrev wide_text : List ℕ
wide_text = 0x68 ∷ 0x20AC ∷ 0xD83D ∷ 0xDE00 ∷ []

to_utf16_text : utf8_to_utf16 text 5 ≡ some (record { buffer = wide_text ++ (0 ∷ []); written = 4 })
unfolding utf8_to_utf16 to_utf16_loop utf8_decode continue_bytes utf16_units no_room finish
to_utf16_text = refl

-- One unit less, and the pair is left out whole.
to_utf16_short :
    utf8_to_utf16 text 4 ≡ some (record { buffer = 0x68 ∷ 0x20AC ∷ 0 ∷ []; written = 2 })
unfolding utf8_to_utf16 to_utf16_loop utf8_decode continue_bytes utf16_units no_room finish
to_utf16_short = refl

to_utf8_text : utf16_to_utf8 wide_text 20 ≡ some (record { buffer = text ++ (0 ∷ []); written = 8 })
unfolding utf16_to_utf8 to_utf8_loop utf16_next utf8_encode no_room finish
to_utf8_text = refl

-- A lone surrogate is printed as U+FFFD.
printw_lone : printw (0xD800 ∷ 0x41 ∷ []) ≡ some ((0xEF ∷ 0xBF ∷ 0xBD ∷ 0x41 ∷ []) ∷ [])
unfolding printw printw_loop utf16_next utf8_encode
printw_lone = refl

-- An overlong slash is refused.
overlong : utf8_decode (0xC0 ∷ 0xAF ∷ []) ≡ malformed
unfolding utf8_decode
overlong = refl

utf8_decode_lem_example : Decodes text
utf8_decode_lem_example = utf8_decode_lem 0x68 _ (omega arith)

utf8_to_utf16_lem_example :
    (cps tail : List ℕ) × (utf8_points (length text) text ≡ cps ++ tail)
    × (utf8_to_utf16 text 4
        ≡ some (record {
          buffer = encoded utf16_units cps ++ (0 ∷ []);
          written = length (encoded utf16_units cps);
        }))
    × (length (encoded utf16_units cps ++ (0 ∷ [])) ≤ 4)
    × ((tail ≡ []) ⊎ (4 ≤ length (encoded utf16_units cps) + length (utf16_units (first tail))))
utf8_to_utf16_lem_example = utf8_to_utf16_lem text 4 (omega arith) (omega arith) (omega arith)

text_len : utf16_len text ≡ some 4
unfolding utf16_len utf16_len_loop utf8_decode continue_bytes
text_len = refl

text_units : length (encoded utf16_units (utf8_points (length text) text)) ≡ 4
unfolding utf16_units utf8_points utf8_decode continue_bytes
text_units = refl

utf16_to_utf8_lem_example :
    (cps tail : List ℕ) × (utf16_points (length wide_text) wide_text ≡ cps ++ tail)
    × (utf16_to_utf8 wide_text 7
        ≡ some (record {
          buffer = encoded utf8_encode cps ++ (0 ∷ []);
          written = length (encoded utf8_encode cps);
        }))
    × (length (encoded utf8_encode cps ++ (0 ∷ [])) ≤ 7)
    × ((tail ≡ []) ⊎ (7 ≤ length (encoded utf8_encode cps) + length (utf8_encode (first tail))))
utf16_to_utf8_lem_example = utf16_to_utf8_lem wide_text 7 (omega arith) (omega arith) (omega arith)

abbrev points : List ℕ
points = 0x68 ∷ 0x20AC ∷ 0x1F600 ∷ []

points_units : length (encoded utf16_units points) ≡ 4
unfolding utf16_units
points_units = refl

points_bytes : length (encoded utf8_encode points) ≡ 8
unfolding utf8_encode
points_bytes = refl

utf8_to_utf16-utf16_to_utf8_example :
    (wide : List ℕ) × (utf8_to_utf16 (encoded utf8_encode points) 5
      ≡ some (record { buffer = wide ++ (0 ∷ []); written = length wide }))
    × (utf16_to_utf8 wide 9
        ≡ some (record {
          buffer = encoded utf8_encode points ++ (0 ∷ []);
          written = length (encoded utf8_encode points);
        }))
utf8_to_utf16-utf16_to_utf8_example =
    utf8_to_utf16-utf16_to_utf8 points 9 5 (omega arith) (omega (arith, points_units)) (omega arith)
      (omega (arith, points_bytes)) (omega arith)
