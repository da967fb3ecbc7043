-- ===== src/Utf/Points.antt =====
-- c/rt/utf.c: the code points of a string, as the conversions read them one by one.
use mellivora_os.Base.{
  and_ten, ℕ, zero, suc, ◌+◌, ◌-◌, ◌*◌, ◌/◌, ◌%◌, ◌^◌, ◌≤◌, ◌<◌, ◌≡◌, refl, ap, ◌∙◌, inl, inr, List,
  [], ◌∷◌, ◌++◌, arith, dec_lt, ltb, if◌then◌else◌, length, length-append, drop, length-drop, All,
  All-drop, drop-append_length,
}
use mellivora_os.Utf.{utf8_encode, utf8_decode, utf16_next, utf16_units}
use mellivora_os.Utf.Plain.{IsByte, IsScalar}
use mellivora_os.Utf.Decode.{decode-encode}
use mellivora_os.Utf.Inversion.{utf8_decode_lem}

-- What the decoder gives on a UTF-8 string, call after call.
unfoldable pub utf8_points : ℕ → List ℕ → List ℕ
utf8_points zero s = []
utf8_points (suc fuel) [] = []
utf8_points (suc fuel) (b ∷ s) =
    let d = utf8_decode (b ∷ s) in d.cp ∷ utf8_points fuel (drop d.len (b ∷ s))

-- The same of a UTF-16 string.
unfoldable pub utf16_points : ℕ → List ℕ → List ℕ
utf16_points zero s = []
utf16_points (suc fuel) [] = []
utf16_points (suc fuel) (w ∷ s) = let (cp, behind) = utf16_next w s in cp ∷ utf16_points fuel behind

pub length-encode : (cp : ℕ) → (1 ≤ length (utf8_encode cp)) × (length (utf8_encode cp) ≤ 4)
unfolding utf8_encode
length-encode cp = ground arith

pub length-units : (cp : ℕ) → length (utf16_units cp) ≡ (if ltb 0xFFFF cp then 2 else 1)
unfolding utf16_units
length-units cp = ground arith

-- Every answer is a scalar value, of one to four bytes that lie in the string.
pub decode_bounds :
    (b : ℕ) (s : List ℕ)
    → All IsByte (b ∷ s)
    → IsScalar (utf8_decode (b ∷ s)).cp
      × (1 ≤ (utf8_decode (b ∷ s)).len)
      × ((utf8_decode (b ∷ s)).len ≤ 4)
      × ((utf8_decode (b ∷ s)).len ≤ length (b ∷ s))
decode_bounds b s bytes = elim (utf8_decode_lem b s bytes) [
  | inl bad ↦ rw bad (omega arith)
  | inr (cp, rest, sc, e, d) ↦ rw d (
    sc,
    (length-encode cp).0,
    (length-encode cp).1,
    omega (arith, ap length e, length-append (utf8_encode cp) rest),
  )
]

-- A decoded string is shorter by at least a byte.
pub drop_shorter :
    (b : ℕ) (s : List ℕ) (fuel : ℕ)
    → All IsByte (b ∷ s)
    → length (b ∷ s) ≤ suc fuel
    → length (drop (utf8_decode (b ∷ s)).len (b ∷ s)) ≤ fuel
drop_shorter b s fuel bytes h =
    omega (arith, length-drop (utf8_decode (b ∷ s)).len (b ∷ s), decode_bounds b s bytes)

pub utf8_points-IsScalar :
    (fuel : ℕ) (s : List ℕ) → All IsByte s → All IsScalar (utf8_points fuel s)
unfolding utf8_points
utf8_points-IsScalar zero s bytes = tt
utf8_points-IsScalar (suc fuel) [] bytes = tt
utf8_points-IsScalar (suc fuel) (b ∷ s) bytes = (
  (decode_bounds b s bytes).0,
  utf8_points-IsScalar fuel _ (All-drop IsByte (utf8_decode (b ∷ s)).len (b ∷ s) bytes),
)

-- The encodings of a list of code points, one behind the other.
abbrev pub encoded : (ℕ → List ℕ) → List ℕ → List ℕ
encoded f [] = []
encoded f (c ∷ cps) = f c ++ encoded f cps

utf8_points_step :
    (s rest : List ℕ) (cp fuel : ℕ)
    → IsScalar cp
    → s ≡ utf8_encode cp ++ rest
    → utf8_points (suc fuel) s ≡ cp ∷ utf8_points fuel rest
unfolding utf8_points
utf8_points_step [] rest cp fuel sc e =
    absurd (omega (arith, ap length e, length-append (utf8_encode cp) rest, length-encode cp))
utf8_points_step (b ∷ s) rest cp fuel sc e =
    rw (e, decode-encode cp rest sc, drop-append_length (utf8_encode cp) rest)

-- A string that the encoder wrote is read back as the code points that it was written for.
pub utf8_points-encoded :
    (cps : List ℕ) (fuel : ℕ)
    → All IsScalar cps
    → length (encoded utf8_encode cps) ≤ fuel
    → utf8_points fuel (encoded utf8_encode cps) ≡ cps
utf8_points-encoded [] zero h k = unfold utf8_points in refl
utf8_points-encoded [] (suc fuel) h k = unfold utf8_points in refl
utf8_points-encoded (c ∷ cps) zero (hc, h) k =
    absurd (omega (arith, length-append (utf8_encode c) (encoded utf8_encode cps), length-encode c))
utf8_points-encoded (c ∷ cps) (suc fuel) (hc, h) k =
    utf8_points_step _ (encoded utf8_encode cps) c fuel hc refl
    ∙ ap (◌∷◌ c) (
        utf8_points-encoded cps fuel h
          (omega (arith, length-append (utf8_encode c) (encoded utf8_encode cps), length-encode c)))

-- A unit of UTF-16.
abbrev pub IsUnit16 : ℕ → Type 0
IsUnit16 w = w < 2 ^ 16

-- A lone surrogate becomes U+FFFD and a pair one code point; at most one more unit is taken.
pub utf16_next_bounds :
    (w : ℕ) (s : List ℕ)
    → All IsUnit16 (w ∷ s)
    → IsScalar (utf16_next w s).0
      × (length (utf16_next w s).1 ≤ length s)
      × All IsUnit16 (utf16_next w s).1
unfolding utf16_next
utf16_next_bounds w [] (hw, h) = ground arith
utf16_next_bounds w (l ∷ s) (hw, h) = ground arith

pub utf16_points-IsScalar :
    (fuel : ℕ) (s : List ℕ) → All IsUnit16 s → All IsScalar (utf16_points fuel s)
unfolding utf16_points
utf16_points-IsScalar zero s h = tt
utf16_points-IsScalar (suc fuel) [] h = tt
utf16_points-IsScalar (suc fuel) (w ∷ s) h =
    let b = utf16_next_bounds w s h in (b.0, utf16_points-IsScalar fuel _ b.2)

units_wide :
    (cp : ℕ)
    → 0xFFFF < cp
    → cp < 0x110000
    → utf16_units cp ≡ (0xD800 + (cp - 0x10000) / 1024) ∷ (0xDC00 + (cp - 0x10000) % 1024) ∷ []
unfolding utf16_units
units_wide cp h k = ground (arith, and_ten (cp - 0x10000))

units_narrow : (cp : ℕ) → cp ≤ 0xFFFF → utf16_units cp ≡ cp ∷ []
unfolding utf16_units
units_narrow cp h = ground arith

next_pair :
    (q r : ℕ) (s : List ℕ)
    → q < 1024
    → r < 1024
    → utf16_next (0xD800 + q) ((0xDC00 + r) ∷ s) ≡ (0x10000 + q * 1024 + r, s)
unfolding utf16_next
next_pair q r s h k = ground arith

next_single : (cp : ℕ) (s : List ℕ) → IsScalar cp → utf16_next cp s ≡ (cp, s)
unfolding utf16_next
next_single cp s sc = ground arith

points_step :
    (w : ℕ) (s : List ℕ) (fuel : ℕ) {cp : ℕ} {behind : List ℕ}
    → utf16_next w s ≡ (cp, behind)
    → utf16_points (suc fuel) (w ∷ s) ≡ cp ∷ utf16_points fuel behind
unfolding utf16_points
points_step w s fuel e = rw e

-- A code point written in UTF-16 is read back, whatever units follow.
pub utf16_next-units :
    (cp : ℕ) (rest : List ℕ) (fuel : ℕ)
    → IsScalar cp
    → utf16_points (suc fuel) (utf16_units cp ++ rest) ≡ cp ∷ utf16_points fuel rest
utf16_next-units cp rest fuel sc = elim (dec_lt 0xFFFF cp) [
  | yes wide ↦ rw (units_wide cp wide (omega arith)) (
      points_step _ _ fuel (
        next_pair ((cp - 0x10000) / 1024) ((cp - 0x10000) % 1024) rest (omega arith) (omega arith)
        ∙ ap (λ (t : ℕ). let p : ℕ × List ℕ = (t, rest) in p)
            (let e : 0x10000 + (cp - 0x10000) / 1024 * 1024 + (cp - 0x10000) % 1024 ≡ cp =
                omega arith in
              e)))
  | no narrow ↦
      rw (units_narrow cp (omega arith)) (points_step cp rest fuel (next_single cp rest sc))
]

pub utf16_points-encoded :
    (cps : List ℕ) (fuel : ℕ)
    → All IsScalar cps
    → length (encoded utf16_units cps) ≤ fuel
    → utf16_points fuel (encoded utf16_units cps) ≡ cps
utf16_points-encoded [] zero h k = unfold utf16_points in refl
utf16_points-encoded [] (suc fuel) h k = unfold utf16_points in refl
utf16_points-encoded (c ∷ cps) zero (hc, h) k =
    absurd (ground (arith, length-append (utf16_units c) (encoded utf16_units cps), length-units c))
utf16_points-encoded (c ∷ cps) (suc fuel) (hc, h) k =
    utf16_next-units c (encoded utf16_units cps) fuel hc
    ∙ ap (◌∷◌ c) (
        utf16_points-encoded cps fuel h
          (ground (arith, length-append (utf16_units c) (encoded utf16_units cps), length-units c)))
