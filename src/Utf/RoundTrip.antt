-- ===== src/Utf/RoundTrip.antt =====
-- c/rt/utf.c: text that is converted from one encoding to the other, and back.
use mellivora_os.Base.{
  ℕ, ◌-◌, ◌^◌, ◌<◌, ◌≡◌, ap, ◌∙◌, some, List, [], ◌∷◌, ◌++◌, arith, length, All, All-append,
}
use mellivora_os.Utf.{utf8_encode, utf16_units, utf8_to_utf16, utf16_to_utf8}
use mellivora_os.Utf.Plain.{IsByte, IsScalar}
use mellivora_os.Utf.Points.{encoded, utf8_points-encoded, utf16_points-encoded, IsUnit16}
use mellivora_os.Utf.Fit.{fitting_all, finish_pos}
use mellivora_os.Utf.Wide.{to_utf16_whole}
use mellivora_os.Utf.Narrow.{to_utf8_whole}

encode-IsByte : (cp : ℕ) → All IsByte (utf8_encode cp)
unfolding utf8_encode
encode-IsByte cp = ground arith

units-IsUnit16 : (cp : ℕ) → All IsUnit16 (utf16_units cp)
unfolding utf16_units
units-IsUnit16 cp = ground arith

encoded-All :
    (P : ℕ → Type 0) (f : ℕ → List ℕ)
    → ((cp : ℕ) → All P (f cp))
    → (cps : List ℕ) → All P (encoded f cps)
encoded-All P f h [] = tt
encoded-All P f h (c ∷ cps) = All-append P (f c) (encoded f cps) (h c) (encoded-All P f h cps)

to_utf16-encoded :
    (cps : List ℕ) (cap : ℕ)
    → All IsScalar cps
    → length (encoded utf16_units cps) < cap
    → cap < 2 ^ 32 - 1
    → utf8_to_utf16 (encoded utf8_encode cps) cap
      ≡ some (record {
        buffer = encoded utf16_units cps ++ (0 ∷ []);
        written = length (encoded utf16_units cps);
      })
to_utf16-encoded cps cap sc h k =
    to_utf16_whole _ cap (encoded-All IsByte utf8_encode encode-IsByte cps) (omega arith) k
    ∙ rw
        (
          utf8_points-encoded cps (length (encoded utf8_encode cps)) sc (omega arith),
          fitting_all utf16_units cap 0 cps (omega arith),
        )
        (ap some (finish_pos cap _ (omega arith)))

to_utf8-encoded :
    (cps : List ℕ) (cap : ℕ)
    → All IsScalar cps
    → length (encoded utf8_encode cps) < cap
    → cap < 2 ^ 32 - 4
    → utf16_to_utf8 (encoded utf16_units cps) cap
      ≡ some (record {
        buffer = encoded utf8_encode cps ++ (0 ∷ []);
        written = length (encoded utf8_encode cps);
      })
to_utf8-encoded cps cap sc h k =
    to_utf8_whole _ cap (encoded-All IsUnit16 utf16_units units-IsUnit16 cps) (omega arith) k
    ∙ rw
        (
          utf16_points-encoded cps (length (encoded utf16_units cps)) sc (omega arith),
          fitting_all utf8_encode cap 0 cps (omega arith),
        )
        (ap some (finish_pos cap _ (omega arith)))

-- Any text of scalar values goes from UTF-8 to its UTF-16 form and from that back to the same
-- bytes, in buffers that hold the two forms and a terminator.
pub utf8_to_utf16-utf16_to_utf8 :
    (cps : List ℕ) (cap wide_cap : ℕ)
    → All IsScalar cps
    → length (encoded utf16_units cps) < wide_cap
    → wide_cap < 2 ^ 32 - 1
    → length (encoded utf8_encode cps) < cap
    → cap < 2 ^ 32 - 4
    → (wide : List ℕ) × (utf8_to_utf16 (encoded utf8_encode cps) wide_cap
        ≡ some (record { buffer = wide ++ (0 ∷ []); written = length wide }))
      × (utf16_to_utf8 wide cap
          ≡ some (record {
            buffer = encoded utf8_encode cps ++ (0 ∷ []);
            written = length (encoded utf8_encode cps);
          }))
utf8_to_utf16-utf16_to_utf8 cps cap wide_cap sc h k i j =
    (encoded utf16_units cps, to_utf16-encoded cps wide_cap sc h k, to_utf8-encoded cps cap sc i j)
