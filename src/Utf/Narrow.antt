-- ===== src/Utf/Narrow.antt =====
-- c/rt/utf.c: `mv_utf16_to_utf8` against the code points of the wide string.
use mellivora_os.Base.{
  ℕ, zero, suc, ◌+◌, ◌-◌, ◌^◌, ◌≤◌, ◌<◌, ◌≡◌, sym, ap, ◌∙◌, ◌⊎◌, inl, inr, some, List, [], ◌∷◌,
  ◌++◌, append-nil, append_assoc, arith, leb, Bool-cases, length, length-append, All, first,
}
use mellivora_os.Utf.{utf8_encode, utf16_next, to_utf8_loop, utf16_to_utf8, finish, no_room}
use mellivora_os.Utf.Points.{encoded, utf16_points, utf16_next_bounds, length-encode, IsUnit16}
use mellivora_os.Utf.Fit.{
  fitting, left_out, fitting-append-left_out, length-fitting-lt, left_out-cases, finish_pos,
}

bytes_room :
    (cp written cap : ℕ)
    → written < cap
    → cap < 2 ^ 32 - 4
    → no_room written (length (utf8_encode cp)) cap ≡ leb cap (written + length (utf8_encode cp))
unfolding no_room
bytes_room cp written cap h k = ground (arith, length-encode cp)

to_utf8_loop_lem :
    (fuel : ℕ) (s : List ℕ) (cap : ℕ) (out : List ℕ)
    → All IsUnit16 s
    → length s ≤ fuel
    → length out < cap
    → cap < 2 ^ 32 - 4
    → to_utf8_loop fuel s cap out
      ≡ some
          (out ++ encoded utf8_encode (fitting utf8_encode cap (length out) (utf16_points fuel s)))
unfolding to_utf8_loop utf16_points fitting
to_utf8_loop_lem zero [] cap out units h k l = rw append-nil
to_utf8_loop_lem (suc fuel) [] cap out units h k l = rw append-nil
to_utf8_loop_lem zero (w ∷ s) cap out units h k l = absurd (omega arith)
to_utf8_loop_lem (suc fuel) (w ∷ s) cap out units h k l =
    elim (Bool-cases (leb cap (length out + length (utf8_encode cp)))) [
      | inl full ↦ rw (bytes_room cp (length out) cap k l, full) (ap some (sym (append-nil out)))
      | inr room ↦
          rw (bytes_room cp (length out) cap k l, room)
            (to_utf8_loop_lem fuel (utf16_next w s).1 cap (out ++ utf8_encode cp)
                (utf16_next_bounds w s units).2 (omega (arith, utf16_next_bounds w s units))
                (ground (arith, length-append out (utf8_encode cp))) l
              ∙ rw (length-append out (utf8_encode cp), append_assoc))
    ]
  where
    cp : ℕ
    cp = (utf16_next w s).0

pub to_utf8_whole :
    (s : List ℕ) (cap : ℕ)
    → All IsUnit16 s
    → 0 < cap
    → cap < 2 ^ 32 - 4
    → utf16_to_utf8 s cap
      ≡ some
          (finish cap (encoded utf8_encode (fitting utf8_encode cap 0 (utf16_points (length s) s))))
unfolding utf16_to_utf8
to_utf8_whole s cap units h k =
    rw (utf16_to_utf8, to_utf8_loop_lem (length s) s cap [] units (omega arith) h k)

-- On every string of 16-bit units and every buffer of `cap` bytes, 0 < cap < 2 ^ 32 - 4, the
-- conversion ends; it writes the UTF-8 form of the first code points of the string (a lone
-- surrogate counting as U+FFFD), no code point cut, and a terminator, all within the buffer; it
-- returns the number of bytes before the terminator; and it leaves code points out only where the
-- next one does not fit.
pub utf16_to_utf8_lem :
    (s : List ℕ) (cap : ℕ)
    → All IsUnit16 s
    → 0 < cap
    → cap < 2 ^ 32 - 4
    → (cps tail : List ℕ) × (utf16_points (length s) s ≡ cps ++ tail)
      × (utf16_to_utf8 s cap
          ≡ some (record {
            buffer = encoded utf8_encode cps ++ (0 ∷ []);
            written = length (encoded utf8_encode cps);
          }))
      × (length (encoded utf8_encode cps ++ (0 ∷ [])) ≤ cap)
      × ((tail ≡ []) ⊎ (cap ≤ length (encoded utf8_encode cps) + length (utf8_encode (first tail))))
utf16_to_utf8_lem s cap units h k = (
  fitting utf8_encode cap 0 cps,
  left_out utf8_encode cap 0 cps,
  sym (fitting-append-left_out utf8_encode cap 0 cps),
  to_utf8_whole s cap units h k ∙ ap some (finish_pos cap _ h),
  omega (
    arith,
    length-append (encoded utf8_encode (fitting utf8_encode cap 0 cps)) (0 ∷ []),
    length-fitting-lt utf8_encode cap 0 cps h,
  ),
  left_out-cases utf8_encode cap cps,
)
  where
    cps : List ℕ
    cps = utf16_points (length s) s
