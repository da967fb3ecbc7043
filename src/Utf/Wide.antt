-- ===== src/Utf/Wide.antt =====
-- c/rt/utf.c: `mv_utf8_to_utf16` and `mv_utf16_len` against the code points of the string.
use mellivora_os.Base.{
  ℕ, zero, suc, ◌+◌, ◌-◌, ◌^◌, ◌≤◌, ◌<◌, ◌≡◌, sym, ap, ◌∙◌, inl, inr, some, List, [], ◌∷◌, ◌++◌,
  append-nil, append_assoc, arith, ltb, leb, if◌then◌else◌, Bool-cases, length, length-append, drop,
  All, All-drop, ◌⊎◌, first, ◌%◌,
}
use mellivora_os.Utf.{
  utf8_decode, utf16_units, to_utf16_loop, no_room, Decoded, utf16_len_loop, utf16_len,
  utf8_to_utf16, finish,
}
use mellivora_os.Utf.Plain.{IsByte}
use mellivora_os.Utf.Points.{encoded, utf8_points, drop_shorter, length-units}
use mellivora_os.Utf.Fit.{
  fitting, left_out, fitting-append-left_out, finish_pos, length-fitting-lt, left_out-cases,
  fitting_all,
}

units_room :
    (cp written cap : ℕ)
    → written < cap
    → cap < 2 ^ 32 - 1
    → no_room written (if ltb 0xFFFF cp then 2 else 1) cap
      ≡ leb cap (written + length (utf16_units cp))
unfolding no_room
units_room cp written cap h k = ground (arith, length-units cp)

to_utf16_loop_lem :
    (fuel : ℕ) (s : List ℕ) (cap : ℕ) (out : List ℕ)
    → All IsByte s
    → length s ≤ fuel
    → length out < cap
    → cap < 2 ^ 32 - 1
    → to_utf16_loop fuel s cap out
      ≡ some
          (out ++ encoded utf16_units (fitting utf16_units cap (length out) (utf8_points fuel s)))
unfolding to_utf16_loop utf8_points fitting
to_utf16_loop_lem zero [] cap out bytes h k l = rw append-nil
to_utf16_loop_lem (suc fuel) [] cap out bytes h k l = rw append-nil
to_utf16_loop_lem zero (b ∷ s) cap out bytes h k l = absurd (omega arith)
to_utf16_loop_lem (suc fuel) (b ∷ s) cap out bytes h k l =
    elim (Bool-cases (leb cap (length out + length (utf16_units d.cp)))) [
      | inl full ↦ rw (units_room d.cp (length out) cap k l, full) (ap some (sym (append-nil out)))
      | inr room ↦
          rw (units_room d.cp (length out) cap k l, room)
            (to_utf16_loop_lem fuel (drop d.len (b ∷ s)) cap (out ++ utf16_units d.cp)
                (All-drop IsByte d.len (b ∷ s) bytes) (drop_shorter b s fuel bytes h)
                (ground (arith, length-append out (utf16_units d.cp))) l
              ∙ rw (length-append out (utf16_units d.cp), append_assoc))
    ]
  where
    d : Decoded
    d = utf8_decode (b ∷ s)

pub to_utf16_whole :
    (s : List ℕ) (cap : ℕ)
    → All IsByte s
    → 0 < cap
    → cap < 2 ^ 32 - 1
    → utf8_to_utf16 s cap
      ≡ some
          (finish cap (encoded utf16_units (fitting utf16_units cap 0 (utf8_points (length s) s))))
unfolding utf8_to_utf16
to_utf16_whole s cap bytes h k =
    rw (utf8_to_utf16, to_utf16_loop_lem (length s) s cap [] bytes (omega arith) h k)

-- On every byte string and every buffer of `cap` units, 0 < cap < 2 ^ 32 - 1, the conversion
-- ends; it writes the UTF-16 form of the first code points of the string, whole surrogate pairs
-- only, and a terminator, all within the buffer; it returns the number of units before the
-- terminator; and it leaves code points out only where the next one does not fit.
pub utf8_to_utf16_lem :
    (s : List ℕ) (cap : ℕ)
    → All IsByte s
    → 0 < cap
    → cap < 2 ^ 32 - 1
    → (cps tail : List ℕ) × (utf8_points (length s) s ≡ cps ++ tail)
      × (utf8_to_utf16 s cap
          ≡ some (record {
            buffer = encoded utf16_units cps ++ (0 ∷ []);
            written = length (encoded utf16_units cps);
          }))
      × (length (encoded utf16_units cps ++ (0 ∷ [])) ≤ cap)
      × ((tail ≡ []) ⊎ (cap ≤ length (encoded utf16_units cps) + length (utf16_units (first tail))))
utf8_to_utf16_lem s cap bytes h k = (
  fitting utf16_units cap 0 cps,
  left_out utf16_units cap 0 cps,
  sym (fitting-append-left_out utf16_units cap 0 cps),
  to_utf16_whole s cap bytes h k ∙ ap some (finish_pos cap _ h),
  omega (
    arith,
    length-append (encoded utf16_units (fitting utf16_units cap 0 cps)) (0 ∷ []),
    length-fitting-lt utf16_units cap 0 cps h,
  ),
  left_out-cases utf16_units cap cps,
)
  where
    cps : List ℕ
    cps = utf8_points (length s) s

utf16_len_loop_lem :
    (fuel : ℕ) (s : List ℕ) (units : ℕ)
    → All IsByte s
    → length s ≤ fuel
    → units < 2 ^ 32
    → utf16_len_loop fuel s units
      ≡ some ((units + length (encoded utf16_units (utf8_points fuel s))) % 2 ^ 32)
unfolding utf16_len_loop utf8_points
utf16_len_loop_lem zero [] units bytes h k = ap some (omega arith)
utf16_len_loop_lem (suc fuel) [] units bytes h k = ap some (omega arith)
utf16_len_loop_lem zero (b ∷ s) units bytes h k = absurd (omega arith)
utf16_len_loop_lem (suc fuel) (b ∷ s) units bytes h k =
    utf16_len_loop_lem fuel (drop d.len (b ∷ s)) _ (All-drop IsByte d.len (b ∷ s) bytes)
      (drop_shorter b s fuel bytes h) (omega arith)
    ∙ ap some (rw (length-append, length-units d.cp) (omega arith))
  where
    d : Decoded
    d = utf8_decode (b ∷ s)

-- `mv_utf16_len` ends and counts the units of the UTF-16 form, without the terminator.
pub utf16_len_lem :
    (s : List ℕ)
    → All IsByte s
    → length (encoded utf16_units (utf8_points (length s) s)) < 2 ^ 32
    → utf16_len s ≡ some (length (encoded utf16_units (utf8_points (length s) s)))
unfolding utf16_len
utf16_len_lem s bytes h =
    utf16_len_loop_lem (length s) s 0 bytes (omega arith) (omega arith) ∙ ap some (omega arith)

-- A buffer with one unit more than `mv_utf16_len` answers takes the whole string.
pub utf8_to_utf16-utf16_len :
    (s : List ℕ) (n : ℕ)
    → All IsByte s
    → length (encoded utf16_units (utf8_points (length s) s)) < 2 ^ 32 - 2
    → utf16_len s ≡ some n
    → utf8_to_utf16 s (n + 1)
      ≡ some (record {
        buffer = encoded utf16_units (utf8_points (length s) s) ++ (0 ∷ []);
        written = n;
      })
utf8_to_utf16-utf16_len s n bytes h e =
    to_utf16_whole s (n + 1) bytes (omega arith) (omega (arith, same))
    ∙ rw (fitting_all utf16_units (n + 1) 0 cps (omega (arith, same))) (
        rw (finish_pos (n + 1) (encoded utf16_units cps) (omega arith)) (
          ap some (λ i. record { buffer = encoded utf16_units cps ++ (0 ∷ []); written = same i })))
  where
    cps : List ℕ
    cps = utf8_points (length s) s

    same : length (encoded utf16_units cps) ≡ n
    same = cc (utf16_len_lem s bytes (omega arith))
