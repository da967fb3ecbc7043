-- ===== src/Time/Format/Truncate.antt =====
-- c/rt/time.c: what strftime stores in a buffer of any size.
use mellivora_os.Time.{Tm, tz_offset_minutes}
use mellivora_os.Time.Format.{
  is_zero, digits_of, put_digits, put_num, put_zone, conversion, format_loop, Out, put, strftime,
  entry, day_names, month_names,
}
use mellivora_os.Base.Int.{ℤ, pos, ltb_ℤ, ◌+ℤ◌, ◌-ℤ◌}
use mellivora_os.Base.Signed.{i32, quot_ℤ, rem_ℤ}
use mellivora_os.Base.Texts.{codes}
use mellivora_os.Base.Writer.{
  put_all, put_repeat, Writes, writes_nothing, writes_one, writes_all, writes_both, writes_repeat,
  writes_if, writes_case,
}
use mathlib.Core.List.{reverse}
use mathlib.Core.Bool.{or-true, or-false}
use mellivora_os.Base.{
  take_zero, take_nil, take-take, ℕ, suc, ◌+◌, ◌-◌, ◌≤◌, ◌<◌, ◌≡◌, refl, sym, ap, ◌∙◌, Bool, true,
  false, ◌||◌, Option, List, [], ◌∷◌, ◌++◌, map, append-nil, append_assoc, arith, dec_lt, ltb, leb,
  ◌==◌, if◌then◌else◌, length, length-append, take, length-take,
}

module _ (outside : List (List ℕ) → ℤ → List ℕ) where
  put_digits-Writes :
      (value : ℤ) (width pad : ℕ) → Writes (λ S put. put_digits outside S put value width pad)
  unfolding put_digits
  put_digits-Writes value width pad =
      writes_both (λ S put. put_repeat put pad (width - length (digits_of 12 value)))
        (λ S put s. put_all put s (reverse (digits_of 12 value)))
        (writes_repeat pad (width - length (digits_of 12 value)))
        (writes_all (reverse (digits_of 12 value)))

  put_num-Writes :
      (value : ℤ) (width pad : ℕ) → Writes (λ S put. put_num outside S put value width pad)
  unfolding put_num
  put_num-Writes value width pad =
      writes_if (ltb_ℤ value (pos 0))
        (λ S put s. put_digits outside S put (i32 (pos 0 -ℤ value)) width pad (put s b'-'))
        (λ S put. put_digits outside S put value width pad)
        (writes_both (λ S put s. put s b'-')
          (λ S put. put_digits outside S put (i32 (pos 0 -ℤ value)) width pad) (writes_one b'-')
          (put_digits-Writes (i32 (pos 0 -ℤ value)) width pad))
        (put_digits-Writes value width pad)

  put_zone-Writes : (tz : Option (List ℕ)) → Writes (λ S put. put_zone outside S put tz)
  unfolding put_zone
  put_zone-Writes tz =
      let minutes = tz_offset_minutes tz in
      let mag = if ltb_ℤ minutes (pos 0) then i32 (pos 0 -ℤ minutes) else minutes in
      writes_both _ _ (writes_all (codes "UTC")) (
        writes_both _ _ (writes_one (if ltb_ℤ minutes (pos 0) then b'-' else b'+')) (
          writes_both _ _ (put_num-Writes (quot_ℤ mag 60) 2 b'0')
            (writes_both _ _ (writes_one b':') (put_num-Writes (rem_ℤ mag 60) 2 b'0'))))

  conversion-Writes :
      (tz : Option (List ℕ)) (tm : Tm) (c : ℕ) → Writes (λ S put. conversion outside S put tz tm c)
  unfolding conversion
  conversion-Writes tz tm c =
      let year = i32 (tm.year +ℤ pos 1900) in
      let half = rem_ℤ tm.hour 12 in
      writes_if (c == b'Y') _ _ (put_num-Writes year 4 b'0') (
        writes_if (c == b'y') _ _ (put_num-Writes (rem_ℤ year 100) 2 b'0') (
          writes_if (c == b'm') _ _ (put_num-Writes (i32 (tm.mon +ℤ pos 1)) 2 b'0') (
            writes_if (c == b'd') _ _ (put_num-Writes tm.mday 2 b'0') (
              writes_if (c == b'e') _ _ (put_num-Writes tm.mday 2 b' ') (
                writes_if (c == b'H') _ _ (put_num-Writes tm.hour 2 b'0') (
                  writes_if (c == b'I') _ _
                    (put_num-Writes (if is_zero half then pos 12 else half) 2 b'0')
                    (writes_if (c == b'M') _ _ (put_num-Writes tm.min 2 b'0') (
                      writes_if (c == b'S') _ _ (put_num-Writes tm.sec 2 b'0') (
                        writes_if (c == b'j') _ _ (put_num-Writes (i32 (tm.yday +ℤ pos 1)) 3 b'0') (
                          writes_if (c == b'a') _ _
                            (writes_all (entry outside (map (take 3) day_names) (rem_ℤ tm.wday 7)))
                            (writes_if (c == b'A') _ _
                              (writes_all (entry outside day_names (rem_ℤ tm.wday 7)))
                              (writes_if (c == b'b') _ _
                                (writes_all
                                  (entry outside (map (take 3) month_names) (rem_ℤ tm.mon 12)))
                                (writes_if (c == b'B') _ _
                                  (writes_all (entry outside month_names (rem_ℤ tm.mon 12)))
                                  (writes_if (c == b'p') _ _
                                    (writes_all
                                      (if ltb_ℤ tm.hour (pos 12) then codes "AM" else codes "PM"))
                                    (writes_if (c == b'Z') _ _ (put_zone-Writes tz) (
                                      writes_if (c == b'%') _ _ (writes_one b'%')
                                        (writes_one c)))))))))))))))))

  format_loop-Writes :
      (tz : Option (List ℕ)) (tm : Tm) (fmt : List ℕ)
      → Writes (λ S put. format_loop outside S put tz tm fmt)
  unfolding format_loop
  format_loop-Writes tz tm [] = writes_nothing
  format_loop-Writes tz tm (c ∷ []) = writes_one c
  format_loop-Writes tz tm (c ∷ d ∷ fmt) =
      writes_case (c == b'%') _ _
        (writes_both _ _ (conversion-Writes tz tm d) (format_loop-Writes tz tm fmt))
        (writes_both _ _ (writes_one c) (format_loop-Writes tz tm (d ∷ fmt)))

store_full :
    (s : List ℕ) (n c : ℕ) (b : Bool)
    → n ≤ length s + 1
    → put (record { stored = s; size = n; overflow = b }) c
      ≡ record { stored = s; size = n; overflow = true }
unfolding put
store_full s n c b h = ground arith

store_one :
    (s : List ℕ) (n c : ℕ) (b : Bool)
    → length s + 1 < n
    → put (record { stored = s; size = n; overflow = b }) c
      ≡ record { stored = s ++ (c ∷ []); size = n; overflow = b }
unfolding put
store_one s n c b h = ground arith

abbrev made : List ℕ → ℕ → Bool → Out
made s n b = record { stored = s; size = n; overflow = b }

abbrev outcome : List ℕ → ℕ → Bool → List ℕ → Out
outcome s n b l = record {
  stored = s ++ take (n - 1 - length s) l;
  size = n;
  overflow = b || leb n (length s + length l);
}

store_all :
    (l s : List ℕ) (n : ℕ) (b : Bool)
    → length s < n
    → put_all put (record { stored = s; size = n; overflow = b }) l ≡ outcome s n b l
unfolding put_all
store_all [] s n b h =
    let fits : leb n (length s + 0) ≡ false = ground arith in
    rw (take_nil (n - 1 - length s), append-nil s, fits, or-false b) refl
store_all (c ∷ l) s n b h = elim (dec_lt (length s + 1) n) [
  | yes room ↦
      let longer = length-append s (c ∷ []) in
      let left : n - 1 - length s ≡ suc (n - 1 - length (s ++ (c ∷ []))) = omega (arith, longer) in
      let sum : length (s ++ (c ∷ [])) + length l ≡ length s + suc (length l) =
        omega (arith, longer) in
      rw (store_one s n c b room) (
        store_all l (s ++ (c ∷ [])) n b (omega (arith, longer))
        ∙ ap (λ x. made x n (b || leb n (length (s ++ (c ∷ [])) + length l)))
            (append_assoc s (c ∷ []) (take (n - 1 - length (s ++ (c ∷ []))) l)
              ∙ ap (λ k. s ++ take k (c ∷ l)) (sym left))
        ∙ ap (λ k. made (s ++ take (n - 1 - length s) (c ∷ l)) n (b || leb n k)) sum)
  | no full ↦
      let none_left : n - 1 - length s ≡ 0 = omega arith in
      let over : leb n (length s + suc (length l)) ≡ true = ground arith in
      rw (store_full s n c b (omega arith)) (
        store_all l s n true h
        ∙ ap (λ x. made (s ++ x) n true)
            (ap (λ k. take k l) none_left
              ∙ take_zero l
              ∙ sym (take_zero (c ∷ l))
              ∙ ap (λ k. take k (c ∷ l)) (sym none_left))
        ∙ ap (made (s ++ take (n - 1 - length s) (c ∷ l)) n)
            (sym (or-true b) ∙ ap (λ x. b || x) (sym over)))
]

module _ (outside : List (List ℕ) → ℤ → List ℕ) (tz : Option (List ℕ)) (fmt : List ℕ)
    (tm : Tm) where
  abbrev whole : List ℕ
  whole = (format_loop-Writes outside tz tm fmt).text

  sink_whole :
      (n : ℕ)
      → 0 < n
      → format_loop outside Out put tz tm fmt (record { stored = []; size = n; overflow = false })
        ≡ made (take (n - 1) whole) n (leb n (length whole))
  sink_whole n h =
      (format_loop-Writes outside tz tm fmt).law Out put (made [] n false)
      ∙ store_all whole [] n false (omega arith)
      ∙ ap (λ k. made (take k whole) n (leb n (0 + length whole)))
          (let e : n - 1 - 0 ≡ n - 1 = omega arith in e)
      ∙ ap (λ k. made (take (n - 1) whole) n (leb n k))
          (let e : 0 + length whole ≡ length whole = omega arith in e)

  strftime_whole :
      (n : ℕ)
      → 0 < n
      → strftime outside tz n fmt tm ≡ record {
        text = take (n - 1) whole;
        result = if leb n (length whole) then 0 else length (take (n - 1) whole);
      }
  unfolding strftime
  strftime_whole n h =
      let some_room : (n == 0) ≡ false = ground arith in rw (some_room, sink_whole n h) refl

  result_cut :
      (n m : ℕ)
      → 0 < n
      → n ≤ m
      → (if leb n (length whole) then 0 else length (take (n - 1) whole)) ≡ (
          if ltb (length (take (m - 1) whole)) n
          then (if leb m (length whole) then 0 else length (take (m - 1) whole))
          else 0)
  result_cut n m h k = ground (arith, length-take (n - 1) whole, length-take (m - 1) whole)

  -- With a buffer of `n` bytes, `strftime` stores what it stores with a larger one, cut off before the
  -- last byte, which is the terminator's: it never stores more. Its result is that of the larger
  -- buffer where all the text and the terminator fit, and 0 where they do not.
  pub strftime-take :
      (n m : ℕ)
      → 0 < n
      → n ≤ m
      → (length (strftime outside tz n fmt tm).text < n)
        × (((strftime outside tz n fmt tm).text ≡ take (n - 1) (strftime outside tz m fmt tm).text)
            × ((strftime outside tz n fmt tm).result ≡ (
                if ltb (length (strftime outside tz m fmt tm).text) n
                then (strftime outside tz m fmt tm).result
                else 0)))
  strftime-take n m h k =
      rw (strftime_whole n h, strftime_whole m (omega arith))
        (
          omega (arith, length-take (n - 1) whole),
          (sym (take-take (n - 1) (m - 1) whole (omega arith)), result_cut n m h k),
        )
