-- ===== src/Time/Local.antt =====
-- c/rt/time.c: `mktime` undoes `localtime`, and what the fields of a broken-down time are.
use mellivora_os.Time.{
  gmtime, civil_from_days, days_from_civil, Civil, Tm, fill_tm, day_of_secs, rem_of_secs, localtime,
  mktime, tz_offset_minutes,
}
use mellivora_os.Time.Inverse.{IsCivil, civil_from_days-IsCivil, days_from_civil-civil_from_days}
use mellivora_os.Base.Int.{ℤ, pos, negsuc, pos_part, ◌+ℤ◌, ◌-ℤ◌, ◌≤ℤ◌, int_laws}
use mellivora_os.Base.Signed.{
  i32-id, i32-IsI32, i32-add_sub, IsI32, i32, to_u32, to_i32, scale_ℤ, quot_ℤ, rem_ℤ,
}
use mellivora_os.Base.{ℕ, ◌/◌, ◌%◌, ◌<◌, ◌≡◌, sym, ap, ◌∙◌, Option, some, List, arith, subst, ◌≤◌}

secs_split :
    (s : ℤ)
    → (rem_of_secs s ≡ pos (pos_part (rem_of_secs s)))
      × ((pos_part (rem_of_secs s) < 86400)
          × (scale_ℤ (day_of_secs s) 86400 +ℤ pos (pos_part (rem_of_secs s)) ≡ s))
unfolding quot_ℤ rem_ℤ scale_ℤ ◌+ℤ◌ ◌-ℤ◌
secs_split s = ground arith

day_bounds : (s : ℤ) → IsI32 s → (negsuc 24855 ≤ℤ day_of_secs s) × (day_of_secs s ≤ℤ pos 24855)
unfolding quot_ℤ rem_ℤ ◌-ℤ◌
day_bounds s h = ground arith

clock_sum :
    (x : ℤ) (r : ℕ)
    → x +ℤ scale_ℤ (pos (r / 3600)) 3600 +ℤ scale_ℤ (pos (r % 3600 / 60)) 60 +ℤ pos (r % 60)
      ≡ x +ℤ pos r
unfolding scale_ℤ
clock_sum x r = omega int_laws

i32-sub_add : (a b : ℤ) → IsI32 a → i32 (i32 (a -ℤ b) +ℤ b) ≡ a
unfolding i32 to_i32 to_u32 ◌+ℤ◌ ◌-ℤ◌
i32-sub_add a b h = ground arith

small_sub_add : (m : ℕ) → m < 1000 → i32 (pos m -ℤ pos 1 +ℤ pos 1) ≡ pos m
unfolding i32 to_i32 to_u32 ◌+ℤ◌ ◌-ℤ◌
small_sub_add m h = ground arith

-- The day of the fields, read back.
same_day :
    (days : ℤ) (c : Civil)
    → IsCivil c
    → days_from_civil c.year c.month c.day ≡ days
    → days_from_civil
        (i32 (i32 (c.year -ℤ pos 1900) +ℤ pos 1900))
        (i32 (c.month -ℤ pos 1 +ℤ pos 1))
        c.day
      ≡ days
same_day days c valid e =
    ap (λ y. days_from_civil y (i32 (c.month -ℤ pos 1 +ℤ pos 1)) c.day)
      (i32-sub_add c.year (pos 1900) valid.year_in)
    ∙ ap (λ m. days_from_civil c.year m c.day)
        (ap (λ m. i32 (m -ℤ pos 1 +ℤ pos 1)) valid.month_is
          ∙ small_sub_add valid.month (omega (arith, valid.month_in))
          ∙ sym valid.month_is)
    ∙ e

-- The seconds that the fields add up to.
abbrev seconds : ℤ → ℤ → ℤ
seconds days rem =
    scale_ℤ days 86400
    +ℤ scale_ℤ (quot_ℤ rem 3600) 3600
    +ℤ scale_ℤ (quot_ℤ (rem_ℤ rem 3600) 60) 60
    +ℤ rem_ℤ rem 60

seconds_pos : (days : ℤ) (r : ℕ) → seconds days (pos r) ≡ scale_ℤ days 86400 +ℤ pos r
unfolding quot_ℤ rem_ℤ
seconds_pos days r = clock_sum (scale_ℤ days 86400) r

mktime-fill_tm :
    (zone again : Option (List ℕ)) (s : ℤ)
    → IsI32 s
    → (mktime zone again (fill_tm s)).0 ≡ i32 (s -ℤ scale_ℤ (tz_offset_minutes zone) 60)
unfolding mktime fill_tm
mktime-fill_tm zone again s h =
    let days = day_of_secs s in
    let rem = rem_of_secs s in
    let c = civil_from_days days in
    let bounds = day_bounds s h in
    let split = secs_split s in
    let off = scale_ℤ (tz_offset_minutes zone) 60 in
    let valid = civil_from_days-IsCivil days (omega arith) (omega arith) in
    let back =
      same_day days c valid (days_from_civil-civil_from_days days (omega arith) (omega arith)) in
    ap (λ d. i32 (i32 (seconds d rem) -ℤ off)) back
    ∙ ap (λ r. i32 (i32 (seconds days r) -ℤ off)) split.0
    ∙ ap (λ z. i32 (i32 z -ℤ off)) (seconds_pos days (pos_part rem) ∙ split.1.1)
    ∙ ap (λ z. i32 (z -ℤ off)) (i32-id s h)

-- `mktime` gives back every time that `localtime` was given, whatever the zone, where the zone is not
-- changed between the calls: also where the local time has wrapped.
pub mktime-localtime :
    (zone again : Option (List ℕ)) (t : ℤ)
    → IsI32 t
    → (mktime zone again (localtime zone (some t))).0 ≡ t
unfolding localtime
mktime-localtime zone again t h =
    let off = scale_ℤ (tz_offset_minutes zone) 60 in
    mktime-fill_tm zone again (i32 (t +ℤ off)) (i32-IsI32 (t +ℤ off)) ∙ i32-add_sub t off h

-- Every field of a broken-down time is in the range that time.h names.
pub record InRange (tm : Tm) : Type 0 where
  pub sec_in : (pos 0 ≤ℤ tm.sec) × (tm.sec ≤ℤ pos 59)
  pub min_in : (pos 0 ≤ℤ tm.min) × (tm.min ≤ℤ pos 59)
  pub hour_in : (pos 0 ≤ℤ tm.hour) × (tm.hour ≤ℤ pos 23)
  pub mday_in : (pos 1 ≤ℤ tm.mday) × (tm.mday ≤ℤ pos 31)
  pub mon_in : (pos 0 ≤ℤ tm.mon) × (tm.mon ≤ℤ pos 11)
  pub wday_in : (pos 0 ≤ℤ tm.wday) × (tm.wday ≤ℤ pos 6)

clock_in :
    (rem : ℤ) (r : ℕ)
    → rem ≡ pos r
    → r < 86400
    → ((pos 0 ≤ℤ rem_ℤ rem 60) × (rem_ℤ rem 60 ≤ℤ pos 59))
      × (((pos 0 ≤ℤ quot_ℤ (rem_ℤ rem 3600) 60) × (quot_ℤ (rem_ℤ rem 3600) 60 ≤ℤ pos 59))
          × ((pos 0 ≤ℤ quot_ℤ rem 3600) × (quot_ℤ rem 3600 ≤ℤ pos 23)))
unfolding quot_ℤ rem_ℤ
clock_in rem r e h = rw e (omega arith)

week_in :
    (days : ℤ)
    → (pos 0 ≤ℤ rem_ℤ (rem_ℤ days 7 +ℤ pos 11) 7) × (rem_ℤ (rem_ℤ days 7 +ℤ pos 11) 7 ≤ℤ pos 6)
unfolding rem_ℤ ◌+ℤ◌
week_in days = ground arith

pred_in : (m : ℕ) → (1 ≤ m) × (m ≤ 12) → (pos 0 ≤ℤ pos m -ℤ pos 1) × (pos m -ℤ pos 1 ≤ℤ pos 11)
unfolding ◌-ℤ◌
pred_in m h = ground arith

-- `gmtime` puts every field but the year's into its range, at any time: hours below 24, minutes and
-- seconds below 60, days from 1 to 31, months below 12 and weekdays below 7, before 1970 too.
pub gmtime-InRange : (t : ℤ) → IsI32 t → InRange (gmtime (some t))
unfolding gmtime fill_tm
gmtime-InRange t h =
    let days = day_of_secs t in
    let bounds = day_bounds t h in
    let split = secs_split t in
    let clock = clock_in (rem_of_secs t) (pos_part (rem_of_secs t)) split.0 split.1.0 in
    let valid = civil_from_days-IsCivil days (omega arith) (omega arith) in
    record {
      sec_in = clock.0;
      min_in = clock.1.0;
      hour_in = clock.1.1;
      mday_in =
          subst (λ z. (pos 1 ≤ℤ z) × (z ≤ℤ pos 31)) (sym valid.day_is)
            (omega (arith, valid.day_in));
      mon_in =
          subst (λ z. (pos 0 ≤ℤ z -ℤ pos 1) × (z -ℤ pos 1 ≤ℤ pos 11)) (sym valid.month_is)
            (pred_in valid.month valid.month_in);
      wday_in = week_in days;
    }
