-- ===== src/Time/Inverse.antt =====
-- c/rt/time.c: `days_from_civil` undoes `civil_from_days`.
use mellivora_os.Time.{
  year_of_era, days_before, march_month, era_of, year_in_era, days_at, march_day, civil_month,
  civil_of_day, civil_from_days, days_from_civil, Civil,
}
use mellivora_os.Time.Calendar.{
  year_bounds, month_bounds, era_pos, day_in_era, year_in_era_pos, march_year_pos, days_at_pos,
  march_day_pos,
}
use mellivora_os.Base.Int.{ℤ, pos, negsuc, pos_part, neg_part, ◌+ℤ◌, ◌-ℤ◌, ◌≤ℤ◌}
use mellivora_os.Base.Signed.{i32-id, i32-IsI32, IsI32, i32, to_u32, to_i32, scale_ℤ}
use mellivora_os.Base.{
  ℕ, ◌+◌, ◌-◌, ◌*◌, ◌/◌, ◌%◌, ◌≤◌, ◌<◌, ◌≡◌, refl, sym, ap, ◌∙◌, subst, arith, leb, if◌then◌else◌,
}

-- The civil date of a day counted from 0000-03-01, in natural numbers.
abbrev pub plain_year : ℕ → ℕ
plain_year n =
    let yoe = year_of_era (n % 146097) in
    yoe
    + n / 146097 * 400
    + (if leb (civil_month (march_month (n % 146097 - days_before yoe))) 2 then 1 else 0)

pub plain_bounds :
    (n : ℕ)
    → let doe = n % 146097 in
      let yoe = year_of_era doe in
      (yoe < 400)
      × ((days_before yoe ≤ doe)
          × ((doe - days_before yoe < 366)
              × ((march_month (doe - days_before yoe) < 12)
                  × ((153 * march_month (doe - days_before yoe) + 2) / 5 ≤ doe - days_before yoe))))
plain_bounds n =
    let doe = n % 146097 in
    let years =
      year_bounds doe (doe / 1460) (doe / 36524) (doe / 146096) (year_of_era doe) (omega arith) refl
        refl refl refl in
    let months =
      month_bounds (doe - days_before (year_of_era doe))
        (march_month (doe - days_before (year_of_era doe))) (omega (arith, years)) refl in
    (years.0, (omega (arith, years), (omega (arith, years), months)))

year_sum :
    (yoe e adjust : ℕ)
    → yoe < 400
    → e < 14700
    → adjust ≤ 1
    → i32 (pos yoe +ℤ scale_ℤ (pos e) 400 +ℤ pos adjust) ≡ pos (yoe + e * 400 + adjust)
unfolding ◌+ℤ◌ scale_ℤ i32 to_i32 to_u32
year_sum yoe e adjust h k l = ground arith

-- The fields, where the day does not come before 0000-03-01.
pub civil_pos :
    (days : ℤ) (n : ℕ)
    → i32 (days +ℤ pos 719468) ≡ pos n
    → n < 0x80000000
    → civil_from_days days
      ≡ civil_of_day
          (pos (n / 146097))
          (year_of_era (n % 146097))
          (n % 146097 - days_before (year_of_era (n % 146097)))
unfolding civil_from_days
civil_pos days n e h = rw (e, era_pos n 146097, day_in_era n h) refl

-- Where the year, the month and the day are those of day `doy` in year `yoe` of era `e`.
pub from_parts :
    (e yoe mp d doy : ℕ)
    → yoe < 400
    → mp < 12
    → 0 < d
    → d < 1000
    → doy ≡ (153 * mp + 2) / 5 + d - 1
    → doy < 366
    → e * 146097 + (days_before yoe + doy) < 0x80000000
    → days_from_civil
        (pos (yoe + e * 400 + (if leb (civil_month mp) 2 then 1 else 0)))
        (pos (civil_month mp))
        (pos d)
      ≡ pos (e * 146097 + (days_before yoe + doy)) -ℤ pos 719468
unfolding days_from_civil
from_parts e yoe mp d doy h k l l' ed short bound =
    let month = pos (civil_month mp) in
    let year =
      march_year_pos e yoe (civil_month mp) (if leb (civil_month mp) 2 then 1 else 0) h
        (omega arith) refl in
    let era : era_of (pos (yoe + e * 400)) 400 ≡ pos e =
      era_pos (yoe + e * 400) 400 ∙ ap pos (let q : (yoe + e * 400) / 400 ≡ e = omega arith in q) in
    let commuted : yoe * 365 + yoe / 4 - yoe / 100 + doy ≡ days_before yoe + doy = omega arith in
    ap (λ y. days_at (era_of y 400) (year_in_era y (era_of y 400)) (march_day month (pos d))) year
    ∙ ap (λ z. days_at z (year_in_era (pos (yoe + e * 400)) z) (march_day month (pos d))) era
    ∙ ap (λ z. days_at (pos e) z (march_day month (pos d))) (year_in_era_pos e yoe h (omega arith))
    ∙ ap (days_at (pos e) yoe) (march_day_pos mp d k l l' ∙ sym ed)
    ∙ days_at_pos e yoe doy h short (omega arith)
    ∙ ap (λ z. pos (e * 146097 + z) -ℤ pos 719468) commuted

round_trip :
    (days : ℤ) (n : ℕ)
    → i32 (days +ℤ pos 719468) ≡ pos n
    → n < 0x80000000
    → days_from_civil
        (civil_from_days days).year
        (civil_from_days days).month
        (civil_from_days days).day
      ≡ pos n -ℤ pos 719468
round_trip days n e h =
    let doe = n % 146097 in
    let yoe = year_of_era doe in
    let doy = doe - days_before yoe in
    let mp = march_month doy in
    let (few, (begun, (short, (twelve, month)))) = plain_bounds n in
    ap (λ (c : Civil). days_from_civil c.year c.month c.day) (civil_pos days n e h)
    ∙ ap (λ y. days_from_civil y (pos (civil_month mp)) (pos (doy - (153 * mp + 2) / 5 + 1)))
        (year_sum yoe (n / 146097) (if leb (civil_month mp) 2 then 1 else 0) few (omega arith)
          (ground arith))
    ∙ from_parts (n / 146097) yoe mp (doy - (153 * mp + 2) / 5 + 1) doy few twelve (omega arith)
        (omega arith) (omega arith) short (omega arith)
    ∙ ap (λ z. pos z -ℤ pos 719468)
        (let all : n / 146097 * 146097 + (days_before yoe + doy) ≡ n = omega arith in all)

-- The day counted from 0000-03-01.
abbrev pub plain_day : ℤ → ℕ
plain_day days = pos_part days + 719468 - neg_part days

pub shifted : (days : ℤ) → negsuc 719467 ≤ℤ days → days +ℤ pos 719468 ≡ pos (plain_day days)
unfolding ◌+ℤ◌
shifted days low = ground arith

unshifted : (days : ℤ) → negsuc 719467 ≤ℤ days → pos (plain_day days) -ℤ pos 719468 ≡ days
unfolding ◌-ℤ◌
unshifted days low = ground arith

-- From 0000-03-01 on, and as long as the sum stays an `int`, `days_from_civil` gives back the day
-- that `civil_from_days` was given.
pub days_from_civil-civil_from_days :
    (days : ℤ)
    → negsuc 719467 ≤ℤ days
    → days ≤ℤ pos (0x7FFFFFFF - 719468)
    → days_from_civil
        (civil_from_days days).year
        (civil_from_days days).month
        (civil_from_days days).day
      ≡ days
days_from_civil-civil_from_days days low high =
    let sum = shifted days low in
    round_trip days (plain_day days)
      (i32-id (days +ℤ pos 719468) (subst IsI32 (sym sum) (omega arith, omega arith)) ∙ sum)
      (omega arith)
    ∙ unshifted days low

-- What the fields of a civil date are.
pub record IsCivil (c : Civil) : Type 0 where
  pub month : ℕ
  pub day : ℕ
  pub month_is : c.month ≡ pos month
  pub day_is : c.day ≡ pos day
  pub month_in : (1 ≤ month) × (month ≤ 12)
  pub day_in : (1 ≤ day) × (day ≤ 31)
  pub year_in : IsI32 c.year

day_limit : (doy mp : ℕ) → mp ≡ march_month doy → doy - (153 * mp + 2) / 5 + 1 ≤ 31
day_limit doy mp e = omega arith

month_limit : (mp : ℕ) → mp < 12 → (1 ≤ civil_month mp) × (civil_month mp ≤ 12)
month_limit mp h = ground arith

abbrev of_day-IsCivil :
    (e yoe doy : ℕ) → march_month doy < 12 → IsCivil (civil_of_day (pos e) yoe doy)
of_day-IsCivil e yoe doy h = record {
  month = civil_month (march_month doy);
  day = doy - (153 * march_month doy + 2) / 5 + 1;
  month_is = refl;
  day_is = refl;
  month_in = month_limit (march_month doy) h;
  day_in = (omega arith, day_limit doy (march_month doy) refl);
  year_in = i32-IsI32 (
      pos yoe
      +ℤ scale_ℤ (pos e) 400
      +ℤ pos (if leb (civil_month (march_month doy)) 2 then 1 else 0));
}

pub civil_from_days-IsCivil :
    (days : ℤ)
    → negsuc 719467 ≤ℤ days
    → days ≤ℤ pos (0x7FFFFFFF - 719468)
    → IsCivil (civil_from_days days)
civil_from_days-IsCivil days low high =
    let n = plain_day days in
    let sum = shifted days low in
    subst IsCivil
      (sym (
        civil_pos days n
          (i32-id (days +ℤ pos 719468) (subst IsI32 (sym sum) (omega arith, omega arith)) ∙ sum)
          (omega arith)))
      (of_day-IsCivil (n / 146097) (year_of_era (n % 146097))
        (n % 146097 - days_before (year_of_era (n % 146097))) (plain_bounds n).1.1.1.0)
