-- ===== src/Time/Tests.antt =====
-- c/rt/time.c: runs of the functions, and the theorems at concrete inputs.
use mellivora_os.Time.{
  fill_tm, gmtime, localtime, mktime, days_from_civil, civil_from_days, tz_offset_minutes,
  march_year, march_day, days_at, year_in_era, zone_digits, skip_blanks, Tm,
}
use mellivora_os.Time.Inverse.{days_from_civil-civil_from_days}
use mellivora_os.Time.Local.{mktime-localtime, gmtime-InRange, InRange}
use mellivora_os.Time.Leap.{days_from_civil-next_day}
use mellivora_os.Time.Format.{
  strftime, format_loop, conversion, put_num, put_digits, digits_of, put,
}
use mellivora_os.Base.Texts.{codes}
use mellivora_os.Base.Writer.{put_all, put_repeat}
use mellivora_os.Base.Int.{pos, negsuc, ◌+ℤ◌, ◌-ℤ◌, ℤ}
use mellivora_os.Base.Signed.{i32, to_u32, to_i32, scale_ℤ, quot_ℤ, rem_ℤ}
use mellivora_os.Base.{ℕ, ◌≡◌, refl, Option, none, some, List, [], ◌∷◌, arith}

-- 2024-02-29
leap_day : days_from_civil (pos 2024) (pos 2) (pos 29) ≡ pos 19782
unfolding days_from_civil march_year march_day days_at year_in_era i32 to_u32 to_i32 scale_ℤ quot_ℤ
    ◌+ℤ◌ ◌-ℤ◌
leap_day = refl

-- A second before the epoch.
before_epoch : (gmtime (some (negsuc 0))).year ≡ pos 69
unfolding gmtime fill_tm civil_from_days days_from_civil march_year march_day days_at year_in_era
    i32 to_u32 to_i32 scale_ℤ quot_ℤ rem_ℤ ◌+ℤ◌ ◌-ℤ◌
before_epoch = refl

-- "-90"
abbrev west : Option (List ℕ)
west = some (45 ∷ 57 ∷ 48 ∷ [])

west_offset : tz_offset_minutes west ≡ negsuc 89
unfolding tz_offset_minutes zone_digits skip_blanks i32 to_u32 to_i32 scale_ℤ ◌+ℤ◌ ◌-ℤ◌
west_offset = refl

days_from_civil-civil_from_days_example :
    days_from_civil
      (civil_from_days (negsuc 99)).year
      (civil_from_days (negsuc 99)).month
      (civil_from_days (negsuc 99)).day
    ≡ negsuc 99
days_from_civil-civil_from_days_example =
    days_from_civil-civil_from_days (negsuc 99) (omega arith) (omega arith)

mktime-localtime_example :
    (mktime west none (localtime west (some (pos 1700000000)))).0 ≡ pos 1700000000
mktime-localtime_example = mktime-localtime west none (pos 1700000000) (omega arith, omega arith)

gmtime-InRange_example : InRange (gmtime (some (negsuc 0)))
gmtime-InRange_example = gmtime-InRange (negsuc 0) (omega arith, omega arith)

days_from_civil-next_day_example :
    days_from_civil (pos 2024) (pos 2) (pos 29)
    ≡ days_from_civil (pos 2024) (pos 2) (pos 28) +ℤ pos 1
days_from_civil-next_day_example =
    days_from_civil-next_day 2024 2 28
      (omega arith, (omega arith, (omega arith, (omega arith, omega arith)))) (omega arith)

abbrev no_table : List (List ℕ) → ℤ → List ℕ
no_table table index = []

abbrev stamp : Tm
stamp = record {
  sec = pos 5;
  min = pos 7;
  hour = pos 13;
  mday = pos 9;
  mon = pos 1;
  year = pos 124;
  wday = pos 5;
  yday = pos 39;
  isdst = pos 0;
}

strftime_run :
    (strftime no_table none 40 (codes "%a %e %b %Y %I:%M %p%") stamp).text
    ≡ codes "Fri  9 Feb 2024 01:07 PM%"
unfolding strftime format_loop conversion put_num put_digits digits_of put put_all put_repeat i32
    to_u32 to_i32 quot_ℤ rem_ℤ ◌+ℤ◌ ◌-ℤ◌
strftime_run = refl
