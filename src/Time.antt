-- ===== src/Time.antt =====
-- c/rt/time.c: the calendar, the broken-down time and the time zone. An `int` is an integer whose
-- sums wrap where they can leave its range; what the source keeps `unsigned` is a natural number.
pub mod Calendar
pub mod Inverse
pub mod Local
pub mod Leap
pub mod Format
mod Tests
use mellivora_os.Base.Int.{ℤ, pos, negsuc, ltb_ℤ, ◌+ℤ◌, ◌-ℤ◌}
use mellivora_os.Base.Signed.{i32, to_u32, to_i32, scale_ℤ, quot_ℤ, rem_ℤ}
use mellivora_os.Base.{
  add-one, ℕ, zero, suc, ◌+◌, ◌-◌, ◌*◌, ◌/◌, ◌%◌, ◌^◌, ◌≤◌, ◌<◌, min, bit_and, bit_or, ◌≡◌, refl,
  sym, ap, ◌∙◌, subst, fun_ext, ◌≢◌, ◌↔◌, ◌⊎◌, inl, inr, Bool, true, false, ◌&&◌, ◌||◌, not, Option,
  none, some, List, [], ◌∷◌, ◌++◌, map, append-nil, append_assoc, arith, dec_lt, ℕ_discrete, ltb,
  leb, ◌==◌, if◌then◌else◌, ltb→lt, lt→ltb, leb→le, ==_iff, tests, Bool-cases, Option-cases, length,
  get_elem?, set, length-append, get_or, take, drop, replicate, take-append-drop, length-take,
  length-drop, length-replicate, length-map, All, All-append, All-drop, drop-append_length, and_ten,
  u8, u16, u32, first, rest_of,
}

-- `SYS_CLOCK_GETTIME` is a parameter: its seconds, or none where it fails. The result is stored
-- behind `out` too.
unfoldable pub time : Option ℤ → ℤ
time none = pos 0
time (some secs) = secs

-- The loop over the digits of the zone.
abbrev pub is_digit : ℕ → Bool
is_digit c = leb 48 c && leb c 57

unfoldable pub zone_digits : ℤ → List ℕ → ℤ
zone_digits value [] = value
zone_digits value (c ∷ s) =
    let further = zone_digits (i32 (scale_ℤ value 10 +ℤ pos (c - 48))) s in
    if is_digit c then further else value

unfoldable pub skip_blanks : List ℕ → List ℕ
skip_blanks [] = []
skip_blanks (c ∷ s) = let rest = skip_blanks s in if c == 32 then rest else c ∷ s

abbrev pub zone_number : Bool → List ℕ → ℤ
zone_number negative s =
    if is_digit (first s)
    then (if negative then i32 (pos 0 -ℤ zone_digits (pos 0) s) else zone_digits (pos 0) s)
    else pos 0

abbrev pub zone_sign : List ℕ → ℤ
zone_sign s =
    if first s == 45
    then zone_number true (rest_of s)
    else if first s == 43
    then zone_number false (rest_of s)
    else zone_number false s

-- Minutes east of UTC. The text of the key is a parameter, none where `SYS_SETT` fails.
unfoldable pub tz_offset_minutes : Option (List ℕ) → ℤ
tz_offset_minutes none = pos 0
tz_offset_minutes (some text) = zone_sign (skip_blanks (take 31 text))

abbrev pub is_negative : ℤ → Bool
is_negative z = ltb_ℤ z (pos 0)

-- The era of 400 years, or of 146097 days, towards the past.
abbrev pub era_of : ℤ → ℕ → ℤ
era_of y size = quot_ℤ (if is_negative y then i32 (y -ℤ pos (size - 1)) else y) size

abbrev pub early_month : ℤ → Bool
early_month m = ltb_ℤ m (pos 3)

-- The year that begins in March.
unfoldable pub march_year : ℤ → ℤ → ℤ
march_year year m = i32 (year -ℤ pos (if early_month m then 1 else 0))

-- The day of that year.
unfoldable pub march_day : ℤ → ℤ → ℕ
march_day m d =
    let from_march = i32 (if early_month m then m +ℤ pos 9 else m -ℤ pos 3) in
    to_u32 (quot_ℤ (i32 (scale_ℤ from_march 153 +ℤ pos 2)) 5 +ℤ d -ℤ pos 1)

unfoldable pub days_at : ℤ → ℕ → ℕ → ℤ
days_at era yoe doy =
    let doe = u32 (yoe * 365 + yoe / 4 - yoe / 100 + doy) in
    i32 (scale_ℤ era 146097 +ℤ to_i32 doe -ℤ pos 719468)

unfoldable pub year_in_era : ℤ → ℤ → ℕ
year_in_era y era = to_u32 (y -ℤ scale_ℤ era 400)

-- Days since 1970-01-01 of a civil date.
unfoldable pub days_from_civil : ℤ → ℤ → ℤ → ℤ
days_from_civil year m d =
    let y = march_year year m in
    let era = era_of y 400 in days_at era (year_in_era y era) (march_day m d)

pub record Civil : Type 0 where
  pub year : ℤ
  pub month : ℤ
  pub day : ℤ

-- The day of the year that begins in March, with the era's years before it.
abbrev pub year_of_era : ℕ → ℕ
year_of_era doe = (doe - doe / 1460 + doe / 36524 - doe / 146096) / 365

abbrev pub days_before : ℕ → ℕ
days_before yoe = 365 * yoe + yoe / 4 - yoe / 100

abbrev pub march_month : ℕ → ℕ
march_month doy = (5 * doy + 2) / 153

abbrev pub civil_month : ℕ → ℕ
civil_month mp = if ltb mp 10 then mp + 3 else mp - 9

abbrev pub civil_of_day : ℤ → ℕ → ℕ → Civil
civil_of_day era yoe doy =
    let mp = march_month doy in
    record {
      year = i32 (pos yoe +ℤ scale_ℤ era 400 +ℤ pos (if leb (civil_month mp) 2 then 1 else 0));
      month = pos (civil_month mp);
      day = pos (doy - (153 * mp + 2) / 5 + 1);
    }

-- The inverse. The differences of unsigned numbers never stop at 0: `doe` is below 146097.
unfoldable pub civil_from_days : ℤ → Civil
civil_from_days days =
    let z = i32 (days +ℤ pos 719468) in
    let era = era_of z 146097 in
    let doe = to_u32 (z -ℤ scale_ℤ era 146097) in
    let yoe = year_of_era doe in civil_of_day era yoe (doe - days_before yoe)

pub record Tm : Type 0 where
  pub sec : ℤ
  pub min : ℤ
  pub hour : ℤ
  pub mday : ℤ
  pub mon : ℤ
  pub year : ℤ
  pub wday : ℤ
  pub yday : ℤ
  pub isdst : ℤ

abbrev pub day_fields : ℤ → ℤ → Civil → Tm
day_fields days rem c = record {
  sec = rem_ℤ rem 60;
  min = quot_ℤ (rem_ℤ rem 3600) 60;
  hour = quot_ℤ rem 3600;
  mday = c.day;
  mon = c.month -ℤ pos 1;
  year = i32 (c.year -ℤ pos 1900);
  wday = rem_ℤ (rem_ℤ days 7 +ℤ pos 11) 7;
  yday = i32 (days -ℤ days_from_civil c.year (pos 1) (pos 1));
  isdst = pos 0;
}

abbrev pub day_of_secs : ℤ → ℤ
day_of_secs secs =
    if is_negative (rem_ℤ secs 86400) then quot_ℤ secs 86400 -ℤ pos 1 else quot_ℤ secs 86400

abbrev pub rem_of_secs : ℤ → ℤ
rem_of_secs secs =
    if is_negative (rem_ℤ secs 86400) then rem_ℤ secs 86400 +ℤ pos 86400 else rem_ℤ secs 86400

unfoldable pub fill_tm : ℤ → Tm
fill_tm secs = day_fields (day_of_secs secs) (rem_of_secs secs) (civil_from_days (day_of_secs secs))

-- The argument may be the null pointer.
abbrev pub secs_of : Option ℤ → ℤ
secs_of none = pos 0
secs_of (some secs) = secs

unfoldable pub gmtime : Option ℤ → Tm
gmtime t = fill_tm (secs_of t)

unfoldable pub localtime : Option (List ℕ) → Option ℤ → Tm
localtime zone t = fill_tm (i32 (secs_of t +ℤ scale_ℤ (tz_offset_minutes zone) 60))

-- The seconds, and the struct as it is left, for a struct that is not null. The zone is read twice.
unfoldable pub mktime : Option (List ℕ) → Option (List ℕ) → Tm → ℤ × Tm
mktime zone zone_again tm =
    let days = days_from_civil (i32 (tm.year +ℤ pos 1900)) (i32 (tm.mon +ℤ pos 1)) tm.mday in
    let local = i32 (scale_ℤ days 86400 +ℤ scale_ℤ tm.hour 3600 +ℤ scale_ℤ tm.min 60 +ℤ tm.sec) in
    let secs = i32 (local -ℤ scale_ℤ (tz_offset_minutes zone) 60) in
    (secs, fill_tm (i32 (secs +ℤ scale_ℤ (tz_offset_minutes zone_again) 60)))

-- The difference is taken in 64 bits.
unfoldable pub difftime : ℤ → ℤ → ℤ
difftime a b =
    let d = a -ℤ b in
    if ltb_ℤ (pos 0x7FFFFFFF) d
    then pos 0x7FFFFFFF
    else if ltb_ℤ d (negsuc 0x7FFFFFFF)
    then negsuc 0x7FFFFFFF
    else d
