-- ===== src/Time/Calendar.antt =====
-- c/rt/time.c: bounds of the formulas for the year within an era, and for the month within a year.
use mellivora_os.Time.{
  early_month, era_of, year_in_era, march_year, days_at, march_day, civil_month,
}
use mellivora_os.Base.Int.{pos, ◌+ℤ◌, ◌-ℤ◌}
use mellivora_os.Base.Signed.{i32-id, IsI32, i32, to_u32, to_i32, scale_ℤ, quot_ℤ}
use mellivora_os.Base.{
  ℕ, ◌+◌, ◌-◌, ◌*◌, ◌/◌, ◌%◌, ◌≤◌, ◌<◌, ◌≡◌, refl, sym, ap, ◌∙◌, subst, arith, leb, if◌then◌else◌,
}

-- With the three divisions by name: `a` cycles of four years, `b` of a century, `c` of the era.
pub year_bounds :
    (doe a b c yoe : ℕ)
    → doe < 146097
    → a ≡ doe / 1460
    → b ≡ doe / 36524
    → c ≡ doe / 146096
    → yoe ≡ (doe - a + b - c) / 365
    → (yoe < 400)
      × ((365 * yoe + yoe / 4 ≤ doe + yoe / 100) × (doe + yoe / 100 ≤ 365 * yoe + yoe / 4 + 365))
year_bounds doe a b c yoe h ea eb ec ey = omega arith

pub month_bounds :
    (doy mp : ℕ) → doy < 366 → mp ≡ (5 * doy + 2) / 153 → (mp < 12) × ((153 * mp + 2) / 5 ≤ doy)
month_bounds doy mp h e = omega arith

pub era_pos : (n k : ℕ) → era_of (pos n) k ≡ pos (n / k)
unfolding quot_ℤ
era_pos n k = ground arith

pub day_in_era :
    (n : ℕ) → n < 0x80000000 → to_u32 (pos n -ℤ scale_ℤ (pos (n / 146097)) 146097) ≡ n % 146097
unfolding to_u32 scale_ℤ ◌-ℤ◌
day_in_era n h = ground arith

pub year_in_era_pos :
    (e yoe : ℕ) → yoe < 400 → e < 14700 → year_in_era (pos (yoe + e * 400)) (pos e) ≡ yoe
unfolding year_in_era to_u32 scale_ℤ ◌-ℤ◌
year_in_era_pos e yoe h k = ground arith

pub march_year_pos :
    (e yoe m adjust : ℕ)
    → yoe < 400
    → e < 14700
    → adjust ≡ (if leb m 2 then 1 else 0)
    → march_year (pos (yoe + e * 400 + adjust)) (pos m) ≡ pos (yoe + e * 400)
unfolding march_year ◌-ℤ◌ i32 to_i32 to_u32
march_year_pos e yoe m adjust h k a = ground arith

pub days_at_pos :
    (e yoe doy : ℕ)
    → yoe < 400
    → doy < 366
    → e * 146097 + (yoe * 365 + yoe / 4 - yoe / 100 + doy) < 0x80000000
    → days_at (pos e) yoe doy
      ≡ pos (e * 146097 + (yoe * 365 + yoe / 4 - yoe / 100 + doy)) -ℤ pos 719468
unfolding days_at ◌-ℤ◌ ◌+ℤ◌ scale_ℤ i32 to_i32 to_u32
days_at_pos e yoe doy h k l = ground arith

from_march :
    (mp m : ℕ)
    → mp < 12
    → m ≡ civil_month mp
    → i32 (if early_month (pos m) then pos m +ℤ pos 9 else pos m -ℤ pos 3) ≡ pos mp
unfolding ◌-ℤ◌ ◌+ℤ◌ i32 to_i32 to_u32
from_march mp m h e = ground arith

days_before_month :
    (mp : ℕ) → mp < 12 → quot_ℤ (i32 (scale_ℤ (pos mp) 153 +ℤ pos 2)) 5 ≡ pos ((153 * mp + 2) / 5)
unfolding ◌+ℤ◌ scale_ℤ quot_ℤ
days_before_month mp h =
    let small : (pos (mp * 153) +ℤ pos 2) ≡ pos (153 * mp + 2) = ground arith in
    ap (λ z. quot_ℤ z 5)
      (i32-id (pos (mp * 153) +ℤ pos 2) (subst IsI32 (sym small) (omega arith, omega arith))
        ∙ small)

day_sum : (n d : ℕ) → n < 400 → 0 < d → d < 1000 → to_u32 (pos n +ℤ pos d -ℤ pos 1) ≡ n + d - 1
unfolding ◌-ℤ◌ ◌+ℤ◌ to_u32
day_sum n d h k l = ground arith

pub march_day_pos :
    (mp d : ℕ)
    → mp < 12
    → 0 < d
    → d < 1000
    → march_day (pos (civil_month mp)) (pos d) ≡ (153 * mp + 2) / 5 + d - 1
unfolding march_day
march_day_pos mp d h k l =
    ap (λ z. to_u32 (quot_ℤ (i32 (scale_ℤ z 153 +ℤ pos 2)) 5 +ℤ pos d -ℤ pos 1))
      (from_march mp (civil_month mp) h refl)
    ∙ ap (λ z. to_u32 (z +ℤ pos d -ℤ pos 1)) (days_before_month mp h)
    ∙ day_sum ((153 * mp + 2) / 5) d (omega arith) k l
