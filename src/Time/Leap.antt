-- ===== src/Time/Leap.antt =====
-- c/rt/time.c: `days_from_civil` against the Gregorian rule for the length of the months.
use mellivora_os.Time.{days_from_civil, civil_month, days_before}
use mellivora_os.Time.Inverse.{from_parts}
use mellivora_os.Base.Int.{pos, ◌+ℤ◌, ◌-ℤ◌}
use mellivora_os.Base.{
  refl, tests, ℕ, ◌+◌, ◌-◌, ◌*◌, ◌/◌, ◌%◌, ◌≤◌, ◌<◌, ◌≡◌, ◌≢◌, Bool, ◌&&◌, ◌||◌, not, arith, ltb,
  leb, ◌==◌, if◌then◌else◌, ℕ_discrete, ap, sym, ◌∙◌, subst, Bool-cases, inl, inr, tests,
}

abbrev pub is_leap : ℕ → Bool
is_leap y = y % 4 == 0 && (not (y % 100 == 0) || y % 400 == 0)

abbrev pub days_in_month : ℕ → ℕ → ℕ
days_in_month y m =
    if m == 2
    then (if is_leap y then 29 else 28)
    else if m == 4 || m == 6 || m == 9 || m == 11
    then 30
    else 31

-- The day after a valid date: year, month and day.
abbrev pub next_day : ℕ → ℕ → ℕ → ℕ × (ℕ × ℕ)
next_day y m d =
    if ltb d (days_in_month y m)
    then (y, (m, d + 1))
    else if ltb m 12
    then (y, (m + 1, 1))
    else (y + 1, (1, 1))

-- Days since 0000-03-01, in natural numbers.
abbrev month_from_march : ℕ → ℕ
month_from_march m = if leb m 2 then m + 9 else m - 3

abbrev begun_year : ℕ → ℕ → ℕ
begun_year y m = if leb m 2 then y - 1 else y

abbrev count : ℕ → ℕ → ℕ → ℕ
count y m d =
    let b = begun_year y m in
    b / 400 * 146097 + (days_before (b % 400) + ((153 * month_from_march m + 2) / 5 + d - 1))

count_next_month :
    (y m : ℕ)
    → 1 ≤ y
    → 1 ≤ m
    → m < 12
    → m ≢ 2
    → count y (m + 1) 1 ≡ count y m (days_in_month y m) + 1
count_next_month y m hy lo hi other = ground arith

count_march : (y : ℕ) → 1 ≤ y → count y 3 1 ≡ count y 2 (days_in_month y 2) + 1
count_march y hy = ground arith

count_january : (y : ℕ) → 1 ≤ y → count (y + 1) 1 1 ≡ count y 12 31 + 1
count_january y hy = ground arith

month_back : (m : ℕ) → 1 ≤ m → m ≤ 12 → civil_month (month_from_march m) ≡ m
month_back m lo hi = ground arith

month_small : (m : ℕ) → 1 ≤ m → m ≤ 12 → month_from_march m < 12
month_small m lo hi = ground arith

year_back :
    (y m : ℕ)
    → 1 ≤ y
    → begun_year y m % 400 + begun_year y m / 400 * 400 + (if leb m 2 then 1 else 0) ≡ y
year_back y m h = ground arith

month_length : (y m : ℕ) → days_in_month y m ≤ 31
month_length y m = ground arith

february_length : (y m : ℕ) → m ≡ 2 → days_in_month y m ≤ 29
february_length y m e = ground arith

day_small :
    (y m d : ℕ)
    → 1 ≤ m
    → m ≤ 12
    → 1 ≤ d
    → d ≤ days_in_month y m
    → (153 * month_from_march m + 2) / 5 + d - 1 < 366
day_small y m d lo hi hd fits = elim (ℕ_discrete m 2) [
  | yes e ↦ let length = february_length y m e in rw e (omega arith)
  | no other ↦ let length = month_length y m in ground arith
]

count_small :
    (y m d : ℕ)
    → 1 ≤ y
    → y ≤ 5000000
    → 1 ≤ m
    → m ≤ 12
    → 1 ≤ d
    → d ≤ days_in_month y m
    → count y m d < 0x80000000
count_small y m d hy few lo hi hd fits =
    let small = day_small y m d lo hi hd fits in
    let begun : begun_year y m ≤ y = ground arith in omega arith

pub from_date :
    (y m d : ℕ)
    → 1 ≤ y
    → y ≤ 5000000
    → 1 ≤ m
    → m ≤ 12
    → 1 ≤ d
    → d ≤ days_in_month y m
    → days_from_civil (pos y) (pos m) (pos d) ≡ pos (count y m d) -ℤ pos 719468
from_date y m d hy few lo hi hd fits =
    let mp = month_from_march m in
    let b = begun_year y m in
    let length = month_length y m in
    ap (λ k. days_from_civil (pos k) (pos m) (pos d)) (sym (year_back y m hy))
    ∙ subst
        (λ k.
          days_from_civil (pos (b % 400 + b / 400 * 400 + (if leb k 2 then 1 else 0))) (pos k)
            (pos d)
          ≡ pos (count y m d) -ℤ pos 719468)
        (month_back m lo hi)
        (from_parts (b / 400) (b % 400) mp d ((153 * mp + 2) / 5 + d - 1) (omega arith)
          (month_small m lo hi) hd (omega arith) refl (day_small y m d lo hi hd fits)
          (count_small y m d hy few lo hi hd fits))

-- The count of the next day.
count_next :
    (y m d : ℕ)
    → 1 ≤ y
    → 1 ≤ m
    → m ≤ 12
    → 1 ≤ d
    → d ≤ days_in_month y m
    → let next = next_day y m d in count next.0 next.1.0 next.1.1 ≡ count y m d + 1
count_next y m d hy lo hi hd fits = elim (Bool-cases (ltb d (days_in_month y m))) [
  | inl within ↦ rw within (omega arith)
  | inr over ↦
      let last : d ≡ days_in_month y m = grind (tests, over) in
      rw over (elim (Bool-cases (ltb m 12)) [
        | inl more ↦ rw more (elim (ℕ_discrete m 2) [
          | yes e ↦
              subst (λ k. count y (k + 1) 1 ≡ count y k (days_in_month y k) + 1) (sym e)
                (count_march y hy)
              ∙ ap (λ k. count y m k + 1) (sym last)
          | no other ↦
              count_next_month y m hy lo (grind (tests, more)) other
              ∙ ap (λ k. count y m k + 1) (sym last)
        ])
        | inr done ↦ rw done (
            let twelve : m ≡ 12 = grind (tests, done) in
            subst (λ k. count (y + 1) 1 1 ≡ count y k (days_in_month y k) + 1) (sym twelve)
              (count_january y hy)
            ∙ ap (λ k. count y m k + 1) (sym last))
      ])
]

abbrev pub IsDate : ℕ → ℕ → ℕ → Type 0
IsDate y m d = (1 ≤ y) × ((1 ≤ m) × ((m ≤ 12) × ((1 ≤ d) × (d ≤ days_in_month y m))))

first_fits : (y m : ℕ) → 1 ≤ days_in_month y m
first_fits y m = ground arith

next_day-IsDate :
    (y m d : ℕ) → IsDate y m d → IsDate (next_day y m d).0 (next_day y m d).1.0 (next_day y m d).1.1
next_day-IsDate y m d (hy, (lo, (hi, (hd, fits)))) = elim (Bool-cases (ltb d (days_in_month y m))) [
  | inl within ↦ rw within (hy, (lo, (hi, (omega arith, grind (tests, within)))))
  | inr over ↦ rw over (elim (Bool-cases (ltb m 12)) [
    | inl more ↦
        rw more (hy, (omega arith, (grind (tests, more), (omega arith, first_fits y (m + 1)))))
    | inr done ↦
        rw done (omega arith, (omega arith, (omega arith, (omega arith, first_fits (y + 1) 1))))
  ])
]

next_year : (y m d : ℕ) → (next_day y m d).0 ≤ y + 1
next_year y m d = elim (Bool-cases (ltb d (days_in_month y m))) [
  | inl within ↦ rw within (omega arith)
  | inr over ↦ rw over (elim (Bool-cases (ltb m 12)) [
    | inl more ↦ rw more (omega arith)
    | inr done ↦ rw done (omega arith)
  ])
]

step_pos : (n : ℕ) → pos (n + 1) -ℤ pos 719468 ≡ (pos n -ℤ pos 719468) +ℤ pos 1
unfolding ◌-ℤ◌ ◌+ℤ◌
step_pos n = ground arith

-- For the dates of the years 1 to 4999999, by the Gregorian rule for the length of the months: the day
-- after a date has the next number.
pub days_from_civil-next_day :
    (y m d : ℕ)
    → IsDate y m d
    → y < 5000000
    → days_from_civil (pos (next_day y m d).0) (pos (next_day y m d).1.0) (pos (next_day y m d).1.1)
      ≡ days_from_civil (pos y) (pos m) (pos d) +ℤ pos 1
days_from_civil-next_day y m d date few =
    let (ny, (nlo, (nhi, (nd, nfits)))) = next_day-IsDate y m d date in
    let (hy, (lo, (hi, (hd, fits)))) = date in
    let bound = next_year y m d in
    from_date (next_day y m d).0 (next_day y m d).1.0 (next_day y m d).1.1 ny (omega arith) nlo nhi
      nd nfits
    ∙ ap (λ k. pos k -ℤ pos 719468) (count_next y m d hy lo hi hd fits)
    ∙ step_pos (count y m d)
    ∙ ap (λ z. z +ℤ pos 1) (sym (from_date y m d hy (omega arith) lo hi hd fits))
