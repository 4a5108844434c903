-- ===== src/Util/Time/Civil.antt =====
-- Days and civil dates, both ways, and the Sundays of daylight saving time.
use stok.Base.{
  ℕ, ◌+◌, ◌-◌, ◌*◌, ◌/◌, ◌%◌, ◌^◌, ◌≤◌, ◌<◌, ◌≡◌, leb, if◌then◌else◌, arith, Bool-cases, inl, inr,
  ap, ◌∙◌,
}
use stok.Base.Int.{
  ℤ, pos, negsuc, ◌+ℤ◌, ◌-ℤ◌, pos_part, neg_part, +ℤ_cancel, +ℤ_parts, ◌≤ℤ◌, cast_i32, cast_i32_lem,
}
use stok.Util.Time.{
  year_of_era, day_of_era, day_of_year, month_of, weekday_from_days, rem, mul_nat, floor_div,
  year_from_days, civil_from_days, days_from_civil,
}

year_lt : (doe : ℕ) → doe < 146097 → year_of_era doe < 400
unfolding year_of_era
year_lt doe h = omega arith

year_start :
    (doe : ℕ) → doe < 146097 → let yoe = year_of_era doe in 365 * yoe + yoe / 4 - yoe / 100 ≤ doe
unfolding year_of_era
year_start doe h = omega arith

year_end :
    (doe : ℕ)
    → doe < 146097
    → let yoe = year_of_era doe in doe ≤ 365 * yoe + yoe / 4 - yoe / 100 + 365
unfolding year_of_era
year_end doe h = omega arith

-- The day within its year, from 1 March on.
year_day : ℕ → ℕ
year_day doe = doe - (365 * year_of_era doe + year_of_era doe / 4 - year_of_era doe / 100)

year_day-le : (doe : ℕ) → doe < 146097 → year_day doe ≤ 365
unfolding year_day
year_day-le doe h = omega (arith, year_end doe h)

pub record InMonth (m d : ℕ) : Type 0 where
  pub month_from : 1 ≤ m
  pub month_to : m ≤ 12
  pub day_from : 1 ≤ d
  pub day_to : d ≤ 31

abbrev march_month : ℕ → ℕ
march_month doy = (5 * doy + 2) / 153

abbrev month_day : ℕ → ℕ
month_day doy = doy - (153 * march_month doy + 2) / 5 + 1

month_day-InMonth : (doy : ℕ) → doy ≤ 365 → InMonth (month_of (march_month doy)) (month_day doy)
unfolding month_of
month_day-InMonth doy h = ground arith

day_of_year-month_day :
    (doy : ℕ) → doy ≤ 365 → day_of_year (month_of (march_month doy)) (month_day doy) ≡ doy
unfolding day_of_year month_of
day_of_year-month_day doy h = ground arith

day_of_era-year_day : (doe : ℕ) → doe < 146097 → day_of_era (year_of_era doe) (year_day doe) ≡ doe
unfolding day_of_era year_day
day_of_era-year_day doe h = omega (arith, year_start doe h)

-- Rounding down: the remainder is in range.
abbrev rest_of : ℤ → ℕ → ℤ
rest_of z k = z -ℤ mul_nat (floor_div z k) k

era_split :
    (z : ℤ)
    → (pos_part (rest_of z 146097) < 146097)
      × (mul_nat (floor_div z 146097) 146097 +ℤ pos (pos_part (rest_of z 146097)) ≡ z)
unfolding ◌+ℤ◌ ◌-ℤ◌
era_split z = ground arith

-- A year within an era is found again.
era_of : (era : ℤ) (yoe : ℕ) → yoe < 400 → floor_div (pos yoe +ℤ mul_nat era 400) 400 ≡ era
unfolding ◌+ℤ◌ ◌-ℤ◌
era_of era yoe h = ground arith

-- The date of a day: a month from 1 to 12, a day of the month from 1 to 31.
pub civil_from_days-InMonth : (z : ℤ) → InMonth (civil_from_days z).m (civil_from_days z).d
unfolding civil_from_days
civil_from_days-InMonth z =
    let doe = pos_part (rest_of (z +ℤ pos 719468) 146097) in
    unfold year_day in
    month_day-InMonth (year_day doe) (year_day-le doe (era_split (z +ℤ pos 719468)).0)

-- The two adjustments of the year for January and February cancel.
days_from_march :
    (yy : ℤ) (m d : ℕ)
    → days_from_civil (if leb m 2 then yy +ℤ pos 1 else yy) m d
      ≡ mul_nat (floor_div yy 400) 146097
        +ℤ pos (day_of_era (pos_part (rest_of yy 400)) (day_of_year m d))
        -ℤ pos 719468
unfolding days_from_civil
days_from_march yy m d = elim (Bool-cases (leb m 2)) [
  | inl e ↦ rw (e, +ℤ_cancel yy (pos 1))
  | inr e ↦ rw e
]

days_of_era :
    (era : ℤ) (doe m d : ℕ)
    → doe < 146097
    → day_of_year m d ≡ year_day doe
    → let yy = pos (year_of_era doe) +ℤ mul_nat era 400 in
      days_from_civil (if leb m 2 then yy +ℤ pos 1 else yy) m d
      ≡ mul_nat era 146097 +ℤ pos doe -ℤ pos 719468
days_of_era era doe m d h e =
    let yoe = year_of_era doe in
    rw (
      days_from_march (pos yoe +ℤ mul_nat era 400) m d,
      era_of era yoe (year_lt doe h),
      +ℤ_cancel (pos yoe) (mul_nat era 400),
      e,
      day_of_era-year_day doe h,
    )

-- Before the cast of the year, in every era.
pub days_from_civil-year_from_days :
    (z : ℤ) → days_from_civil (year_from_days z) (civil_from_days z).m (civil_from_days z).d ≡ z
unfolding civil_from_days year_from_days
days_from_civil-year_from_days z =
    let zz = z +ℤ pos 719468 in
    let doe = pos_part (rest_of zz 146097) in
    let (lt, split) = era_split zz in
    unfold year_day in
    (days_of_era (floor_div zz 146097) doe (month_of (march_month (year_day doe)))
        (month_day (year_day doe)) lt (day_of_year-month_day (year_day doe) (year_day-le doe lt))
      ∙ ap (λ w. w -ℤ pos 719468) split
      ∙ +ℤ_cancel z (pos 719468))

-- The days within 2^39 of 1970, whose years fit an int.
abbrev pub IsNear : ℤ → Type 0
IsNear z = (pos_part z ≤ 2 ^ 39) × (neg_part z ≤ 2 ^ 39)

era_near :
    (z : ℤ)
    → IsNear z
    → let e = floor_div (z +ℤ pos 719468) 146097 in (pos_part e ≤ 3762992) × (neg_part e ≤ 3762992)
unfolding ◌+ℤ◌ ◌-ℤ◌
era_near z h = ground (arith, h.0, h.1)

year_near :
    (era : ℤ) (yoe m : ℕ)
    → pos_part era ≤ 3762992
    → neg_part era ≤ 3762992
    → yoe < 400
    → let yy = pos yoe +ℤ mul_nat era 400 in
      cast_i32 (if leb m 2 then yy +ℤ pos 1 else yy) ≡ (if leb m 2 then yy +ℤ pos 1 else yy)
unfolding ◌+ℤ◌
year_near era yoe m h k small =
    let yy = pos yoe +ℤ mul_nat era 400 in
    cast_i32_lem (if leb m 2 then yy +ℤ pos 1 else yy) (ground arith) (ground arith)

pub civil_from_days-year_from_days : (z : ℤ) → IsNear z → (civil_from_days z).y ≡ year_from_days z
unfolding civil_from_days year_from_days
civil_from_days-year_from_days z near =
    let zz = z +ℤ pos 719468 in
    let doe = pos_part (rest_of zz 146097) in
    let e = era_near z near in
    unfold year_day in
    year_near (floor_div zz 146097) (year_of_era doe) (month_of (march_month (year_day doe))) e.0
      e.1 (year_lt doe (era_split zz).0)

-- For a day within 2^39 days of 1970, before it or after it, which is a year that fits an int, the days of
-- the date of the day are that day.
pub days_from_civil-civil_from_days :
    (z : ℤ) → IsNear z → let c = civil_from_days z in days_from_civil c.y c.m c.d ≡ z
days_from_civil-civil_from_days z near =
    ap (λ y. days_from_civil y (civil_from_days z).m (civil_from_days z).d)
      (civil_from_days-year_from_days z near)
    ∙ days_from_civil-year_from_days z

-- The weekday by one remainder.
weekday_lem : (z : ℤ) → weekday_from_days z ≡ pos ((pos_part z + 4 + 6 * neg_part z) % 7)
unfolding weekday_from_days ◌+ℤ◌
weekday_lem (pos n) = ground arith
weekday_lem (negsuc n) = ground arith

rem_next : (w : ℕ) → rem (pos w +ℤ pos 1) 7 ≡ pos ((w + 1) % 7)
unfolding ◌+ℤ◌
rem_next w = ground arith

-- The weekday of the next day is the next weekday, also across the epoch.
pub weekday_next : (z : ℤ) → weekday_from_days (z +ℤ pos 1) ≡ rem (weekday_from_days z +ℤ pos 1) 7
weekday_next z =
    rw (weekday_lem z, weekday_lem (z +ℤ pos 1), rem_next ((pos_part z + 4 + 6 * neg_part z) % 7))
      (ap pos (omega (arith, +ℤ_parts z (pos 1))))

pub record IsSundayNear (day s : ℤ) : Type 0 where
  pub sunday : weekday_from_days s ≡ pos 0
  pub not_before : day ≤ℤ s
  pub within_week : s ≤ℤ day +ℤ pos 6
