-- ===== src/Util/Time.antt =====
-- Dates and US Eastern time of src/util/time.hpp and time.cpp. An int64_t is an integer, and the `int` of
-- a year is cut to 32 bits; the product that gives nanoseconds is cut to 64 bits, where C++ leaves a larger
-- one undefined. `/` and `%` round towards 0 as in C++. An unsigned keeps its wrap-around.
pub mod Civil
pub mod Eastern
pub mod Cursor
pub mod Zone
pub mod Parse
pub mod Format
pub mod RoundTrip
pub mod Iso
mod Tests
use stok.Base.{
  ℕ, zero, suc, ◌+◌, ◌-◌, ◌*◌, ◌/◌, ◌%◌, ◌^◌, Bool, true, false, ◌&&◌, not, ltb, leb, ◌==◌,
  if◌then◌else◌,
}
use stok.Base.Int.{ℤ, pos, negsuc, ◌+ℤ◌, ◌-ℤ◌, ltb_ℤ, sub_ℕ, pos_part, cast_i32, cast_i64}

-- An integer times, divided by and modulo a positive number.
abbrev pub mul_nat : ℤ → ℕ → ℤ
mul_nat (pos n) k = pos (n * k)
mul_nat (negsuc n) k = sub_ℕ 0 (suc n * k)

abbrev pub quot : ℤ → ℕ → ℤ
quot (pos n) k = pos (n / k)
quot (negsuc n) k = sub_ℕ 0 (suc n / k)

abbrev pub rem : ℤ → ℕ → ℤ
rem (pos n) k = pos (n % k)
rem (negsuc n) k = sub_ℕ 0 (suc n % k)

-- `z >= 0 ? z / k : (z - (k - 1)) / k`, as the code rounds down.
abbrev pub floor_div : ℤ → ℕ → ℤ
floor_div z k = if ltb_ℤ z (pos 0) then quot (z -ℤ pos (k - 1)) k else quot z k

pub record Date : Type 0 where
  pub y : ℤ
  pub m : ℕ
  pub d : ℕ

-- `days_from_civil` within an era of 400 years; `mp` counts the months from March.
pub day_of_year : ℕ → ℕ → ℕ
day_of_year m d = ((153 * (if ltb 2 m then m - 3 else m + 9) + 2) / 5 + d + (2 ^ 32 - 1)) % 2 ^ 32

pub day_of_era : ℕ → ℕ → ℕ
day_of_era yoe doy = yoe * 365 + yoe / 4 - yoe / 100 + doy

unfoldable pub days_from_civil : ℤ → ℕ → ℕ → ℤ
unfolding day_of_year day_of_era ◌+ℤ◌ ◌-ℤ◌
days_from_civil y0 m d =
    let y = if leb m 2 then y0 -ℤ pos 1 else y0 in
    let era = floor_div y 400 in
    let yoe = pos_part (y -ℤ mul_nat era 400) in
    mul_nat era 146097 +ℤ pos (day_of_era yoe (day_of_year m d)) -ℤ pos 719468

pub year_of_era : ℕ → ℕ
year_of_era doe = (doe - doe / 1460 + doe / 36524 - doe / 146096) / 365

pub month_of : ℕ → ℕ
month_of mp = if ltb mp 10 then mp + 3 else mp - 9

-- `yy + (m <= 2)`, the year before the cast.
unfoldable pub year_from_days : ℤ → ℤ
unfolding year_of_era month_of ◌+ℤ◌ ◌-ℤ◌
year_from_days z0 =
    let z = z0 +ℤ pos 719468 in
    let era = floor_div z 146097 in
    let doe = pos_part (z -ℤ mul_nat era 146097) in
    let yoe = year_of_era doe in
    let yy = pos yoe +ℤ mul_nat era 400 in
    let doy = doe - (365 * yoe + yoe / 4 - yoe / 100) in
    let mp = (5 * doy + 2) / 153 in if leb (month_of mp) 2 then yy +ℤ pos 1 else yy

unfoldable pub civil_from_days : ℤ → Date
unfolding year_from_days year_of_era month_of cast_i32 ◌+ℤ◌ ◌-ℤ◌
civil_from_days z0 =
    let z = z0 +ℤ pos 719468 in
    let era = floor_div z 146097 in
    let doe = pos_part (z -ℤ mul_nat era 146097) in
    let yoe = year_of_era doe in
    let doy = doe - (365 * yoe + yoe / 4 - yoe / 100) in
    let mp = (5 * doy + 2) / 153 in
    record { y = cast_i32 (year_from_days z0); m = month_of mp; d = doy - (153 * mp + 2) / 5 + 1 }

-- 0 is Sunday.
pub weekday_from_days : ℤ → ℤ
unfolding ◌+ℤ◌
weekday_from_days z = if ltb_ℤ z (negsuc 3) then rem (z +ℤ pos 5) 7 +ℤ pos 6 else rem (z +ℤ pos 4) 7

-- The first Sunday at or after a day.
pub sunday_from : ℤ → ℤ
unfolding weekday_from_days ◌+ℤ◌ ◌-ℤ◌
sunday_from day = day +ℤ rem (pos 7 -ℤ weekday_from_days day) 7

-- The bounds of daylight saving time in a year, in seconds.
pub dst_start : ℤ → ℤ
unfolding days_from_civil sunday_from ◌+ℤ◌
dst_start y = mul_nat (sunday_from (days_from_civil y 3 1) +ℤ pos 7) 86400 +ℤ pos (7 * 3600)

pub dst_end : ℤ → ℤ
unfolding days_from_civil sunday_from ◌+ℤ◌
dst_end y = mul_nat (sunday_from (days_from_civil y 11 1)) 86400 +ℤ pos (6 * 3600)

pub eastern_utc_offset_s : ℤ → ℤ
unfolding civil_from_days dst_start dst_end
eastern_utc_offset_s epoch_s =
    let y = (civil_from_days (floor_div epoch_s 86400)).y in
    if not (ltb_ℤ epoch_s (dst_start y)) && ltb_ℤ epoch_s (dst_end y)
    then negsuc (4 * 3600 - 1)
    else negsuc (5 * 3600 - 1)

abbrev pub ns_per_s : ℕ
ns_per_s = 1_000_000_000

pub eastern_midnight_ns : ℤ → ℕ → ℕ → ℤ
unfolding days_from_civil eastern_utc_offset_s cast_i64 ◌+ℤ◌ ◌-ℤ◌
eastern_midnight_ns y m d =
    let days = days_from_civil y m d in
    let off = eastern_utc_offset_s (mul_nat days 86400 +ℤ pos (5 * 3600)) in
    cast_i64 (mul_nat (mul_nat days 86400 -ℤ off) ns_per_s)

unfoldable pub eastern_date : ℤ → Date
unfolding civil_from_days eastern_utc_offset_s ◌+ℤ◌
eastern_date epoch_ns =
    let s = quot epoch_ns ns_per_s in
    civil_from_days (floor_div (s +ℤ eastern_utc_offset_s s) 86400)

-- Seconds since midnight of the Eastern clock.
pub eastern_second : ℤ → ℤ
unfolding eastern_utc_offset_s ◌+ℤ◌
eastern_second epoch_ns =
    let s = quot epoch_ns ns_per_s in
    let local = rem (s +ℤ eastern_utc_offset_s s) 86400 in
    if ltb_ℤ local (pos 0) then local +ℤ pos 86400 else local

unfoldable pub eastern_minute_of_day : ℤ → ℤ
unfolding eastern_second
eastern_minute_of_day epoch_ns = quot (eastern_second epoch_ns) 60
