-- ===== src/Util/Time/Eastern.antt =====
-- US Eastern time of src/util/time.cpp: midnights, dates and the time of day.
use stok.Base.{
  ℕ, suc, ◌+◌, ◌-◌, ◌*◌, ◌/◌, ◌%◌, ◌<◌, ◌≤◌, ◌≡◌, refl, ◌∙◌, Bool, true, false, ◌&&◌, not,
  if◌then◌else◌, arith,
}
use stok.Base.Int.{
  ℤ, pos, negsuc, ◌+ℤ◌, ◌-ℤ◌, ltb_ℤ, pos_part, neg_part, int_laws, +ℤ_parts, cast_i64, cast_i64_lem,
}
use stok.Util.Time.{
  mul_nat, quot, rem, floor_div, ns_per_s, days_from_civil, civil_from_days, sunday_from, dst_start,
  dst_end, eastern_utc_offset_s, eastern_midnight_ns, eastern_date, eastern_second,
  eastern_minute_of_day,
}
use stok.Util.Time.Civil.{days_from_civil-civil_from_days}

mul_nat_parts :
    (z : ℤ) (k : ℕ)
    → pos_part (mul_nat z k) + neg_part z * k ≡ pos_part z * k + neg_part (mul_nat z k)
mul_nat_parts (pos n) k = ground arith
mul_nat_parts (negsuc n) k = ground arith

-- The product by 86400, as omega reads it.
day_parts :
    (z : ℤ)
    → pos_part (mul_nat z 86400) + neg_part z * 86400
      ≡ pos_part z * 86400 + neg_part (mul_nat z 86400)
day_parts z = mul_nat_parts z 86400

floor_div_day : (z : ℤ) (k : ℕ) → k < 86400 → floor_div (mul_nat z 86400 +ℤ pos k) 86400 ≡ z
unfolding ◌+ℤ◌ ◌-ℤ◌
floor_div_day (pos n) k h = ground arith
floor_div_day (negsuc n) k h = ground arith

quot_whole : (x : ℤ) → quot (mul_nat x ns_per_s) ns_per_s ≡ x
quot_whole (pos n) = ground arith
quot_whole (negsuc n) = ground arith

-- Whether daylight saving time holds in a year whose bounds are the Sundays `a` and `b`, at a second.
abbrev saved : ℤ → ℤ → ℤ → Bool
saved a b s =
    not (ltb_ℤ s (mul_nat (a +ℤ pos 7) 86400 +ℤ pos (7 * 3600)))
    && ltb_ℤ s (mul_nat b 86400 +ℤ pos (6 * 3600))

-- It does not change from 04:00 to 05:00 in UTC.
saved_alike :
    (a b z : ℤ)
    → saved a b (mul_nat z 86400 +ℤ pos (4 * 3600)) ≡ saved a b (mul_nat z 86400 +ℤ pos (5 * 3600))
saved_alike a b z = ground (
  arith,
  day_parts z,
  day_parts (a +ℤ pos 7),
  day_parts b,
  +ℤ_parts (mul_nat z 86400) (pos (4 * 3600)),
  +ℤ_parts (mul_nat z 86400) (pos (5 * 3600)),
  +ℤ_parts (mul_nat (a +ℤ pos 7) 86400) (pos (7 * 3600)),
  +ℤ_parts (mul_nat b 86400) (pos (6 * 3600)),
)

abbrev offset : Bool → ℤ
offset true = negsuc (4 * 3600 - 1)
offset false = negsuc (5 * 3600 - 1)

-- The second of the day, in UTC, at which it is midnight.
abbrev midnight : Bool → ℕ
midnight true = 4 * 3600
midnight false = 5 * 3600

abbrev march : ℤ → ℤ
march z = sunday_from (days_from_civil (civil_from_days z).y 3 1)

abbrev november : ℤ → ℤ
november z = sunday_from (days_from_civil (civil_from_days z).y 11 1)

offset_lem : (t : Bool) → (if t then negsuc (4 * 3600 - 1) else negsuc (5 * 3600 - 1)) ≡ offset t
offset_lem true = refl
offset_lem false = refl

-- The offset at a second of the day `z`.
eastern_utc_offset_s_lem :
    (z : ℤ) (k : ℕ)
    → k < 86400
    → eastern_utc_offset_s (mul_nat z 86400 +ℤ pos k)
      ≡ offset (saved (march z) (november z) (mul_nat z 86400 +ℤ pos k))
unfolding eastern_utc_offset_s dst_start dst_end
eastern_utc_offset_s_lem z k h =
    rw (floor_div_day z k h) (offset_lem (saved (march z) (november z) (mul_nat z 86400 +ℤ pos k)))

less_offset : (x : ℤ) (t : Bool) → x -ℤ offset t ≡ x +ℤ pos (midnight t)
less_offset x true = omega int_laws
less_offset x false = omega int_laws

plus_offset : (x : ℤ) (t : Bool) → x +ℤ pos (midnight t) +ℤ offset t ≡ x +ℤ pos 0
plus_offset x true = omega int_laws
plus_offset x false = omega int_laws

abbrev saves : ℤ → Bool
saves z = saved (march z) (november z) (mul_nat z 86400 +ℤ pos (5 * 3600))

saved-midnight :
    (z : ℤ) (t : Bool)
    → saves z ≡ t
    → saved (march z) (november z) (mul_nat z 86400 +ℤ pos (midnight t)) ≡ t
saved-midnight z true h = saved_alike (march z) (november z) z ∙ h
saved-midnight z false h = h

midnight_lt : (t : Bool) → midnight t < 86400
midnight_lt true = omega arith
midnight_lt false = omega arith

-- The days whose midnights are a 64-bit number of nanoseconds from 1970: from 1677-09-22 to 2262-04-11.
abbrev pub IsShown : ℤ → Type 0
IsShown z = (pos_part z ≤ 106751) × (neg_part z ≤ 106751)

midnight_fits :
    (z : ℤ) (t : Bool)
    → IsShown z
    → cast_i64 (mul_nat (mul_nat z 86400 +ℤ pos (midnight t)) ns_per_s)
      ≡ mul_nat (mul_nat z 86400 +ℤ pos (midnight t)) ns_per_s
unfolding ◌+ℤ◌
midnight_fits z true h =
    cast_i64_lem (mul_nat (mul_nat z 86400 +ℤ pos (4 * 3600)) ns_per_s) (ground (arith, h.0, h.1))
      (ground (arith, h.0, h.1))
midnight_fits z false h =
    cast_i64_lem (mul_nat (mul_nat z 86400 +ℤ pos (5 * 3600)) ns_per_s) (ground (arith, h.0, h.1))
      (ground (arith, h.0, h.1))

eastern_midnight_ns_lem :
    (z : ℤ)
    → IsShown z
    → let c = civil_from_days z in
      eastern_midnight_ns c.y c.m c.d
      ≡ mul_nat (mul_nat z 86400 +ℤ pos (midnight (saves z))) ns_per_s
unfolding eastern_midnight_ns
eastern_midnight_ns_lem z shown =
    rw
      (
        days_from_civil-civil_from_days z (omega (arith, shown.0), omega (arith, shown.1)),
        eastern_utc_offset_s_lem z (5 * 3600) (omega arith),
        less_offset (mul_nat z 86400) (saves z),
      )
      (midnight_fits z (saves z) shown)

-- For a day from 1677-09-22 to 2262-04-11, whose midnight is a 64-bit number of nanoseconds, the Eastern date
-- at the Eastern midnight that is computed for the day's date is that date, also on the days on which the
-- clocks change.
pub eastern_date-eastern_midnight_ns :
    (z : ℤ)
    → IsShown z
    → let c = civil_from_days z in eastern_date (eastern_midnight_ns c.y c.m c.d) ≡ c
unfolding eastern_date
eastern_date-eastern_midnight_ns z shown =
    rw
      (
        eastern_midnight_ns_lem z shown,
        quot_whole (mul_nat z 86400 +ℤ pos (midnight (saves z))),
        eastern_utc_offset_s_lem z (midnight (saves z)) (midnight_lt (saves z)),
        saved-midnight z (saves z) refl,
        plus_offset (mul_nat z 86400) (saves z),
        floor_div_day z 0 (omega arith),
      )
      refl

-- What C++'s `%` gives, raised to a second of a day.
rem_day :
    (x : ℤ)
    → let r = rem x 86400 in
      (n : ℕ) × ((if ltb_ℤ r (pos 0) then r +ℤ pos 86400 else r) ≡ pos n) × (n < 86400)
unfolding ◌+ℤ◌
rem_day (pos n) = (n % 86400, ground arith, omega arith)
rem_day (negsuc n) = ((86400 - suc n % 86400) % 86400, ground arith, omega arith)

eastern_second_bound : (t : ℤ) → (n : ℕ) × (eastern_second t ≡ pos n) × (n < 86400)
unfolding eastern_second
eastern_second_bound t = rem_day (quot t ns_per_s +ℤ eastern_utc_offset_s (quot t ns_per_s))

-- The minute of the Eastern day is one of 1440, before 1970 too.
pub eastern_minute_of_day_bound : (t : ℤ) → (n : ℕ) × (eastern_minute_of_day t ≡ pos n) × (n < 1440)
unfolding eastern_minute_of_day
eastern_minute_of_day_bound t =
    let (n, e, h) = eastern_second_bound t in (n / 60, rw e refl, omega arith)
