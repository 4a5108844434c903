-- ===== src/Util/Time/Tests.antt =====
-- Dates and times of src/tests/test_util.cpp.
use stok.Base.{arith, ◌≡◌, refl, some}
use stok.Base.Int.{pos, negsuc}
use stok.Util.Ascii.{codes}
use stok.Util.Time.{
  year_from_days, civil_from_days, days_from_civil, eastern_midnight_ns, eastern_date,
}
use stok.Util.Time.Civil.{InMonth, civil_from_days-InMonth, days_from_civil-civil_from_days}
use stok.Util.Time.Eastern.{eastern_date-eastern_midnight_ns}
use stok.Util.Time.{floor_div, mul_nat}
use stok.Util.Time.Iso.{parse_iso8601-format_utc_iso}
use stok.Util.Time.Parse.{parse_rfc822, parse_iso8601}
use stok.Util.Time.Format.{format_utc_iso}

rfc822 : parse_rfc822 (codes "Fri, 25 Sep 2026 12:00:00 GMT") ≡ some (pos 1_790_337_600_000_000_000)
unfolding parse_rfc822
rfc822 = refl

iso : parse_iso8601 (codes "2026-09-25T08:00:00.5-04:00") ≡ some (pos 1_790_337_600_500_000_000)
unfolding parse_iso8601
iso = refl

printed : format_utc_iso (pos 1_790_337_600_500_000_000) ≡ codes "2026-09-25T12:00:00.500Z"
unfolding format_utc_iso
printed = refl

-- The days before and after the epoch, and one on which the clocks change.
civil_from_days-InMonth_example :
    InMonth (civil_from_days (negsuc 0)).m (civil_from_days (negsuc 0)).d
civil_from_days-InMonth_example = civil_from_days-InMonth (negsuc 0)

days_from_civil-civil_from_days_example :
    let c = civil_from_days (negsuc 0) in days_from_civil c.y c.m c.d ≡ negsuc 0
days_from_civil-civil_from_days_example =
    days_from_civil-civil_from_days (negsuc 0) (omega arith, omega arith)

eastern_date-eastern_midnight_ns_example :
    let c = civil_from_days (pos 20520) in eastern_date (eastern_midnight_ns c.y c.m c.d) ≡ c
eastern_date-eastern_midnight_ns_example =
    eastern_date-eastern_midnight_ns (pos 20520) (omega arith, omega arith)

changes : civil_from_days (pos 20520) ≡ record { y = pos 2026; m = 3; d = 8 }
unfolding civil_from_days
changes = refl

-- A nanosecond before 1970.
parse_iso8601-format_utc_iso_example :
    parse_iso8601 (format_utc_iso (negsuc 0))
    ≡ some (mul_nat (floor_div (negsuc 0) 1_000_000) 1_000_000)
unfolding year_from_days
parse_iso8601-format_utc_iso_example =
    parse_iso8601-format_utc_iso (negsuc 0) 1969 refl (omega arith)
