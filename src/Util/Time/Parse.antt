-- ===== src/Util/Time/Parse.antt =====
-- The parsers of src/util/time.cpp, from a date's text to nanoseconds since 1970 in UTC. A read of a
-- missing number or byte is `none`, for `return std::nullopt`.
use stok.Base.{
  ℕ, ◌+◌, ◌-◌, ◌*◌, ◌^◌, Bool, true, false, ◌&&◌, ◌||◌, not, Option, none, some, [], ◌∷◌, ltb, leb,
  ◌==◌, if◌then◌else◌, ◌>>=◌, length, take, drop, get_or,
}
use stok.Base.Int.{ℤ, pos, ◌+ℤ◌, ◌-ℤ◌}
use stok.Util.Ascii.{Bytes, is_digit, is_alpha, trim, parse_unsigned, parse_signed}
use stok.Util.Time.{Date, days_from_civil, eastern_midnight_ns, mul_nat, ns_per_s}
use stok.Util.Time.Cursor.{
  peek, skip_ws, Digits, read_int, read_alpha, after_alpha, past, skip_dashes, skip_digits,
}
use stok.Util.Time.Zone.{month_from_name, zone_offset_s}

infixl 5 ◌>>◌
abbrev pub ◌>>◌ {ℓ} : {B : Type ℓ} → Option (Unit {0}) → Option B → Option B
m >> k = m >>= λ _. k

abbrev pub guard : Bool → Option (Unit {0})
guard true = some tt
guard false = none

abbrev pub within : ℕ → ℕ → ℕ → Bool
within low high n = leb low n && leb n high

-- A time of day, in seconds and nanoseconds, and the cursor after it.
pub record Clock : Type 0 where
  pub hh : ℕ
  pub mi : ℕ
  pub ss : ℕ
  pub frac_ns : ℕ
  pub rest : Bytes

-- `:ss`, if a colon stands there.
abbrev pub read_seconds : ℕ → ℕ → Bytes → Option Clock
read_seconds hh mi s =
    if peek s == b':'
    then (do
      ss ← read_int 2 (drop 1 s)
      some (record { hh = hh; mi = mi; ss = ss.value; frac_ns = 0; rest = ss.after }))
    else some (record { hh = hh; mi = mi; ss = 0; frac_ns = 0; rest = s })

-- `hh:mm` and perhaps `:ss`.
unfoldable pub read_clock : Bytes → Option Clock
unfolding read_int past
read_clock s = do
  hh ← read_int 2 s
  s1 ← past b':' hh.after
  mi ← read_int 2 s1
  read_seconds hh.value mi.value mi.after

abbrev pub scaled : ℕ → ℕ → ℕ
scaled k v = v * 10 ^ k

-- A fraction of a second, if there is one: nine digits count, and the others are passed over.
abbrev pub fraction_from : Clock → Option Digits → Bytes → Clock
fraction_from c none s = record c { rest = s }
fraction_from c (some f) s = record c { frac_ns = scaled (9 - f.ndigits) f.value; rest = s }

abbrev pub after_digits : Bytes → Option Digits → Bytes
after_digits s none = s
after_digits s (some f) = f.after

abbrev pub read_fraction : Clock → Clock
read_fraction c =
    if (peek c.rest == b'.') || (peek c.rest == b',')
    then (let f = read_int 9 (drop 1 c.rest) in
        fraction_from c f (skip_digits (after_digits (drop 1 c.rest) f)))
    else c

abbrev pub midnight : Bytes → Clock
midnight s = record { hh = 0; mi = 0; ss = 0; frac_ns = 0; rest = s }

-- The seconds of a date and a time of day, less the zone's offset.
abbrev pub utc_seconds : ℤ → Clock → ℤ → ℤ
utc_seconds days c off = mul_nat days 86400 +ℤ pos (c.hh * 3600 + c.mi * 60 + c.ss) -ℤ off

abbrev or_utc : Option ℤ → ℤ
or_utc none = pos 0
or_utc (some off) = off

-- Of two digits, a year from 1970 to 2069.
abbrev full_year : Digits → ℕ
full_year y =
    if y.ndigits == 2 then (if ltb y.value 70 then y.value + 2000 else y.value + 1900) else y.value

abbrev day_name_skipped : Bytes → Bytes
day_name_skipped s = if is_alpha (peek s) then skip_ws (after_alpha s) else s

unfoldable pub parse_rfc822 : Bytes → Option ℤ
unfolding trim skip_ws is_alpha is_digit after_alpha read_alpha read_int skip_dashes month_from_name
    zone_offset_s read_clock days_from_civil ◌+ℤ◌ ◌-ℤ◌
parse_rfc822 s = do
  day ← read_int 2 (day_name_skipped (skip_ws (trim s)))
  guard (within 1 31 day.value)
  let s1 = skip_dashes day.after
  let mon = month_from_name (read_alpha s1)
  guard (not (mon == 0))
  year ← read_int 4 (skip_dashes (after_alpha s1))
  let s2 = skip_ws year.after
  clock ← (if is_digit (peek s2) then read_clock s2 else some (midnight s2))
  let off = or_utc (zone_offset_s (trim (skip_ws clock.rest)))
  some (
      mul_nat (utc_seconds (days_from_civil (pos (full_year year)) mon day.value) clock off)
        ns_per_s)

abbrev pub iso_clock : Bytes → Option Clock
iso_clock s =
    if (peek s == b'T') || (peek s == b't') || (peek s == b' ')
    then (do c ← read_clock (drop 1 s); some (read_fraction c))
    else some (midnight [])

unfoldable pub parse_iso8601 : Bytes → Option ℤ
unfolding trim is_digit read_int past read_clock skip_digits zone_offset_s days_from_civil ◌+ℤ◌ ◌-ℤ◌
parse_iso8601 s = do
  y ← read_int 4 (trim s)
  s1 ← past b'-' y.after
  mo ← read_int 2 s1
  guard (within 1 12 mo.value)
  s2 ← past b'-' mo.after
  d ← read_int 2 s2
  guard (within 1 31 d.value)
  c ← iso_clock d.after
  off ← zone_offset_s c.rest
  some (
      mul_nat (utc_seconds (days_from_civil (pos y.value) mo.value d.value) c off) ns_per_s
      +ℤ pos c.frac_ns)

abbrev is_year_first : Bytes → Bool
is_year_first s =
    leb 10 (length s)
    && is_digit (get_or s 0 0)
    && is_digit (get_or s 1 0)
    && is_digit (get_or s 2 0)
    && is_digit (get_or s 3 0)
    && (get_or s 4 0 == b'-')

pub parse_any_datetime : Bytes → Option ℤ
unfolding trim is_digit parse_iso8601 parse_rfc822
parse_any_datetime s =
    if is_year_first (trim s) then parse_iso8601 (trim s) else parse_rfc822 (trim s)

-- Milliseconds, of which three digits count.
abbrev millis_from : Option Digits → ℕ
millis_from none = 0
millis_from (some f) = f.value * 10 ^ (3 - f.ndigits)

abbrev eastern_clock : Bytes → Option Clock
eastern_clock [] = some (midnight [])
eastern_clock (b ∷ s) = do
  c ← read_clock (b ∷ s)
  some (
      if peek c.rest == b'.'
      then record c { frac_ns = millis_from (read_int 3 (drop 1 c.rest)) * 1_000_000 }
      else c)

unfoldable pub parse_eastern_mdy_time : Bytes → Bytes → Option ℤ
unfolding trim read_int past read_clock eastern_midnight_ns ◌+ℤ◌
parse_eastern_mdy_time mdy hms = do
  mo ← read_int 2 (trim mdy)
  guard (within 1 12 mo.value)
  s1 ← past b'/' mo.after
  d ← read_int 2 s1
  guard (within 1 31 d.value)
  s2 ← past b'/' d.after
  y ← read_int 4 s2
  guard (leb 1900 y.value)
  t ← eastern_clock (trim hms)
  some (
      eastern_midnight_ns (pos y.value) mo.value d.value
      +ℤ pos ((t.hh * 3600 + t.mi * 60 + t.ss) * ns_per_s)
      +ℤ pos t.frac_ns)

abbrev part : Bytes → ℕ → ℕ → Bytes
part s i n = take n (drop i s)

-- `parse_ymd`; `none` is `false`.
unfoldable pub parse_ymd : Bytes → Option Date
unfolding trim parse_signed parse_unsigned
parse_ymd s0 = do
  let s = trim s0
  guard (not (ltb (length s) 10) && (get_or s 4 0 == b'-') && (get_or s 7 0 == b'-'))
  yy ← parse_signed (2 ^ 31 - 1) (part s 0 4)
  mm ← parse_unsigned (2 ^ 32 - 1) (part s 5 2)
  dd ← parse_unsigned (2 ^ 32 - 1) (part s 8 2)
  guard (within 1 12 mm && within 1 31 dd)
  some (record { y = yy; m = mm; d = dd })
