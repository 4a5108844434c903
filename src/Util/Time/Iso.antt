-- ===== src/Util/Time/Iso.antt =====
-- `parse_iso8601` on the texts that `format_utc_iso` prints (src/util/time.cpp).
use stok.Base.{
  ℕ, suc, ◌+◌, ◌*◌, ◌/◌, ◌%◌, ◌^◌, ◌<◌, ◌≡◌, refl, sym, ap, ◌∙◌, true, false, arith, some, [], ◌∷◌,
  ◌++◌,
}
use mathlib.Core.Path.{subst}
use stok.Base.Int.{ℤ, pos, negsuc, ◌+ℤ◌, ◌-ℤ◌, pos_part, int_laws, cast_i32, cast_i32_lem}
use stok.Util.Ascii.{Bytes, is_space, trim}
use stok.Util.Time.{
  mul_nat, floor_div, ns_per_s, Date, days_from_civil, year_from_days, civil_from_days,
}
use stok.Util.Time.Civil.{civil_from_days-InMonth, days_from_civil-year_from_days}
use stok.Util.Time.Format.{padded, utc_text, format_utc_iso}
use stok.Util.Time.Cursor.{past, skip_digits}
use stok.Util.Time.Zone.{zone_offset_s}
use stok.Util.Time.Parse.{parse_iso8601, within, read_clock, iso_clock}
use stok.Util.Time.RoundTrip.{fixed, padded-fixed, read_int-fixed}

-- A time of day with milliseconds, in UTC.
abbrev clock_of : ℕ → ℕ → ℕ → ℕ → Bytes
clock_of h mi s ms =
    fixed 2 h ++ (b':' ∷ fixed 2 mi ++ (b':' ∷ fixed 2 s ++ (b'.' ∷ fixed 3 ms ++ (b'Z' ∷ []))))

abbrev text_of : ℕ → ℕ → ℕ → Bytes → Bytes
text_of y m d rest = fixed 4 y ++ (b'-' ∷ fixed 2 m ++ (b'-' ∷ fixed 2 d ++ (b'T' ∷ rest)))

is_space_digit : (n : ℕ) → is_space (b'0' + n % 10) ≡ false
unfolding is_space
is_space_digit n = ground arith

trim_text :
    (y m d h mi s ms : ℕ)
    → trim (text_of y m d (clock_of h mi s ms)) ≡ text_of y m d (clock_of h mi s ms)
unfolding trim is_space
trim_text y m d h mi s ms = rw (is_space_digit (y / 10 / 10 / 10)) refl

read_clock_lem :
    (h mi s ms : ℕ)
    → h < 100
    → mi < 100
    → s < 100
    → read_clock (clock_of h mi s ms)
      ≡ some
          (record { hh = h; mi = mi; ss = s; frac_ns = 0; rest = b'.' ∷ fixed 3 ms ++ (b'Z' ∷ []) })
unfolding read_clock past
read_clock_lem h mi s ms a b c =
    rw
      (
        read_int-fixed 1 0 h b':'
            (fixed 2 mi ++ (b':' ∷ fixed 2 s ++ (b'.' ∷ fixed 3 ms ++ (b'Z' ∷ [])))) (omega arith)
            refl,
        read_int-fixed 1 0 mi b':' (fixed 2 s ++ (b'.' ∷ fixed 3 ms ++ (b'Z' ∷ []))) (omega arith)
            refl,
        read_int-fixed 1 0 s b'.' (fixed 3 ms ++ (b'Z' ∷ [])) (omega arith) refl,
      )
      refl

iso_clock_lem :
    (h mi s ms : ℕ)
    → h < 100
    → mi < 100
    → s < 100
    → ms < 1000
    → iso_clock (b'T' ∷ clock_of h mi s ms)
      ≡ some (record { hh = h; mi = mi; ss = s; frac_ns = ms * 10 ^ 6; rest = b'Z' ∷ [] })
unfolding skip_digits
iso_clock_lem h mi s ms a b c e =
    rw (read_clock_lem h mi s ms a b c, read_int-fixed 2 6 ms b'Z' [] (omega arith) refl) refl

-- A date and a time of day that are printed in fixed widths.
parse_iso8601_lem :
    (y m d h mi s ms : ℕ)
    → y < 10000
    → within 1 12 m ≡ true
    → within 1 31 d ≡ true
    → h < 100
    → mi < 100
    → s < 100
    → ms < 1000
    → parse_iso8601 (text_of y m d (clock_of h mi s ms))
      ≡ some (
          mul_nat
            (mul_nat (days_from_civil (pos y) m d) 86400 +ℤ pos (h * 3600 + mi * 60 + s) -ℤ pos 0)
            ns_per_s
          +ℤ pos (ms * 10 ^ 6))
unfolding parse_iso8601 past zone_offset_s
parse_iso8601_lem y m d h mi s ms a b c e f g i =
    rw
      (
        trim_text y m d h mi s ms,
        read_int-fixed 3 0 y b'-' (fixed 2 m ++ (b'-' ∷ fixed 2 d ++ (b'T' ∷ clock_of h mi s ms)))
            (omega arith) refl,
        read_int-fixed 1 0 m b'-' (fixed 2 d ++ (b'T' ∷ clock_of h mi s ms)) (ground arith) refl,
        b,
        read_int-fixed 1 0 d b'T' (clock_of h mi s ms) (ground arith) refl,
        c,
        iso_clock_lem h mi s ms e f g i,
      )
      refl

padded_lem : (w n : ℕ) → w < 20 → n < 10 ^ suc w → padded (suc w) (pos n) ≡ fixed (suc w) n
unfolding padded
padded_lem w n h k = padded-fixed w 20 n h k

-- A time as a date and a time of day, for the years from 0 to 9999.
utc_text_lem :
    (days : ℤ) (sod ms y : ℕ)
    → (civil_from_days days).y ≡ pos y
    → y < 10000
    → sod < 86400
    → ms < 1000
    → utc_text days sod ms
      ≡ text_of y
          (civil_from_days days).m
          (civil_from_days days).d
          (clock_of (sod / 3600) (sod / 60 % 60) (sod % 60) ms)
utc_text_lem days sod ms y e a b c =
    let i = civil_from_days-InMonth days in
    rw
      (
        e,
        padded_lem 3 y (omega arith) (omega arith),
        padded_lem 1 (civil_from_days days).m (omega arith) (omega (arith, i.month_to)),
        padded_lem 1 (civil_from_days days).d (omega arith) (omega (arith, i.day_to)),
        padded_lem 1 (sod / 3600) (omega arith) (omega arith),
        padded_lem 1 (sod / 60 % 60) (omega arith) (omega arith),
        padded_lem 1 (sod % 60) (omega arith) (omega arith),
        padded_lem 2 ms (omega arith) (omega arith),
      )
      refl

abbrev left_of : ℤ → ℕ → ℕ
unfolding ◌-ℤ◌
left_of z k = pos_part (z -ℤ mul_nat (floor_div z k) k)

day_split :
    (z : ℤ)
    → (left_of z 86400 < 86400) × (mul_nat (floor_div z 86400) 86400 +ℤ pos (left_of z 86400) ≡ z)
unfolding left_of ◌+ℤ◌ ◌-ℤ◌
day_split (pos n) = (ground arith, ground arith)
day_split (negsuc n) = (ground arith, ground arith)

second_split :
    (z : ℤ)
    → (left_of z ns_per_s < ns_per_s)
      × (mul_nat (floor_div z ns_per_s) ns_per_s +ℤ pos (left_of z ns_per_s) ≡ z)
unfolding left_of ◌+ℤ◌ ◌-ℤ◌
second_split (pos n) = (ground arith, ground arith)
second_split (negsuc n) = (ground arith, ground arith)

floor_div_ms :
    (q : ℤ) (r : ℕ) → r < 1_000_000 → floor_div (mul_nat q 1_000_000 +ℤ pos r) 1_000_000 ≡ q
unfolding ◌+ℤ◌ ◌-ℤ◌
floor_div_ms (pos n) r h = ground arith
floor_div_ms (negsuc n) r h = ground arith

whole_ms :
    (s : ℤ) (ms : ℕ)
    → mul_nat s ns_per_s +ℤ pos (ms * 10 ^ 6) ≡ mul_nat (mul_nat s 1000 +ℤ pos ms) 1_000_000
unfolding ◌+ℤ◌
whole_ms (pos n) ms = ground arith
whole_ms (negsuc n) ms = ground arith

ms_split : (x : ℤ) (r : ℕ) → x +ℤ pos r ≡ x +ℤ pos (r / 1_000_000 * 10 ^ 6) +ℤ pos (r % 1_000_000)
ms_split x r = omega int_laws

-- The whole milliseconds up to a time.
floor_ms :
    (t : ℤ)
    → mul_nat (floor_div t ns_per_s) ns_per_s +ℤ pos (left_of t ns_per_s / 1_000_000 * 10 ^ 6)
      ≡ mul_nat (floor_div t 1_000_000) 1_000_000
floor_ms t =
    whole_ms s ms
    ∙ ap (λ w. mul_nat w 1_000_000)
        (sym
          (floor_div_ms (mul_nat s 1000 +ℤ pos ms) (left_of t ns_per_s % 1_000_000) (omega arith)))
    ∙ ap (λ w. mul_nat (floor_div w 1_000_000) 1_000_000) back
  where
    s : ℤ
    s = floor_div t ns_per_s

    ms : ℕ
    ms = left_of t ns_per_s / 1_000_000

    back : mul_nat (mul_nat s 1000 +ℤ pos ms) 1_000_000 +ℤ pos (left_of t ns_per_s % 1_000_000) ≡ t
    back =
        ap (λ w. w +ℤ pos (left_of t ns_per_s % 1_000_000)) (sym (whole_ms s ms))
        ∙ sym (ms_split (mul_nat s ns_per_s) (left_of t ns_per_s))
        ∙ (second_split t).1

less_zero : (x : ℤ) → x -ℤ pos 0 ≡ x
less_zero x = omega int_laws

format_utc_iso_lem :
    (t : ℤ)
    → let s = floor_div t ns_per_s in
      format_utc_iso t
      ≡ utc_text (floor_div s 86400) (left_of s 86400) (left_of t ns_per_s / 1_000_000)
unfolding format_utc_iso left_of
format_utc_iso_lem t = refl

-- A year of four digits is not changed by its cast.
year-four_digits :
    (days : ℤ) (y : ℕ) → year_from_days days ≡ pos y → y < 10000 → (civil_from_days days).y ≡ pos y
unfolding civil_from_days
year-four_digits days y e a = ap cast_i32 e ∙ cast_i32_lem (pos y) (omega arith) (omega arith)

-- The seconds of a date and a time of day that come from one time.
seconds_back :
    (s : ℤ) (y : ℕ)
    → let c = civil_from_days (floor_div s 86400) in
      let sod = left_of s 86400 in
      year_from_days (floor_div s 86400) ≡ pos y
      → mul_nat (days_from_civil (pos y) c.m c.d) 86400
          +ℤ pos (sod / 3600 * 3600 + sod / 60 % 60 * 60 + sod % 60)
          -ℤ pos 0
        ≡ s
seconds_back s y e =
    less_zero (
      mul_nat (days_from_civil (pos y) c.m c.d) 86400
      +ℤ pos (sod / 3600 * 3600 + sod / 60 % 60 * 60 + sod % 60))
    ∙ ap (λ k. mul_nat (days_from_civil (pos y) c.m c.d) 86400 +ℤ pos k) clock
    ∙ ap (λ d. mul_nat d 86400 +ℤ pos sod)
        (subst (λ w. days_from_civil w c.m c.d ≡ floor_div s 86400) e
          (days_from_civil-year_from_days (floor_div s 86400)))
    ∙ (day_split s).1
  where
    c : Date
    c = civil_from_days (floor_div s 86400)

    sod : ℕ
    sod = left_of s 86400

    clock : sod / 3600 * 3600 + sod / 60 % 60 * 60 + sod % 60 ≡ sod
    clock = omega (arith, (day_split s).0)

-- For a time in the years from 0 to 9999 in UTC, before and after 1970, parsing what is printed gives the time
-- rounded down to whole milliseconds.
pub parse_iso8601-format_utc_iso :
    (t : ℤ) (y : ℕ)
    → year_from_days (floor_div (floor_div t ns_per_s) 86400) ≡ pos y
    → y < 10000
    → parse_iso8601 (format_utc_iso t) ≡ some (mul_nat (floor_div t 1_000_000) 1_000_000)
parse_iso8601-format_utc_iso t y e a =
    let small : left_of t ns_per_s / 1_000_000 < 1000 = omega (arith, (second_split t).0) in
    let i = civil_from_days-InMonth (floor_div s 86400) in
    let shown = year-four_digits (floor_div s 86400) y e a in
    ap parse_iso8601 (
      format_utc_iso_lem t
      ∙ utc_text_lem (floor_div s 86400) sod (left_of t ns_per_s / 1_000_000) y shown a
          (day_split s).0 small)
    ∙ parse_iso8601_lem y (civil_from_days (floor_div s 86400)).m
        (civil_from_days (floor_div s 86400)).d (sod / 3600) (sod / 60 % 60) (sod % 60)
        (left_of t ns_per_s / 1_000_000) a (ground (arith, i.month_from, i.month_to))
        (ground (arith, i.day_from, i.day_to)) (omega (arith, (day_split s).0)) (omega arith)
        (omega arith) small
    ∙ ap (λ w. some w)
        (ap (λ w. mul_nat w ns_per_s +ℤ pos (left_of t ns_per_s / 1_000_000 * 10 ^ 6))
            (seconds_back s y e)
          ∙ floor_ms t)
  where
    s : ℤ
    s = floor_div t ns_per_s

    sod : ℕ
    sod = left_of s 86400
