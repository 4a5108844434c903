-- ===== src/Util/Time/Format.antt =====
-- Times as text, of src/util/time.cpp. The conversions `%d`, `%02d`, `%03d` and `%04d` of `snprintf` are
-- those of the C standard; no buffer here is too small for its text.
use stok.Base.{ℕ, zero, suc, ◌+◌, ◌-◌, ◌/◌, ◌%◌, [], ◌∷◌, ◌++◌, ltb, if◌then◌else◌, length}
use stok.Base.Int.{ℤ, pos, negsuc, ◌-ℤ◌, pos_part}
use stok.Util.Ascii.{Bytes}
use stok.Util.Time.{
  Date, civil_from_days, eastern_date, eastern_second, floor_div, mul_nat, ns_per_s,
}

-- The decimal digits of a number below 10 ^ k, without zeros in front.
unfoldable pub decimal : ℕ → ℕ → Bytes
decimal zero n = []
decimal (suc k) n =
    let front = decimal k (n / 10) in
    if ltb n 10 then (b'0' + n) ∷ [] else front ++ ((b'0' + n % 10) ∷ [])

unfoldable pub zeros : ℕ → Bytes
zeros zero = []
zeros (suc n) = b'0' ∷ zeros n

-- `%0wd` of a number of 64 bits.
unfoldable pub padded : ℕ → ℤ → Bytes
unfolding decimal zeros
padded w (pos n) = zeros (w - length (decimal 20 n)) ++ decimal 20 n
padded w (negsuc n) = (b'-' ∷ zeros (w - suc (length (decimal 20 (suc n))))) ++ decimal 20 (suc n)

abbrev pub date_text : Date → Bytes
date_text t = padded 4 t.y ++ (b'-' ∷ padded 2 (pos t.m) ++ (b'-' ∷ padded 2 (pos t.d)))

-- `%02d:%02d:%02d` of a second of the day.
abbrev pub clock_text : ℕ → Bytes
clock_text sod =
    padded 2 (pos (sod / 3600))
    ++ (b':' ∷ padded 2 (pos (sod / 60 % 60)) ++ (b':' ∷ padded 2 (pos (sod % 60))))

abbrev pub utc_text : ℤ → ℕ → ℕ → Bytes
utc_text days sod ms =
    date_text (civil_from_days days)
    ++ (b'T' ∷ clock_text sod ++ (b'.' ∷ padded 3 (pos ms) ++ (b'Z' ∷ [])))

unfoldable pub format_utc_iso : ℤ → Bytes
unfolding padded civil_from_days ◌-ℤ◌
format_utc_iso epoch_ns =
    let s = floor_div epoch_ns ns_per_s in
    let ms = pos_part (epoch_ns -ℤ mul_nat s ns_per_s) / 1_000_000 in
    let days = floor_div s 86400 in utc_text days (pos_part (s -ℤ mul_nat days 86400)) ms

pub eastern_date_str : ℤ → Bytes
unfolding padded eastern_date
eastern_date_str epoch_ns = date_text (eastern_date epoch_ns)

pub eastern_hms : ℤ → Bytes
unfolding padded eastern_second
eastern_hms epoch_ns = clock_text (pos_part (eastern_second epoch_ns))
