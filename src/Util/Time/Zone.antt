-- ===== src/Util/Time/Zone.antt =====
-- `month_from_name` and `zone_offset_s` of src/util/time.cpp.
use stok.Base.{
  ℕ, suc, ◌+◌, ◌-◌, ◌*◌, Bool, ◌&&◌, ◌||◌, Option, none, some, List, [], ◌∷◌, ltb, leb, ◌==◌,
  if◌then◌else◌, length, get_or,
}
use Prim.Native.String.{String}
use stok.Base.Int.{ℤ, pos, sub_ℕ}
use stok.Util.Ascii.{Bytes, codes, is_digit, iequals, istarts_with}

-- The first name in the list that the text begins with, counted from `k`; 0 if there is none.
abbrev month_among : Bytes → ℕ → List String → ℕ
month_among n k [] = 0
month_among n k (m ∷ ms) =
    let later = month_among n (suc k) ms in if istarts_with n (codes m) then k else later

unfoldable pub month_from_name : Bytes → ℕ
unfolding istarts_with
month_from_name n =
    if ltb (length n) 3
    then 0
    else month_among n 1 (
        "jan" ∷ "feb" ∷ "mar" ∷ "apr" ∷ "may" ∷ "jun" ∷ "jul" ∷ "aug" ∷ "sep" ∷ "oct" ∷ "nov"
        ∷ "dec" ∷ [])

abbrev digit : Bytes → ℕ → ℕ
digit r i = get_or r i 0 - b'0'

abbrev digit_at : Bytes → ℕ → Bool
digit_at r i = is_digit (get_or r i 0)

abbrev signed : Bool → ℕ → ℤ
signed minus n = if minus then sub_ℕ 0 n else pos n

-- The minutes of a numeric zone, which start at `k`.
abbrev zone_minutes : Bytes → ℕ → ℕ
zone_minutes r k =
    if leb (k + 2) (length r) && digit_at r k && digit_at r (k + 1)
    then digit r k * 10 + digit r (k + 1)
    else 0

-- A numeric zone after its sign.
unfoldable pub numeric_offset : Bool → Bytes → Option ℤ
unfolding is_digit
numeric_offset minus r =
    if leb 4 (length r) && digit_at r 0 && digit_at r 1
    then (let k = if get_or r 2 0 == b':' then 3 else 2 in
        some (signed minus ((digit r 0 * 10 + digit r 1) * 3600 + zone_minutes r k * 60)))
    else if (length r == 2) && digit_at r 0 && digit_at r 1
    then some (signed minus ((digit r 0 * 10 + digit r 1) * 3600))
    else none

pub record Zone : Type 0 where
  pub n : String
  pub off : ℤ

abbrev pub zones : List Zone
zones =
    record { n = "gmt"; off = pos 0 }
    ∷ record { n = "ut"; off = pos 0 }
    ∷ record { n = "utc"; off = pos 0 }
    ∷ record { n = "z"; off = pos 0 }
    ∷ record { n = "est"; off = sub_ℕ 0 (5 * 3600) }
    ∷ record { n = "edt"; off = sub_ℕ 0 (4 * 3600) }
    ∷ record { n = "cst"; off = sub_ℕ 0 (6 * 3600) }
    ∷ record { n = "cdt"; off = sub_ℕ 0 (5 * 3600) }
    ∷ record { n = "mst"; off = sub_ℕ 0 (7 * 3600) }
    ∷ record { n = "mdt"; off = sub_ℕ 0 (6 * 3600) }
    ∷ record { n = "pst"; off = sub_ℕ 0 (8 * 3600) }
    ∷ record { n = "pdt"; off = sub_ℕ 0 (7 * 3600) }
    ∷ record { n = "bst"; off = pos 3600 }
    ∷ record { n = "cet"; off = pos 3600 }
    ∷ record { n = "cest"; off = pos (2 * 3600) }
    ∷ []

abbrev named_offset : Bytes → List Zone → Option ℤ
named_offset z [] = none
named_offset z (zz ∷ zs) =
    let later = named_offset z zs in if iequals z (codes zz.n) then some zz.off else later

-- `zone_offset_s`; `none` is `INT32_MIN`.
unfoldable pub zone_offset_s : Bytes → Option ℤ
unfolding numeric_offset iequals
zone_offset_s [] = some (pos 0)
zone_offset_s (c ∷ r) =
    if (c == b'+') || (c == b'-') then numeric_offset (c == b'-') r else named_offset (c ∷ r) zones
