-- ===== src/Util/Ascii.antt =====
-- Bytes as text: src/core/ascii.hpp, and the `std::string_view` searches that the parsers use. `npos`
-- is `none`. A char is a number below 256.
use stok.Base.{
  ℕ, suc, ◌+◌, ◌-◌, ◌*◌, ◌≡◌, refl, Bool, true, false, ◌&&◌, ◌||◌, Option, none, some, List, [],
  ◌∷◌, leb, ◌==◌, if◌then◌else◌, length, take, map,
}
use stok.Base.Int.{ℤ, pos, negsuc, sub_ℕ}
use mathlib.Core.Option
use Prim.Native.String.{String}
use Prim.Native.Char.{code}

abbrev pub Bytes : Type 0
Bytes = List ℕ

-- The bytes of a text of the source, which is ASCII.
abbrev pub codes : String → Bytes
codes String.[] = []
codes (String.◌∷◌ c s) = code c ∷ codes s

unfoldable pub is_digit : ℕ → Bool
is_digit c = leb b'0' c && leb c b'9'

unfoldable pub is_alpha : ℕ → Bool
is_alpha c = leb b'a' c && leb c b'z' || leb b'A' c && leb c b'Z'

unfoldable pub is_space : ℕ → Bool
is_space c = c == b' ' || leb 9 c && leb c 13

unfoldable pub to_lower : ℕ → ℕ
to_lower c = if leb b'A' c && leb c b'Z' then c + 32 else c

unfoldable pub to_upper : ℕ → ℕ
to_upper c = if leb b'a' c && leb c b'z' then c - 32 else c

unfoldable pub to_lower_copy : Bytes → Bytes
unfolding to_lower
to_lower_copy s = map to_lower s

unfoldable pub to_upper_copy : Bytes → Bytes
unfolding to_upper
to_upper_copy s = map to_upper s

-- `trim`: the two loops.
unfoldable pub trim_front : Bytes → Bytes
unfolding is_space
trim_front [] = []
trim_front (c ∷ s) = let rest = trim_front s in if is_space c then rest else c ∷ s

abbrev unless_blank : ℕ → Bytes → Bytes
unless_blank c [] = if is_space c then [] else c ∷ []
unless_blank c (d ∷ s) = c ∷ d ∷ s

unfoldable pub trim_back : Bytes → Bytes
unfolding is_space
trim_back [] = []
trim_back (c ∷ s) = unless_blank c (trim_back s)

unfoldable pub trim : Bytes → Bytes
unfolding trim_front trim_back
trim s = trim_back (trim_front s)

unfoldable pub iequals : Bytes → Bytes → Bool
unfolding to_lower
iequals [] [] = true
iequals [] (y ∷ ys) = false
iequals (x ∷ xs) [] = false
iequals (x ∷ xs) (y ∷ ys) = let rest = iequals xs ys in (to_lower x == to_lower y) && rest

unfoldable pub istarts_with : Bytes → Bytes → Bool
unfolding iequals
istarts_with s prefix = leb (length prefix) (length s) && iequals (take (length prefix) s) prefix

-- Whether the text begins with `needle`, which is lowercase.
unfoldable pub lower_prefix : Bytes → Bytes → Bool
unfolding to_lower
lower_prefix [] s = true
lower_prefix (n ∷ ns) [] = false
lower_prefix (n ∷ ns) (c ∷ s) = let rest = lower_prefix ns s in (to_lower c == n) && rest

-- `ifind` from the start.
unfoldable pub ifind : Bytes → Bytes → Option ℕ
unfolding lower_prefix
ifind [] needle = if length needle == 0 then some 0 else none
ifind (c ∷ s) needle =
    let later = Option.map suc (ifind s needle) in
    if lower_prefix needle (c ∷ s) then some 0 else later

-- `find` of a byte, and of the end of a line.
unfoldable pub find_byte : ℕ → Bytes → Option ℕ
find_byte b [] = none
find_byte b (c ∷ s) = let later = Option.map suc (find_byte b s) in if c == b then some 0 else later

unfoldable pub find_crlf : Bytes → Option ℕ
find_crlf [] = none
find_crlf (c ∷ []) = none
find_crlf (c ∷ d ∷ s) =
    let later = Option.map suc (find_crlf (d ∷ s)) in
    if (c == b'\r') && (d == b'\n') then some 0 else later

-- `std::from_chars` on a whole text of digits.
unfoldable pub digits_value : Bytes → ℕ → Option ℕ
unfolding is_digit
digits_value [] acc = some acc
digits_value (c ∷ s) acc =
    let more = digits_value s (acc * 10 + (c - b'0')) in if is_digit c then more else none

abbrev pub at_most : ℕ → Option ℕ → Option ℕ
at_most limit none = none
at_most limit (some n) = if leb n limit then some n else none

-- `parse_int` of an unsigned type with this largest value.
unfoldable pub parse_unsigned : ℕ → Bytes → Option ℕ
unfolding trim digits_value
parse_unsigned limit s =
    if length (trim s) == 0 then none else at_most limit (digits_value (trim s) 0)

abbrev signed_digits : ℕ → Bytes → Option ℤ
signed_digits limit [] = none
signed_digits limit (c ∷ s) =
    if c == b'-'
    then (if length s == 0
        then none
        else Option.map (sub_ℕ 0) (at_most (limit + 1) (digits_value s 0)))
    else Option.map pos (at_most limit (digits_value (c ∷ s) 0))

-- `parse_int` of a signed type with this largest value.
unfoldable pub parse_signed : ℕ → Bytes → Option ℤ
unfolding trim digits_value
parse_signed limit s = signed_digits limit (trim s)

parsed :
    (parse_unsigned 65535 (b' ' ∷ b'8' ∷ b'0' ∷ []) ≡ some 80)
    × (parse_signed 127 (b'-' ∷ b'1' ∷ b'2' ∷ b'8' ∷ b'\n' ∷ []) ≡ some (negsuc 127))
    × (parse_signed 127 (b'1' ∷ b'2' ∷ b'8' ∷ []) ≡ none)
unfolding parse_unsigned parse_signed
parsed = (refl, refl, refl)
