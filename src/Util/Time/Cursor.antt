-- ===== src/Util/Time/Cursor.antt =====
-- `Cursor` of src/util/time.cpp: a text that is read from the front. The cursor is what is left of the
-- text, `s.substr(i)`.
use stok.Base.{
  ℕ, zero, suc, ◌+◌, ◌-◌, ◌*◌, ◌||◌, Option, none, some, [], ◌∷◌, ◌==◌, if◌then◌else◌, get_or,
}
use stok.Util.Ascii.{Bytes, is_digit, is_alpha, is_space}

abbrev pub peek : Bytes → ℕ
peek s = get_or s 0 0

unfoldable pub skip_ws : Bytes → Bytes
unfolding is_space
skip_ws [] = []
skip_ws (c ∷ s) = let rest = skip_ws s in if is_space c || (c == b',') then rest else c ∷ s

-- What `read_int` has read: the value, the number of digits and the cursor after them.
pub record Digits : Type 0 where
  pub value : ℕ
  pub ndigits : ℕ
  pub after : Bytes

unfoldable pub read_digits : ℕ → ℕ → ℕ → Bytes → Digits
unfolding is_digit
read_digits zero v n s = record { value = v; ndigits = n; after = s }
read_digits (suc k) v n [] = record { value = v; ndigits = n; after = [] }
read_digits (suc k) v n (c ∷ s) =
    let more = read_digits k (v * 10 + (c - b'0')) (suc n) s in
    if is_digit c then more else record { value = v; ndigits = n; after = c ∷ s }

-- `read_int`, where the code goes on only if it is not -1.
unfoldable pub read_int : ℕ → Bytes → Option Digits
unfolding read_digits
read_int max_digits s =
    let r = read_digits max_digits 0 0 s in if r.ndigits == 0 then none else some r

-- `read_alpha`: the cursor after the letters, and the letters.
unfoldable pub after_alpha : Bytes → Bytes
unfolding is_alpha
after_alpha [] = []
after_alpha (c ∷ s) = let rest = after_alpha s in if is_alpha c then rest else c ∷ s

unfoldable pub read_alpha : Bytes → Bytes
unfolding is_alpha
read_alpha [] = []
read_alpha (c ∷ s) = let rest = read_alpha s in if is_alpha c then c ∷ rest else []

-- `if (c.peek() != b) return nullopt; ++c.i;`
unfoldable pub past : ℕ → Bytes → Option Bytes
past b [] = none
past b (c ∷ s) = if c == b then some s else none

-- `while (c.peek() == ' ' || c.peek() == '-') ++c.i;`
unfoldable pub skip_dashes : Bytes → Bytes
skip_dashes [] = []
skip_dashes (c ∷ s) = let rest = skip_dashes s in if (c == b' ') || (c == b'-') then rest else c ∷ s

-- `while (is_digit(c.peek())) ++c.i;`
unfoldable pub skip_digits : Bytes → Bytes
unfolding is_digit
skip_digits [] = []
skip_digits (c ∷ s) = let rest = skip_digits s in if is_digit c then rest else c ∷ s
