-- ===== src/Util/Time/RoundTrip.antt =====
-- `parse_iso8601` of what `format_utc_iso` prints (src/util/time.cpp).
use stok.Base.{
  ℕ, zero, suc, ◌+◌, ◌-◌, ◌*◌, ◌/◌, ◌%◌, ◌^◌, ◌≤◌, ◌<◌, ◌≡◌, refl, sym, ap, ◌∙◌, true, false, arith,
  branch, some, [], ◌∷◌, ◌++◌, length, length-append, append_assoc, ltb, ◌==◌, Bool-cases, inl, inr,
}
use native.Mathlib.Nat.{zero-add, suc-add}
use stok.Util.Ascii.{Bytes, is_digit}
use stok.Util.Time.Cursor.{read_digits, read_int}
use stok.Util.Time.Format.{decimal, zeros}

-- The number in w digits.
abbrev pub fixed : ℕ → ℕ → Bytes
fixed zero n = []
fixed (suc w) n = fixed w (n / 10) ++ ((b'0' + n % 10) ∷ [])

length-fixed : (w n : ℕ) → length (fixed w n) ≡ w
length-fixed zero n = refl
length-fixed (suc w) n =
    omega (arith, length-append (fixed w (n / 10)) ((b'0' + n % 10) ∷ []), length-fixed w (n / 10))

zeros-append : (w : ℕ) → zeros w ++ (b'0' ∷ []) ≡ b'0' ∷ zeros w
unfolding zeros
zeros-append zero = refl
zeros-append (suc w) = ap (λ s. b'0' ∷ s) (zeros-append w)

zeros-fixed : (w : ℕ) → zeros w ≡ fixed w 0
unfolding zeros
zeros-fixed zero = refl
zeros-fixed (suc w) = sym (zeros-append w) ∙ ap (λ s. s ++ (b'0' ∷ [])) (zeros-fixed w)

decimal_short : (k n : ℕ) → n < 10 → decimal (suc k) n ≡ (b'0' + n % 10) ∷ []
unfolding decimal
decimal_short k n h =
    branch (λ s. s ≡ (b'0' + n % 10) ∷ []) (ltb n 10) (λ _. ap (λ d. (b'0' + d) ∷ []) (omega arith))
      (λ e. ground arith)

decimal_long : (k n : ℕ) → 10 ≤ n → decimal (suc k) n ≡ decimal k (n / 10) ++ ((b'0' + n % 10) ∷ [])
unfolding decimal
decimal_long k n h =
    branch (λ s. s ≡ decimal k (n / 10) ++ ((b'0' + n % 10) ∷ [])) (ltb n 10) (λ e. ground arith)
      (λ _. refl)

-- The digits of a number, with zeros in front.
pub padded-fixed :
    (w k n : ℕ)
    → w < k
    → n < 10 ^ suc w
    → zeros (suc w - length (decimal k n)) ++ decimal k n ≡ fixed (suc w) n
unfolding zeros
padded-fixed w zero n l h = absurd (omega arith)
padded-fixed zero (suc k) n l h = rw (decimal_short k n (omega arith)) refl
padded-fixed (suc w) (suc k) n l h = elim (Bool-cases (ltb n 10)) [
  | inl e ↦
      rw (decimal_short k n (ground arith), one w)
        (ap (λ z. z ++ ((b'0' + n % 10) ∷ []))
          (zeros-fixed (suc w) ∙ ap (fixed (suc w)) (none_above e)))
  | inr e ↦
      rw
        (
          decimal_long k n (ground arith),
          length-append (decimal k (n / 10)) ((b'0' + n % 10) ∷ []),
          one_more,
        )
        (sym (
            append_assoc (zeros (suc w - length (decimal k (n / 10)))) (decimal k (n / 10))
              ((b'0' + n % 10) ∷ []))
          ∙ ap (λ z. z ++ ((b'0' + n % 10) ∷ []))
              (padded-fixed w k (n / 10) (omega arith) (ground arith)))
]
  where
    one : (w : ℕ) → suc (suc w) - 1 ≡ suc w
    one w = omega arith

    none_above : ltb n 10 ≡ true → 0 ≡ n / 10
    none_above e = ground arith

    one_more : suc (suc w) - (length (decimal k (n / 10)) + 1) ≡ suc w - length (decimal k (n / 10))
    one_more = omega arith

abbrev value : ℕ → Bytes → ℕ
value v [] = v
value v (c ∷ s) = value (v * 10 + (c - b'0')) s

abbrev AreDigits : Bytes → Type 0
AreDigits [] = 0 ≤ 1
AreDigits (c ∷ s) = (is_digit c ≡ true) × AreDigits s

-- Digits that another byte follows.
read_digits-append :
    (s : Bytes) (m v n c : ℕ) (t : Bytes)
    → AreDigits s
    → is_digit c ≡ false
    → read_digits (length s + m) v n (s ++ (c ∷ t))
      ≡ record { value = value v s; ndigits = n + length s; after = c ∷ t }
unfolding read_digits
read_digits-append [] m v n c t h e = stop m
  where
    stop :
        (m : ℕ)
        → read_digits (0 + m) v n (c ∷ t) ≡ record { value = v; ndigits = n + 0; after = c ∷ t }
    stop zero = ap (λ k. record { value = v; ndigits = k; after = c ∷ t }) (omega arith)
    stop (suc m) =
        rw (zero-add (suc m), e)
          (ap (λ k. record { value = v; ndigits = k; after = c ∷ t }) (omega arith))
read_digits-append (d ∷ s) m v n c t h e =
    rw (suc-add (length s) m, h.0)
      (read_digits-append s m (v * 10 + (d - b'0')) (suc n) c t h.1 e
        ∙ ap (λ k. record { value = value (v * 10 + (d - b'0')) s; ndigits = k; after = c ∷ t })
            (omega arith))

value-append : (v : ℕ) (s t : Bytes) → value v (s ++ t) ≡ value (value v s) t
value-append v [] t = refl
value-append v (c ∷ s) t = value-append (v * 10 + (c - b'0')) s t

value-fixed : (w n : ℕ) → n < 10 ^ w → value 0 (fixed w n) ≡ n
value-fixed zero n h = omega arith
value-fixed (suc w) n h =
    value-append 0 (fixed w (n / 10)) ((b'0' + n % 10) ∷ [])
    ∙ omega (arith, value-fixed w (n / 10) (ground arith))

append-AreDigits : (s t : Bytes) → AreDigits s → AreDigits t → AreDigits (s ++ t)
append-AreDigits [] t h k = k
append-AreDigits (c ∷ s) t h k = (h.0, append-AreDigits s t h.1 k)

pub is_digit_lem : (n : ℕ) → is_digit (b'0' + n % 10) ≡ true
unfolding is_digit
is_digit_lem n = ground arith

fixed-AreDigits : (w n : ℕ) → AreDigits (fixed w n)
fixed-AreDigits zero n = omega arith
fixed-AreDigits (suc w) n =
    append-AreDigits (fixed w (n / 10)) ((b'0' + n % 10) ∷ []) (fixed-AreDigits w (n / 10))
      (is_digit_lem n, omega arith)

-- A number of w digits is read back, where up to m more could be read.
pub read_int-fixed :
    (w m n c : ℕ) (t : Bytes)
    → n < 10 ^ suc w
    → is_digit c ≡ false
    → read_int (suc w + m) (fixed (suc w) n ++ (c ∷ t))
      ≡ some (record { value = n; ndigits = suc w; after = c ∷ t })
unfolding read_int
read_int-fixed w m n c t h e = rw (read, positive) refl
  where
    positive : (suc w == 0) ≡ false
    positive = ground arith

    read :
        read_digits (suc w + m) 0 0 (fixed (suc w) n ++ (c ∷ t))
        ≡ record { value = n; ndigits = suc w; after = c ∷ t }
    read =
        ap (λ k. read_digits (k + m) 0 0 (fixed (suc w) n ++ (c ∷ t)))
          (sym (length-fixed (suc w) n))
        ∙ read_digits-append (fixed (suc w) n) m 0 0 c t (fixed-AreDigits (suc w) n) e
        ∙ ap (λ v. record { value = v; ndigits = 0 + length (fixed (suc w) n); after = c ∷ t })
            (value-fixed (suc w) n h)
        ∙ ap (λ k. record { value = n; ndigits = k; after = c ∷ t })
            (omega (arith, length-fixed (suc w) n))
