-- ===== src/Base/Bits.antt =====
-- Masks: `x & (2^k - 1)` is the remainder, and remainders by powers of two nest.
use Prim.Native.Nat.{bit_and, digits, bit_and-bitwise}
use native.Mathlib.Nat.{pow-suc, mod-mod_of_dvd, dvd_refl, dvd-mul_right_of_dvd}
use stok.Base.{ℕ, zero, suc, ◌+◌, ◌-◌, ◌*◌, ◌/◌, ◌%◌, ◌^◌, ◌≤◌, ◌<◌, min, ◌≡◌, ap, ◌∙◌, arith}

pub pow_pos : (k : ℕ) → 0 < 2 ^ k
pow_pos zero = omega arith
pow_pos (suc k) = omega (arith, pow-suc 2 k, pow_pos k)

zero_mod_pow : (k : ℕ) → 0 ≡ 0 % 2 ^ k
zero_mod_pow k = grind (arith, pow_pos k)

-- The lowest digit of a remainder by an even number, and the digits above it.
remainder_by_double : (m x : ℕ) → 0 < m → x % (m * 2) ≡ x / 2 % m * 2 + x % 2
remainder_by_double m x pos = grind arith

mask_odd : (m : ℕ) → 0 < m → ((m * 2 - 1) / 2 ≡ m - 1) × ((m * 2 - 1) % 2 ≡ 1)
mask_odd m pos = (omega arith, omega arith)

-- The digits of `x` under a mask of `k` ones, for as many rounds as `x` may need.
masked_digits :
    (rounds x k : ℕ) → x ≤ rounds → digits (λ b. zero) min rounds x (2 ^ k - 1) ≡ x % 2 ^ k
masked_digits zero zero k few = zero_mod_pow k
masked_digits zero (suc a) k few = absurd (omega arith)
masked_digits (suc r) zero k few = zero_mod_pow k
masked_digits (suc r) (suc a) zero few =
    let above = masked_digits r (suc a / 2) 0 (omega arith) in omega (arith, above)
masked_digits (suc r) (suc a) (suc k) few =
    let above = masked_digits r (suc a / 2) k (omega arith) in
    let (shifted, lowest) = mask_odd (2 ^ k) (pow_pos k) in
    rw (pow-suc 2 k, shifted, lowest, above, remainder_by_double (2 ^ k) (suc a) (pow_pos k))
      (omega arith)

-- A mask of k ones takes the remainder by 2^k.
pub bit_and-mask : (x k : ℕ) → bit_and x (2 ^ k - 1) ≡ x % 2 ^ k
bit_and-mask x k = rw (bit_and-bitwise x (2 ^ k - 1)) (masked_digits x x k (omega arith))

power-add : (d k : ℕ) → 2 ^ (d + k) ≡ 2 ^ k * 2 ^ d
power-add zero k = grind arith
power-add (suc d) k = grind (arith, power-add d k, pow-suc 2 (d + k), pow-suc 2 d)

-- A remainder by 2^w keeps the remainder by a smaller power.
pub mod-mod_pow : (x k w : ℕ) → k ≤ w → x % 2 ^ w % 2 ^ k ≡ x % 2 ^ k
mod-mod_pow x k w h =
    let split : w ≡ w - k + k = omega arith in
    let factors : 2 ^ w ≡ 2 ^ k * 2 ^ (w - k) = ap (λ (n : ℕ). 2 ^ n) split ∙ power-add (w - k) k in
    rw factors
      (mod-mod_of_dvd (2 ^ k) x (dvd-mul_right_of_dvd (2 ^ k) (dvd_refl (2 ^ k)) (2 ^ (w - k))))
