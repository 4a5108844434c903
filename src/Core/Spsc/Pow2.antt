-- ===== src/Core/Spsc/Pow2.antt =====
-- `next_pow2` ends with the least power of two that is no less than its argument.
use native.Mathlib.Nat.{pow-suc}
use native.Mathlib.Decide.{dec_lt}
use stok.Base.{
  ℕ, zero, suc, ◌+◌, ◌*◌, ◌%◌, ◌^◌, ◌≤◌, ◌<◌, ◌≡◌, refl, ap, Option, some, arith, ltb, Bool-cases,
  inl, inr, ltb→lt,
}
use stok.Core.Spsc.{next_pow2_loop, next_pow2}

-- What the loop promises of its answer.
pub record IsPow2Above (v : ℕ) (r : Option ℕ) : Type 0 where
  pub exponent : ℕ
  pub bounded : exponent ≤ 63
  pub returns : r ≡ some (2 ^ exponent)
  pub above : v ≤ 2 ^ exponent
  pub least : 2 ^ exponent < 2 * v

-- Below 2^63 the shift stays within the word.
next_exponent :
    (k v : ℕ) → k ≤ 63 → 2 ^ k < v → v ≤ 2 ^ 63 → (suc k ≤ 63) × (2 ^ k * 2 % 2 ^ 64 ≡ 2 ^ suc k)
next_exponent k v h lt b = elim (dec_lt k 63) [
  | yes p ↦ (p, omega (arith, pow-suc 2 k))
  | no p ↦ let e : k ≡ 63 = omega arith in absurd (omega (arith, ap (λ (n : ℕ). 2 ^ n) e))
]

loop_lem :
    (fuel k v : ℕ)
    → k + fuel ≡ 64
    → k ≤ 63
    → v ≤ 2 ^ 63
    → 2 ^ k < 2 * v
    → IsPow2Above v (next_pow2_loop fuel (2 ^ k) v)
unfolding next_pow2_loop
loop_lem zero k v e h b l = absurd (omega arith)
loop_lem (suc fuel) k v e h b l = elim (Bool-cases (ltb (2 ^ k) v)) [
  | inr t ↦
      rw t record { exponent = k; bounded = h; returns = refl; above = ground arith; least = l }
  | inl t ↦
      let room = next_exponent k v h (ltb→lt _ _ t) b in
      rw (t, room.1)
        (loop_lem fuel (suc k) v (omega arith) room.0 b (omega (arith, pow-suc 2 k, ltb→lt _ _ t)))
]

-- For 1 ≤ v ≤ 2^63 the 64 rounds suffice, and the result is the power of two in [v, 2v).
pub next_pow2-IsPow2Above : (v : ℕ) → 1 ≤ v → v ≤ 2 ^ 63 → IsPow2Above v (next_pow2 v)
unfolding next_pow2
next_pow2-IsPow2Above v lo hi = loop_lem 64 0 v refl (omega arith) hi (omega arith)
