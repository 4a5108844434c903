-- ===== src/Core/Histogram/Precision.antt =====
-- The buckets of `LatencyHistogram` and their bounds (src/core/histogram.hpp).
use stok.Base.{
  ℕ, zero, suc, ◌+◌, ◌-◌, ◌*◌, ◌/◌, ◌%◌, ◌^◌, ◌≤◌, ◌<◌, ◌≡◌, refl, ap, ltb, arith, branch,
}
use native.Mathlib.Nat.{
  le-div_iff_mul-le, div-lt_iff_lt-mul, div-add-mod', mod-lt, pow-suc, mul-le-mul_right,
  pow-le-pow_right,
}
use mathlib.Core.Path.{subst}
use stok.Core.Histogram.{msb, index, upper_bound, n_buckets}

-- The highest bit of a word.
pub record IsHighBit (v m : ℕ) : Type 0 where
  pub from_below : 2 ^ m ≤ v
  pub to_above : v < 2 * 2 ^ m

pub msb-IsHighBit : (k v : ℕ) → 1 ≤ v → v < 2 * 2 ^ k → IsHighBit v (msb k v)
unfolding msb
msb-IsHighBit zero v h l = record { from_below = ground arith; to_above = ground arith }
msb-IsHighBit (suc k) v h l =
    branch (IsHighBit v) (ltb v 2)
      (λ e. record { from_below = ground arith; to_above = ground arith })
      (λ e.
        let b = msb-IsHighBit k (v / 2) (ground arith) (omega (arith, l, pow-suc 2 k)) in
        record {
          from_below = omega (arith, b.from_below, pow-suc 2 (msb k (v / 2)));
          to_above = omega (arith, b.to_above, pow-suc 2 (msb k (v / 2)));
        })

pow_four : (s : ℕ) → 2 ^ suc (suc (suc (suc s))) ≡ 16 * 2 ^ s
pow_four s =
    omega (
      arith,
      pow-suc 2 s,
      pow-suc 2 (suc s),
      pow-suc 2 (suc (suc s)),
      pow-suc 2 (suc (suc (suc s))),
    )

-- A value of more than four bits.
above_four :
    (v m : ℕ) → 16 ≤ v → IsHighBit v m → (s : ℕ) × (m ≡ s + 4) × (16 * 2 ^ s ≤ v) × (v < 32 * 2 ^ s)
above_four v zero h b = absurd (omega (arith, b.to_above))
above_four v (suc zero) h b = absurd (omega (arith, b.to_above))
above_four v (suc (suc zero)) h b = absurd (omega (arith, b.to_above))
above_four v (suc (suc (suc zero))) h b = absurd (omega (arith, b.to_above))
above_four v (suc (suc (suc (suc s)))) h b =
    (s, omega arith, omega (arith, b.from_below, pow_four s), omega (arith, b.to_above, pow_four s))

-- What the class promises: a bucket holds values up to a bound that is a sixteenth above each at most.
pub record IsBoundOf (v u : ℕ) : Type 0 where
  pub reaches : v ≤ u
  pub near : 16 * (u - v) ≤ v

abbrev bucket : ℕ → ℕ → ℕ
bucket s q = (s + 1) * 16 + q % 16

upper_bound_lem :
    (s q : ℕ) → 16 ≤ q → q < 32 → upper_bound (bucket s q) ≡ (q * 2 ^ s + (2 ^ s - 1)) % 2 ^ 64
unfolding upper_bound
upper_bound_lem s q h l =
    branch (λ u. u ≡ (q * 2 ^ s + (2 ^ s - 1)) % 2 ^ 64) (ltb (bucket s q) 16) (λ e. ground arith)
      (λ _. ap (λ (k : ℕ). k % 2 ^ 64) (rw (shift, digits) refl))
  where
    shift : bucket s q / 16 - 1 ≡ s
    shift = omega arith

    digits : 16 + bucket s q % 16 ≡ q
    digits = omega arith

-- The bucket of a value is one of the array.
bucket_lt : (s q : ℕ) → s ≤ 59 → bucket s q < n_buckets
bucket_lt s q h = omega arith

-- A value that is shifted right by `s`.
shifted-IsBoundOf :
    (v s : ℕ)
    → s ≤ 59
    → 16 * 2 ^ s ≤ v
    → v < 32 * 2 ^ s
    → IsBoundOf v (upper_bound (bucket s (v / 2 ^ s)))
shifted-IsBoundOf v s w h l =
    let p : 0 < 2 ^ s = omega arith in
    let low : 16 ≤ v / 2 ^ s = (le-div_iff_mul-le p).1 h in
    let high : v / 2 ^ s < 32 = (div-lt_iff_lt-mul p).1 l in
    let next : v / 2 ^ s + 1 ≤ 32 = omega (arith, high) in
    let fits : (v / 2 ^ s * 2 ^ s + (2 ^ s - 1)) % 2 ^ 64 ≡ v / 2 ^ s * 2 ^ s + (2 ^ s - 1) =
      omega (arith, p, mul-le-mul_right (2 ^ s) next, room) in
    rw (upper_bound_lem s (v / 2 ^ s) low high, fits)
      record {
        reaches = omega (arith, div-add-mod' v (2 ^ s), mod-lt v p);
        near = omega (arith, div-add-mod' v (2 ^ s), mod-lt v p);
      }
  where
    room : 2 ^ s ≤ 2 ^ 59
    room = pow-le-pow_right (omega arith) w

msb_bound : (k v : ℕ) → msb k v ≤ k
unfolding msb
msb_bound zero v = omega arith
msb_bound (suc k) v = ground (arith, msb_bound k (v / 2))

-- Every 64-bit value has a bucket of the array, and the bound of its bucket is no less than the value and exceeds
-- it by a sixteenth of the value at most.
pub upper_bound-index :
    (v : ℕ) → v < 2 ^ 64 → (index v < n_buckets) × IsBoundOf v (upper_bound (index v))
unfolding index upper_bound
upper_bound-index v h =
    branch (λ i. (i < n_buckets) × IsBoundOf v (upper_bound i)) (ltb v 16)
      (λ e. (ground arith, small (ground arith)))
      (λ e. large (above_four v (msb 63 v) (ground arith) (msb-IsHighBit 63 v (ground arith) h)))
  where
    small : v < 16 → IsBoundOf v (upper_bound v)
    small l =
        branch (IsBoundOf v) (ltb v 16) (λ _. record { reaches = omega arith; near = omega arith })
          (λ e. ground arith)

    large :
        (s : ℕ) × (msb 63 v ≡ s + 4) × (16 * 2 ^ s ≤ v) × (v < 32 * 2 ^ s)
        → (bucket (msb 63 v - 4) (v / 2 ^ (msb 63 v - 4)) < n_buckets)
          × IsBoundOf v (upper_bound (bucket (msb 63 v - 4) (v / 2 ^ (msb 63 v - 4))))
    large (s, e, l, u) =
        let same : s ≡ msb 63 v - 4 = omega arith in
        subst
          (λ k.
            (bucket k (v / 2 ^ k) < n_buckets) × IsBoundOf v (upper_bound (bucket k (v / 2 ^ k))))
          same
          (
            bucket_lt s (v / 2 ^ s) (omega (arith, msb_bound 63 v)),
            shifted-IsBoundOf v s (omega (arith, msb_bound 63 v)) l u,
          )
