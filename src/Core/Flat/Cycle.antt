-- ===== src/Core/Flat/Cycle.antt =====
-- The slots as a cycle: the step of a probe, and how far one slot lies behind another.
use stok.Base.{
  ℕ, suc, ◌+◌, ◌-◌, ◌%◌, ◌^◌, ◌<◌, ◌≡◌, ◌≢◌, ◌⊎◌, ◌∙◌, ap, arith, ltb, leb, ◌==◌, if◌then◌else◌,
}
use stok.Base.Bits.{bit_and-mask, pow_pos}
use native.Mathlib.Nat.{mod-lt}
use stok.Core.Flat.{index, next, movable}
use stok.Core.Hash.{mix64}

pub record IsRing (n mask : ℕ) : Type 0 where
  pub exponent : ℕ
  pub width : n ≡ 2 ^ exponent
  pub ones : mask ≡ n - 1

abbrev pub succ : ℕ → ℕ → ℕ
succ n i = if i + 1 == n then 0 else i + 1

abbrev pub dist : ℕ → ℕ → ℕ → ℕ
dist n a b = if leb a b then b - a else b + n - a

below : (n i : ℕ) → i < n → (i + 1) % n ≡ succ n i
below n i h = grind arith

pub next-succ : {n mask : ℕ} → IsRing n mask → (i : ℕ) → i < n → next i mask ≡ succ n i
unfolding next
next-succ {n} {mask} r i h =
    let mask_of : mask ≡ 2 ^ r.exponent - 1 = r.ones ∙ ap (λ (x : ℕ). x - 1) r.width in
    let h2 : i < 2 ^ r.exponent = omega (arith, r.width) in
    rw (mask_of, bit_and-mask (i + 1) r.exponent, r.width) (below (2 ^ r.exponent) i h2)

pub index-lt : {n mask : ℕ} → IsRing n mask → (key : ℕ) → index key mask < n
unfolding index
index-lt {n} {mask} r key =
    let mask_of : mask ≡ 2 ^ r.exponent - 1 = r.ones ∙ ap (λ (x : ℕ). x - 1) r.width in
    rw (mask_of, bit_and-mask (mix64 key) r.exponent, r.width)
      (mod-lt (mix64 key) (pow_pos r.exponent))

pub succ-lt : (n i : ℕ) → i < n → succ n i < n
succ-lt n i h = ground arith

pub dist-lt : (n a b : ℕ) → a < n → b < n → dist n a b < n
dist-lt n a b ha hb = ground arith

pub dist_self : (n a : ℕ) → dist n a a ≡ 0
dist_self n a = ground arith

pub dist-eq_zero : (n a b : ℕ) → a < n → b < n → dist n a b ≡ 0 → a ≡ b
dist-eq_zero n a b ha hb e = ground arith

pub dist-succ :
    (n a i : ℕ) → a < n → i < n → suc (dist n a i) < n → dist n a (succ n i) ≡ suc (dist n a i)
dist-succ n a i ha hi h = ground arith

pub dist_inj : (n a i j : ℕ) → a < n → i < n → j < n → dist n a i ≡ dist n a j → i ≡ j
dist_inj n a i j ha hi hj e = ground arith

-- A slot that is nearer than the successor of `i` is nearer than `i`, or `i` itself.
pub dist_cases :
    (n a i j : ℕ)
    → a < n
    → i < n
    → j < n
    → suc (dist n a i) < n
    → dist n a j < dist n a (succ n i)
    → (dist n a j < dist n a i) ⊎ (j ≡ i)
dist_cases n a i j ha hi hj h d = ground arith

-- On the way from `a` to `i` a slot behind a passed one is passed too.
pub dist_between :
    (n a b c i : ℕ)
    → a < n
    → b < n
    → c < n
    → i < n
    → dist n a b < dist n a i
    → dist n b c < dist n b i
    → dist n a c < dist n a i
dist_between n a b c i ha hb hc hi h k = ground arith

pub dist-succ_before : (n i e : ℕ) → i < n → e < n → i ≢ e → suc (dist n (succ n i) e) ≡ dist n i e
dist-succ_before n i e hi he ne = ground arith

-- The test of the backward shift: the hole lies on the way from `ideal` to `j`.
pub movable-dist :
    (n hole j ideal : ℕ)
    → hole < n
    → j < n
    → ideal < n
    → hole ≢ j
    → movable hole j ideal ≡ ltb (dist n ideal hole) (dist n ideal j)
unfolding movable
movable-dist n hole j ideal hh hj hi ne = ground arith
