-- ===== src/Engine/Watches/Vectors.antt =====
-- How often a slot stands in a vector, under the writes at the back that the pool makes.
use stok.Base.{
  ℕ, zero, suc, ◌+◌, ◌-◌, ◌<◌, ◌≡◌, refl, sym, List, [], ◌∷◌, ◌++◌, arith, ltb, ◌==◌, if◌then◌else◌,
  length, set, get_or, length-set,
}
use stok.Engine.Watches.{back, pop_back, all_slots}
use native.Mathlib.Decide.{ℕ_discrete}

abbrev pub one_if : ℕ → ℕ → ℕ
one_if a b = if a == b then 1 else 0

abbrev pub count : ℕ → List ℕ → ℕ
count i [] = 0
count i (x ∷ xs) = one_if i x + count i xs

pub count-append : (i : ℕ) (xs ys : List ℕ) → count i (xs ++ ys) ≡ count i xs + count i ys
count-append i [] ys = omega arith
count-append i (x ∷ xs) ys = omega (arith, count-append i xs ys)

pub count-pop_back :
    (i : ℕ) (xs : List ℕ) → 0 < length xs → count i (pop_back xs) + one_if i (back xs) ≡ count i xs
count-pop_back i [] h = absurd (omega arith)
count-pop_back i (x ∷ []) h = omega arith
count-pop_back i (x ∷ y ∷ xs) h = omega (arith, count-pop_back i (y ∷ xs) (omega arith))

pub length-pop_back : (xs : List ℕ) → length (pop_back xs) ≡ length xs - 1
length-pop_back [] = refl
length-pop_back (x ∷ []) = omega arith
length-pop_back (x ∷ y ∷ xs) = omega (arith, length-pop_back (y ∷ xs))

pub count-set :
    (i : ℕ) (xs : List ℕ) (k v : ℕ)
    → k < length xs
    → count i (set xs k v) + one_if i (get_or xs k 0) ≡ count i xs + one_if i v
count-set i [] k v h = absurd (omega arith)
count-set i (x ∷ xs) zero v h = omega arith
count-set i (x ∷ xs) (suc k) v h = omega (arith, count-set i xs k v (omega arith))

-- The back is not changed by a write of the back's own value.
pub back-set : (xs : List ℕ) (k : ℕ) → back (set xs k (back xs)) ≡ back xs
back-set [] k = refl
back-set (x ∷ []) zero = refl
back-set (x ∷ []) (suc k) = refl
back-set (x ∷ y ∷ xs) zero = refl
back-set (x ∷ y ∷ xs) (suc zero) = back-set (y ∷ xs) zero
back-set (x ∷ y ∷ xs) (suc (suc k)) = back-set (y ∷ xs) (suc k)

-- The swap-remove of `deactivate_watch`.
pub count-swap_remove :
    (i : ℕ) (xs : List ℕ) (k : ℕ)
    → k < length xs
    → count i (pop_back (set xs k (back xs))) + one_if i (get_or xs k 0) ≡ count i xs
count-swap_remove i xs k h =
    let popped = count-pop_back i (set xs k (back xs)) (omega (arith, length-set xs k (back xs))) in
    let same : one_if i (back (set xs k (back xs))) ≡ one_if i (back xs) =
      rw (back-set xs k) refl in
    omega (arith, count-set i xs k (back xs) h)

pub count-get_or : (xs : List ℕ) (k : ℕ) → k < length xs → 0 < count (get_or xs k 0) xs
count-get_or [] k h = absurd (omega arith)
count-get_or (x ∷ xs) zero h = ground arith
count-get_or (x ∷ xs) (suc k) h = omega (arith, count-get_or xs k (omega arith))

-- A slot that a vector holds stands at some position.
pub position :
    (i : ℕ) (xs : List ℕ) → 0 < count i xs → (k : ℕ) × (k < length xs) × (get_or xs k 0 ≡ i)
position i [] h = absurd (omega arith)
position i (x ∷ xs) h = elim (ℕ_discrete i x) [
  | yes e ↦ (0, omega arith, sym e)
  | no ne ↦ let (k, k_lt, at) = position i xs (ground arith) in (suc k, omega arith, at)
]

pub count-all_slots : (i n : ℕ) → count i (all_slots n) ≡ (if ltb i n then 1 else 0)
count-all_slots i zero = ground arith
count-all_slots i (suc n) = ground (arith, count-all_slots i n)

pub length-all_slots : (n : ℕ) → length (all_slots n) ≡ n
length-all_slots zero = refl
length-all_slots (suc n) = omega (arith, length-all_slots n)
