-- ===== src/Core/Mpsc/Window.antt =====
-- Positions of a ring as cells, and the lists of what was claimed and taken.
use native.Mathlib.Nat.{mod-add-mod, mod-lt, mod-eq-sub-mod}
use native.Mathlib.Decide.{dec_lt}
use stok.Base.{
  ℕ, zero, suc, ◌+◌, ◌-◌, ◌%◌, ◌^◌, ◌<◌, ◌≤◌, ◌≡◌, ◌≢◌, refl, sym, ◌∙◌, ap, true, false, Option,
  some, List, [], ◌∷◌, ◌++◌, arith, ◌==◌, length, take, get_elem?,
}
use stok.Core.Spsc.Window.{slot_ne}
use stok.Core.Mpsc.{write}

pub get_elem?-append :
    (i : ℕ) (xs ys : List ℕ) (a : ℕ) → get_elem? xs i ≡ some a → get_elem? (xs ++ ys) i ≡ some a
get_elem?-append i [] ys a e = absurd (cc)
get_elem?-append zero (x ∷ xs) ys a e = e
get_elem?-append (suc i) (x ∷ xs) ys a e = get_elem?-append i xs ys a e

pub get_elem?-last : (xs : List ℕ) (a : ℕ) → get_elem? (xs ++ (a ∷ [])) (length xs) ≡ some a
get_elem?-last [] a = refl
get_elem?-last (x ∷ xs) a = get_elem?-last xs a

pub take_next :
    (n : ℕ) (xs : List ℕ) (a : ℕ)
    → get_elem? xs n ≡ some a
    → take n xs ++ (a ∷ []) ≡ take (n + 1) xs
take_next n [] a e = absurd (cc)
take_next zero (x ∷ xs) a e = ap (λ (y : ℕ). y ∷ []) (sym (some_inj e))
  where
    some_inj : {a b : ℕ} → ◌≡◌ {A = Option ℕ} (some a) (some b) → a ≡ b
    some_inj e = cc
take_next (suc n) (x ∷ xs) a e =
    let longer : suc (n + 1) ≡ suc n + 1 = omega arith in
    ap (λ (l : List ℕ). x ∷ l) (take_next n xs a e) ∙ ap (λ (m : ℕ). take m (x ∷ xs)) longer

-- Two positions less than a capacity apart have different cells.
apart : (cap p n : ℕ) → 0 < n → n < cap → (p + n) % cap ≢ p % cap
apart cap p n pos lt e = slot_ne cap n (p % cap) pos lt (mod-lt p (omega arith)) (mod-add-mod' ∙ e)
  where
    mod-add-mod' : (p % cap + n) % cap ≡ (p + n) % cap
    mod-add-mod' = rw mod-add-mod refl

pub write_eq : (f : ℕ → ℕ) (i x j : ℕ) → j ≡ i → write f i x j ≡ x
write_eq f i x j e = let same : (j == i) ≡ true = ground arith in rw same refl

pub write_ne : (f : ℕ → ℕ) (i x j : ℕ) → j ≢ i → write f i x j ≡ f j
write_ne f i x j ne = let other : (j == i) ≡ false = ground arith in rw other refl

module _ (k : ℕ) where
  differ : (p q : ℕ) → p < q → q < p + 2 ^ k → q % 2 ^ k ≢ p % 2 ^ k
  differ p q lo hi e =
      let split : q ≡ p + (q - p) = omega arith in
      apart (2 ^ k) p (q - p) (omega arith) (omega arith)
        (ap (λ (x : ℕ). x % 2 ^ k) (sym split) ∙ e)

  pub mod_cap : (d : ℕ) → (d + 2 ^ k) % 2 ^ k ≡ d % 2 ^ k
  mod_cap d =
      mod-eq-sub-mod (omega arith)
      ∙ ap (λ (x : ℕ). x % 2 ^ k) (let back : d + 2 ^ k - 2 ^ k ≡ d = omega arith in back)

  -- Two positions of one window have different cells.
  pub distinct_cells :
      (d p q : ℕ) → d ≤ p → p < d + 2 ^ k → d ≤ q → q < d + 2 ^ k → p ≢ q → p % 2 ^ k ≢ q % 2 ^ k
  distinct_cells d p q plo phi qlo qhi ne e = elim (dec_lt p q) [
    | yes lt ↦ differ p q lt (omega arith) (sym e)
    | no ge ↦ differ q p (omega arith) (omega arith) e
  ]
