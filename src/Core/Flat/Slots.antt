-- ===== src/Core/Flat/Slots.antt =====
-- The slots as a list: writes, the number of slots in use, and the map that they stand for.
use stok.Base.{
  ℕ, zero, suc, ◌+◌, ◌<◌, ◌≡◌, ◌≢◌, refl, ◌∙◌, true, false, ◌⊎◌, inl, inr, Option, none, some, List,
  [], ◌∷◌, arith, ◌==◌, if◌then◌else◌, set, get_or-set, length,
}
use native.Mathlib.Decide.{ℕ_discrete}
use stok.Core.Flat.{empty_key, Slot, slot_at, key_at, free}

-- The value that the slots hold for a key.
unfoldable pub view {ℓ} : {V : Type ℓ} → List (Slot V) → ℕ → Option V
view [] q = none
view (x ∷ xs) q = if x.key == q then some x.value else view xs q

abbrev pub used : ℕ → ℕ
used key = if key == empty_key then 0 else 1

-- How many slots are in use.
abbrev pub count {ℓ} : {V : Type ℓ} → List (Slot V) → ℕ
count [] = 0
count (x ∷ xs) = used x.key + count xs

module _ {ℓ} {V : Type ℓ} (blank : V) where
  pub slot_at-set :
      (s : List (Slot V)) (i j : ℕ) (x : Slot V)
      → i < length s
      → slot_at blank (set s i x) j ≡ (if i == j then x else slot_at blank s j)
  slot_at-set s i j x h = get_or-set s i j x (free blank) h

  pub slot_at-set_self :
      (s : List (Slot V)) (i : ℕ) (x : Slot V) → i < length s → slot_at blank (set s i x) i ≡ x
  slot_at-set_self s i x h =
      let same : (i == i) ≡ true = ground arith in slot_at-set s i i x h ∙ rw same refl

  pub slot_at-set_ne :
      (s : List (Slot V)) (i j : ℕ) (x : Slot V)
      → i < length s
      → i ≢ j
      → slot_at blank (set s i x) j ≡ slot_at blank s j
  slot_at-set_ne s i j x h ne =
      let other : (i == j) ≡ false = ground arith in slot_at-set s i j x h ∙ rw other refl

  pub count-set :
      (s : List (Slot V)) (i : ℕ) (x : Slot V)
      → i < length s
      → count (set s i x) + used (key_at blank s i) ≡ count s + used x.key
  count-set [] i x h = absurd (omega arith)
  count-set (y ∷ s) zero x h = omega arith
  count-set (y ∷ s) (suc i) x h = omega (arith, count-set s i x (omega arith))

  -- A list that is not full has a free slot.
  pub vacant_slot :
      (s : List (Slot V))
      → count s < length s
      → (e : ℕ) × (e < length s) × (key_at blank s e ≡ empty_key)
  vacant_slot [] h = absurd (omega arith)
  vacant_slot (x ∷ s) h = elim (ℕ_discrete x.key empty_key) [
    | yes e ↦ (0, omega arith, e)
    | no ne ↦ let rest = vacant_slot s (ground arith) in (suc rest.0, omega (arith, rest.1), rest.2)
  ]

  abbrev pub Absent : List (Slot V) → ℕ → Type 0
  Absent s q = (i : ℕ) → i < length s → key_at blank s i ≢ q

  abbrev pub Present : List (Slot V) → ℕ → Option V → Type ℓ
  Present s q r =
      (i : ℕ) × (i < length s) × (key_at blank s i ≡ q) × (r ≡ some (slot_at blank s i).value)

  Absent-cons : (x : Slot V) (s : List (Slot V)) (q : ℕ) → x.key ≢ q → Absent s q → Absent (x ∷ s) q
  Absent-cons x s q ne a zero h = ne
  Absent-cons x s q ne a (suc i) h = a i (omega arith)

  pub view-cases :
      (s : List (Slot V)) (q : ℕ) → ((view s q ≡ none) × Absent s q) ⊎ Present s q (view s q)
  unfolding view
  view-cases [] q = inl (refl, λ i h. absurd (omega arith))
  view-cases (x ∷ s) q = elim (ℕ_discrete x.key q) [
    | yes e ↦ inr (0, omega arith, e, ground arith)
    | no ne ↦ elim (view-cases s q) [
      | inl a ↦ inl (ground (arith, a.0), Absent-cons x s q ne a.1)
      | inr p ↦ inr (suc p.0, omega (arith, p.1), p.2, ground (arith, p.3))
    ]
  ]

  abbrev pub IsUnique : List (Slot V) → Type 0
  IsUnique s =
      (i j : ℕ)
      → i < length s
      → j < length s
      → key_at blank s i ≢ empty_key
      → key_at blank s i ≡ key_at blank s j
      → i ≡ j

  pub view-Absent : (s : List (Slot V)) (q : ℕ) → Absent s q → view s q ≡ none
  view-Absent s q a = elim (view-cases s q) [ inl p ↦ p.0 | inr p ↦ absurd (a p.0 p.1 p.2) ]

  pub view-Present :
      (s : List (Slot V)) (q i : ℕ)
      → IsUnique s
      → q ≢ empty_key
      → i < length s
      → key_at blank s i ≡ q
      → view s q ≡ some (slot_at blank s i).value
  view-Present s q i u ne h e = elim (view-cases s q) [
    | inl p ↦ absurd (p.1 i h e)
    | inr p ↦
        let same : p.0 ≡ i = u p.0 i p.1 h (rw p.2 ne) (rw (p.2, e) refl) in rw (p.3, same) refl
  ]
