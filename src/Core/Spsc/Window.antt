-- ===== src/Core/Spsc/Window.antt =====
-- The elements between two indices of a ring of slots.
use native.Mathlib.Nat.{mod-add-mod, mod-eq_of_lt, mod-eq-sub-mod, mod-lt, add-zero}
use native.Mathlib.Decide.{dec_lt}
use stok.Base.{
  ℕ, zero, suc, ◌+◌, ◌-◌, ◌%◌, ◌<◌, ◌≡◌, ◌≢◌, refl, sym, ap, ◌∙◌, List, [], ◌∷◌, ◌++◌, arith,
  length, get_or, set,
}

module _ {ℓ} {A : Type ℓ} (d : A) where
  -- What `n` consecutive slots hold, the first of them `h`, modulo the capacity.
  abbrev pub stored : List A → ℕ → ℕ → ℕ → List A
  stored slots cap h zero = []
  stored slots cap h (suc n) = get_or slots h d ∷ stored slots cap ((h + 1) % cap) n

  pub length-stored : (slots : List A) (cap h n : ℕ) → length (stored slots cap h n) ≡ n
  length-stored slots cap h zero = refl
  length-stored slots cap h (suc n) = ap suc (length-stored slots cap ((h + 1) % cap) n)

  next_start : (cap h n : ℕ) → (h + suc n) % cap ≡ ((h + 1) % cap + n) % cap
  next_start cap h n = rw mod-add-mod (ap (λ k. k % cap) (omega arith))

  -- A window one longer ends with the slot after it.
  pub stored_snoc :
      (slots : List A) (cap h n : ℕ)
      → h < cap
      → stored slots cap h (suc n) ≡ stored slots cap h n ++ (get_or slots ((h + n) % cap) d ∷ [])
  stored_snoc slots cap h zero lt = rw (add-zero, mod-eq_of_lt lt)
  stored_snoc slots cap h (suc n) lt =
      ap (λ r. get_or slots h d ∷ r)
        (stored_snoc slots cap ((h + 1) % cap) n (mod-lt (h + 1) (omega arith))
          ∙ ap (λ k. stored slots cap ((h + 1) % cap) n ++ (get_or slots k d ∷ []))
              (sym (next_start cap h n)))

  pub get_or-set_self : (xs : List A) (i : ℕ) (v : A) → i < length xs → get_or (set xs i v) i d ≡ v
  get_or-set_self [] i v h = absurd (omega arith)
  get_or-set_self (x ∷ xs) zero v h = refl
  get_or-set_self (x ∷ xs) (suc i) v h = get_or-set_self xs i v (omega arith)

  pub get_or-set_ne :
      (xs : List A) (i j : ℕ) (v : A) → i ≢ j → get_or (set xs i v) j d ≡ get_or xs j d
  get_or-set_ne [] i j v h = refl
  get_or-set_ne (x ∷ xs) zero zero v h = absurd (h refl)
  get_or-set_ne (x ∷ xs) zero (suc j) v h = refl
  get_or-set_ne (x ∷ xs) (suc i) zero v h = refl
  get_or-set_ne (x ∷ xs) (suc i) (suc j) v h = get_or-set_ne xs i j v (λ e. h (ap suc e))

-- The slot that lies `n` places on, for 0 < n < cap, is another one.
pub slot_ne : (cap n h : ℕ) → 0 < n → n < cap → h < cap → (h + n) % cap ≢ h
slot_ne cap n h pos lt hh e = elim (dec_lt (h + n) cap) [
  | yes below ↦ omega (arith, mod-eq_of_lt below)
  | no wraps ↦
      let back : (h + n) % cap ≡ (h + n - cap) % cap = mod-eq-sub-mod (omega arith) in
      let low : (h + n - cap) % cap ≡ h + n - cap = mod-eq_of_lt (omega arith) in omega arith
]

-- A write to the slot after a window that does not fill the ring leaves the window.
pub stored-set {ℓ} :
    {A : Type ℓ} (d : A) (slots : List A) (cap h n i : ℕ) (v : A)
    → h < cap
    → n < cap
    → i ≡ (h + n) % cap
    → stored d (set slots i v) cap h n ≡ stored d slots cap h n
stored-set d slots cap h zero i v hh hn e = refl
stored-set d slots cap h (suc n) i v hh hn e = rw (
  get_or-set_ne d slots i h v (rw e (slot_ne cap (suc n) h (omega arith) hn hh)),
  stored-set d slots cap ((h + 1) % cap) n i v (mod-lt (h + 1) (omega arith)) (omega arith)
      (e ∙ next_start d cap h n),
)
