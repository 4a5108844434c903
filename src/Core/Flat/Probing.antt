-- ===== src/Core/Flat/Probing.antt =====
-- The loops that look for a key: they end, at the key's slot or at the first free one.
use stok.Base.{ℕ, zero, suc, ◌+◌, ◌<◌, ◌≡◌, ◌≢◌, inl, inr, refl, some, List, arith, length}
use mathlib.Core.Option
use native.Mathlib.Decide.{ℕ_discrete, dec_lt}
use stok.Core.Flat.{
  empty_key, Slot, Probe, hit, vacant, index, next, probe, locate, vacancy, key_at,
}
use stok.Core.Flat.Cycle.{
  IsRing, succ, dist, next-succ, index-lt, succ-lt, dist-lt, dist-succ, dist_cases, dist_inj,
  dist_self,
}
use stok.Core.Flat.Slots.{Absent, count, vacant_slot}

module _ {ℓ} {V : Type ℓ} (blank : V) where
  -- Every slot from `h` up to `i`, without `i`, is in use by another key.
  abbrev pub Passed : List (Slot V) → ℕ → ℕ → ℕ → Type 0
  Passed s h key i =
      (j : ℕ)
      → j < length s
      → dist (length s) h j < dist (length s) h i
      → (key_at blank s j ≢ empty_key) × (key_at blank s j ≢ key)

  abbrev pub Ended : List (Slot V) → ℕ → ℕ → Probe → Type 0
  Ended s h key (hit i) = (i < length s) × (key_at blank s i ≡ key)
  Ended s h key (vacant i) = (i < length s) × (key_at blank s i ≡ empty_key) × Passed s h key i

  module _ (s : List (Slot V)) (mask h key : ℕ) (ring : IsRing (length s) mask)
      (h_lt : h < length s) where
    -- One more slot is passed.
    Passed-succ :
        (i : ℕ)
        → i < length s
        → suc (dist (length s) h i) < length s
        → key_at blank s i ≢ empty_key
        → key_at blank s i ≢ key
        → Passed s h key i
        → Passed s h key (succ (length s) i)
    Passed-succ i i_lt more ne other p j j_lt nearer =
        elim (dist_cases (length s) h i j h_lt i_lt j_lt more nearer) [
          | inl q ↦ p j j_lt q
          | inr same ↦ (rw same ne, rw same other)
        ]

    -- A free slot `e` ahead bounds the rounds.
    module _ (e : ℕ) (e_lt : e < length s) (free : key_at blank s e ≡ empty_key) where
      nearer :
          (i : ℕ)
          → i < length s
          → Passed s h key i
          → key_at blank s i ≢ empty_key
          → dist (length s) h i < dist (length s) h e
      nearer i i_lt p ne = elim (dec_lt (dist (length s) h e) (dist (length s) h i)) [
        | yes q ↦ absurd ((p e e_lt q).0 free)
        | no q ↦ elim (ℕ_discrete (dist (length s) h e) (dist (length s) h i)) [
          | yes d ↦
              let same = dist_inj (length s) h e i h_lt e_lt i_lt d in absurd (ne (rw same at free))
          | no d ↦ omega arith
        ]
      ]

      pub probe_lem :
          (fuel i : ℕ)
          → i < length s
          → Passed s h key i
          → dist (length s) h e < fuel + dist (length s) h i
          → (p : Probe) × (probe blank fuel s mask key i ≡ some p) × Ended s h key p
      unfolding probe
      probe_lem zero i i_lt p enough = absurd ((p e e_lt (omega arith)).0 free)
      probe_lem (suc fuel) i i_lt p enough = elim (ℕ_discrete (key_at blank s i) key) [
        | yes k ↦ (hit i, ground arith, (i_lt, k))
        | no k ↦ elim (ℕ_discrete (key_at blank s i) empty_key) [
          | yes z ↦ (vacant i, ground arith, (i_lt, z, p))
          | no z ↦
              let closer = nearer i i_lt p z in
              let more : suc (dist (length s) h i) < length s =
                omega (arith, dist-lt (length s) h e h_lt e_lt) in
              let rest =
                probe_lem fuel (succ (length s) i) (succ-lt (length s) i i_lt)
                  (Passed-succ i i_lt more z k p)
                  (omega (arith, dist-succ (length s) h i h_lt i_lt more)) in
              (rest.0, rw (next-succ ring i i_lt) (ground (arith, rest.1)), rest.2)
        ]
      ]

  -- With a free slot, the rounds of a whole cycle are enough from a key's own slot.
  pub probe-Ended :
      (s : List (Slot V)) (mask key : ℕ)
      → IsRing (length s) mask
      → count s < length s
      → let h = index key mask in
        (p : Probe) × (probe blank (length s) s mask key h ≡ some p) × Ended s h key p
  probe-Ended s mask key ring room =
      let h = index key mask in
      let h_lt = index-lt ring key in
      let (e, e_lt, free) = vacant_slot blank s room in
      probe_lem s mask h key ring h_lt e e_lt free (length s) h h_lt
        (λ j j_lt d. absurd (omega (arith, dist_self (length s) h)))
        (omega (arith, dist_self (length s) h, dist-lt (length s) h e h_lt e_lt))

  -- `erase` looks for a key other than the marker as `find` does.
  pub locate-probe :
      (fuel : ℕ) (s : List (Slot V)) (mask key i : ℕ)
      → key ≢ empty_key
      → locate blank fuel s mask key i ≡ probe blank fuel s mask key i
  unfolding locate probe
  locate-probe zero s mask key i ne = refl
  locate-probe (suc fuel) s mask key i ne =
      ground (arith, locate-probe fuel s mask key (next i mask) ne)

  -- A search for a free slot ends where a probe for an absent key does.
  pub vacancy-probe :
      (fuel : ℕ) (s : List (Slot V)) (mask key i : ℕ)
      → IsRing (length s) mask
      → i < length s
      → Absent blank s key
      → Option.map vacant (vacancy blank fuel s mask i) ≡ probe blank fuel s mask key i
  unfolding vacancy probe
  vacancy-probe zero s mask key i ring i_lt a = refl
  vacancy-probe (suc fuel) s mask key i ring i_lt a =
      let away = a i i_lt in
      let rest =
        vacancy-probe fuel s mask key (succ (length s) i) ring (succ-lt (length s) i i_lt) a in
      rw (next-succ ring i i_lt) (ground (arith, rest))
