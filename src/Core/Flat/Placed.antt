-- ===== src/Core/Flat/Placed.antt =====
-- Slots in order for a probe: each key stands behind its own slot with no free slot between. What a
-- new key, and a new value of a key, do to such slots and to the map that they stand for.
use stok.Base.{
  ℕ, ◌<◌, ◌≡◌, ◌≢◌, ◌⊎◌, inl, inr, sym, ◌∙◌, ap, some, List, arith, ◌==◌, if◌then◌else◌, length,
  set, length-set,
}
use native.Mathlib.Decide.{ℕ_discrete, dec_lt}
use stok.Core.Flat.{empty_key, Slot, vacant, index, key_at, slot_at}
use stok.Core.Flat.Cycle.{IsRing, dist, index-lt, dist_inj}
use stok.Core.Flat.Slots.{
  Absent, IsUnique, view, slot_at-set, view-cases, view-Absent, view-Present,
}
use stok.Core.Flat.Probing.{Ended}

module _ {ℓ} {V : Type ℓ} (blank : V) where
  pub record IsPlaced (s : List (Slot V)) (mask : ℕ) : Type 0 where
    pub ring : IsRing (length s) mask
    pub unique : IsUnique blank s
    pub reach :
        (i j : ℕ)
        → i < length s
        → j < length s
        → key_at blank s i ≢ empty_key
        → (let h = index (key_at blank s i) mask in dist (length s) h j < dist (length s) h i)
        → key_at blank s j ≢ empty_key

  pub key_at-set :
      (s : List (Slot V)) (i j : ℕ) (x : Slot V)
      → i < length s
      → key_at blank (set s i x) j ≡ (if i == j then x.key else key_at blank s j)
  key_at-set s i j x h = ground (arith, slot_at-set blank s i j x h)

  -- A probe that ends at a free slot has looked at every place where the key could be.
  pub vacant-Absent :
      (s : List (Slot V)) (mask key p : ℕ)
      → IsPlaced s mask
      → key ≢ empty_key
      → Ended blank s (index key mask) key (vacant p)
      → Absent blank s key
  vacant-Absent s mask key p placed ne (p_lt, free, passed) j j_lt e =
      let h = index key mask in
      let h_lt = index-lt placed.ring key in
      elim (dec_lt (dist (length s) h j) (dist (length s) h p)) [
        | yes q ↦ (passed j j_lt q).1 e
        | no q ↦ elim (ℕ_discrete (dist (length s) h j) (dist (length s) h p)) [
          | yes d ↦
              let same = dist_inj (length s) h j p h_lt j_lt p_lt d in
              ne (sym e ∙ ap (key_at blank s) same ∙ free)
          | no d ↦ placed.reach j p j_lt p_lt (rw e ne) (rw e (omega arith)) free
        ]
      ]

  module _ (s : List (Slot V)) (mask p : ℕ) (x : Slot V) (placed : IsPlaced s mask)
      (ne : x.key ≢ empty_key) where
    pub fill-IsPlaced :
        Ended blank s (index x.key mask) x.key (vacant p) → IsPlaced (set s p x) mask
    fill-IsPlaced (p_lt, free, passed) =
        let absent = vacant-Absent s mask x.key p placed ne (p_lt, free, passed) in
        let width = length-set s p x in
        let at = λ (i : ℕ). key_at-set s p i x p_lt in
        record {
          ring = rw width placed.ring;
          unique = λ i j i_lt j_lt used same. elim (ℕ_discrete p i) [
            | yes a ↦ elim (ℕ_discrete p j) [
              | yes b ↦ sym a ∙ b
              | no b ↦ absurd (absent j (omega arith) (ground (arith, at i, at j)))
            ]
            | no a ↦ elim (ℕ_discrete p j) [
              | yes b ↦ absurd (absent i (omega arith) (ground (arith, at i, at j)))
              | no b ↦
                  placed.unique i j (omega arith) (omega arith) (ground (arith, at i))
                    (ground (arith, at i, at j))
            ]
          ];
          reach = λ i j i_lt j_lt used nearer. elim (ℕ_discrete p j) [
            | yes b ↦ ground (arith, at j)
            | no b ↦ elim (ℕ_discrete p i) [
              | yes a ↦
                  let here : key_at blank (set s p x) i ≡ x.key = ground (arith, at i) in
                  let near = rw (here, width) at nearer in
                  ground (arith, at j, passed j (omega arith) (rw a near))
              | no a ↦
                  let here : key_at blank (set s p x) i ≡ key_at blank s i = ground (arith, at i) in
                  let near = rw (here, width) at nearer in
                  let held = rw here at used in
                  ground (arith, at j, placed.reach i j (omega arith) (omega arith) held near)
            ]
          ];
        }

    -- The map that the slots stand for, when they are unique before and after a write at `p` of a
    -- key that is there or nowhere.
    pub view-set :
        p < length s
        → IsUnique blank (set s p x)
        → ((key_at blank s p ≡ x.key) ⊎ ((key_at blank s p ≡ empty_key) × Absent blank s x.key))
        → (q : ℕ) → q ≢ empty_key
        → view (set s p x) q ≡ (if q == x.key then some x.value else view s q)
    view-set p_lt unique old q real =
        let width = length-set s p x in
        let at = λ (i : ℕ). slot_at-set blank s p i x p_lt in
        elim (ℕ_discrete x.key q) [
          | yes e ↦
              let here = at p in
              let found =
                view-Present blank (set s p x) q p unique real (omega arith)
                  (ground (arith, here)) in
              ground (arith, found, here)
          | no ne ↦ elim (view-cases blank s q) [
            | inl none_there ↦
                let absent : Absent blank (set s p x) q =
                  λ i i_lt e. (ground (arith, at i, none_there.1 i (omega arith))) in
                ground (arith, none_there.0, view-Absent blank (set s p x) q absent)
            | inr (i, i_lt, e, v) ↦
                let away : p ≢ i = λ same. (ground (arith, ap (key_at blank s) same)) in
                let there : slot_at blank (set s p x) i ≡ slot_at blank s i =
                  ground (arith, at i) in
                let found =
                  view-Present blank (set s p x) q i unique real (omega arith)
                    (ap (λ (y : Slot V). y.key) there ∙ e) in
                ground (arith, v, found, ap (λ (y : Slot V). y.value) there)
          ]
        ]

    -- A write of a value under the key that the slot has.
    pub rewrite-IsPlaced : p < length s → key_at blank s p ≡ x.key → IsPlaced (set s p x) mask
    rewrite-IsPlaced p_lt same =
        let width = length-set s p x in
        let at : (i : ℕ) → key_at blank (set s p x) i ≡ key_at blank s i =
          λ i. (ground (arith, key_at-set s p i x p_lt, ap (key_at blank s) {x = p} {y = i})) in
        record {
          ring = rw width placed.ring;
          unique = λ i j i_lt j_lt used e.
              (placed.unique i j (omega arith) (omega arith) (rw (at i) at used)
                (rw (at i, at j) at e));
          reach = λ i j i_lt j_lt used near.
              (rw (at j) (
                placed.reach i j (omega arith) (omega arith) (rw (at i) at used)
                  (rw (at i, width) at near)));
        }
