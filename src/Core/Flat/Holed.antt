-- ===== src/Core/Flat/Holed.antt =====
-- The slots while `erase` shifts: one of them is the hole, and a move of a slot into the hole.
use stok.Base.{
  ℕ, ◌≤◌, ◌<◌, ◌≡◌, ◌≢◌, ◌⊎◌, inl, inr, sym, ◌∙◌, ap, Option, none, some, List, arith, ◌==◌,
  if◌then◌else◌, length, set, length-set,
}
use native.Mathlib.Decide.{ℕ_discrete}
use stok.Core.Flat.{empty_key, Slot, index, key_at, slot_at}
use stok.Core.Flat.Cycle.{IsRing, dist}
use stok.Core.Flat.Slots.{slot_at-set}

module _ {ℓ} {V : Type ℓ} (blank : V) (f : ℕ → Option V) where
  -- The slots stand for `f`, but for what is left in the hole, which counts as in use.
  pub record IsHoled (s : List (Slot V)) (mask hole : ℕ) : Type ℓ where
    pub ring : IsRing (length s) mask
    pub hole_lt : hole < length s
    pub stale : key_at blank s hole ≢ empty_key
    pub unique :
        (i j : ℕ)
        → i < length s
        → j < length s
        → i ≢ hole
        → j ≢ hole
        → key_at blank s i ≢ empty_key
        → key_at blank s i ≡ key_at blank s j
        → i ≡ j
    pub sound :
        (i : ℕ)
        → i < length s
        → i ≢ hole
        → key_at blank s i ≢ empty_key
        → f (key_at blank s i) ≡ some (slot_at blank s i).value
    pub complete :
        (q : ℕ)
        → q ≢ empty_key
        → (f q ≡ none) ⊎ ((i : ℕ) × (i < length s) × (i ≢ hole) × (key_at blank s i ≡ q))
    pub reach :
        (i j : ℕ)
        → i < length s
        → j < length s
        → i ≢ hole
        → key_at blank s i ≢ empty_key
        → (let h = index (key_at blank s i) mask in dist (length s) h j < dist (length s) h i)
        → key_at blank s j ≢ empty_key

  -- The keys whose way crosses the hole stand behind `j`, and a free slot does too.
  pub record IsShifting (s : List (Slot V)) (mask hole j : ℕ) : Type ℓ where
    pub holed : IsHoled s mask hole
    pub j_lt : j < length s
    pub behind :
        (i : ℕ)
        → i < length s
        → i ≢ hole
        → key_at blank s i ≢ empty_key
        → (let h = index (key_at blank s i) mask in dist (length s) h hole < dist (length s) h i)
        → dist (length s) hole j < dist (length s) hole i

  -- No key's way crosses the hole.
  abbrev pub IsClear : List (Slot V) → ℕ → ℕ → Type 0
  IsClear s mask hole =
      (i : ℕ)
      → i < length s
      → i ≢ hole
      → key_at blank s i ≢ empty_key
      → (let h = index (key_at blank s i) mask in dist (length s) h i ≤ dist (length s) h hole)

  -- The slot at `k` moves into the hole, and `k` becomes the hole.
  module _ (s : List (Slot V)) (mask hole k : ℕ) (w : IsHoled s mask hole) (k_lt : k < length s)
      (apart : hole ≢ k) (in_use : key_at blank s k ≢ empty_key) where
    abbrev moved : List (Slot V)
    moved = set s hole (slot_at blank s k)

    key_of : {x y : Slot V} → x ≡ y → x.key ≡ y.key
    key_of e = ap (λ (z : Slot V). z.key) e

    value_of : {x y : Slot V} → x ≡ y → x.value ≡ y.value
    value_of e = ap (λ (z : Slot V). z.value) e

    slot_at-moved :
        (i : ℕ)
        → slot_at blank moved i ≡ (if hole == i then slot_at blank s k else slot_at blank s i)
    slot_at-moved i = slot_at-set blank s hole i (slot_at blank s k) w.hole_lt

    slot_at-moved_hole : slot_at blank moved hole ≡ slot_at blank s k
    slot_at-moved_hole = ground (arith, slot_at-moved hole)

    slot_at-moved_ne : (i : ℕ) → hole ≢ i → slot_at blank moved i ≡ slot_at blank s i
    slot_at-moved_ne i ne = ground (arith, slot_at-moved i)

    -- Where a slot of the moved list stood before.
    origin : ℕ → ℕ
    origin i = if hole == i then k else i

    origin_lem :
        (i : ℕ)
        → i < length moved
        → i ≢ k
        → (origin i < length s)
          × (origin i ≢ hole)
          × (slot_at blank moved i ≡ slot_at blank s (origin i))
    unfolding origin
    origin_lem i i_lt off = elim (ℕ_discrete hole i) [
      | yes e ↦
          let o : origin i ≡ k = ground arith in
          (
            rw o k_lt,
            λ b. apart (sym b ∙ o),
            ap (slot_at blank moved) (sym e) ∙ slot_at-moved_hole ∙ ap (slot_at blank s) (sym o),
          )
      | no ne ↦
          let o : origin i ≡ i = ground arith in
          (
            rw o (omega (arith, length-set s hole (slot_at blank s k))),
            λ b. ne (sym b ∙ o),
            slot_at-moved_ne i ne ∙ ap (slot_at blank s) (sym o),
          )
    ]

    origin_inj : (i j : ℕ) → i ≢ k → j ≢ k → origin i ≡ origin j → i ≡ j
    unfolding origin
    origin_inj i j hi hj e = ground arith

    in_use-moved : (j : ℕ) → key_at blank s j ≢ empty_key → key_at blank moved j ≢ empty_key
    in_use-moved j held = elim (ℕ_discrete hole j) [
      | yes e ↦ rw (← e, key_of slot_at-moved_hole) in_use
      | no ne ↦ rw (key_of (slot_at-moved_ne j ne)) held
    ]

    pub move-IsHoled :
        (let h = index (key_at blank s k) mask in dist (length s) h hole < dist (length s) h k)
        → IsHoled moved mask k
    move-IsHoled crossed =
        let width = length-set s hole (slot_at blank s k) in
        record {
          ring = rw width w.ring;
          hole_lt = rw width k_lt;
          stale = in_use-moved k in_use;
          unique = λ i j i_lt j_lt hi hj held e.
              (let a = origin_lem i i_lt hi in
                let b = origin_lem j j_lt hj in
                origin_inj i j hi hj (
                  w.unique (origin i) (origin j) a.0 b.0 a.1 b.1 (rw (key_of a.2) at held)
                    (rw (key_of a.2, key_of b.2) at e)));
          sound = λ i i_lt hi held.
              (let a = origin_lem i i_lt hi in
                rw (key_of a.2, value_of a.2)
                  (w.sound (origin i) a.0 a.1 (rw (key_of a.2) at held)));
          complete = λ q real. elim (w.complete q real) [
            | inl p ↦ inl p
            | inr (i, i_lt, off, e) ↦ elim (ℕ_discrete i k) [
              | yes same ↦ inr (
                hole,
                rw width w.hole_lt,
                apart,
                key_of slot_at-moved_hole ∙ ap (key_at blank s) (sym same) ∙ e,
              )
              | no ne ↦
                  inr (i, rw width i_lt, ne, key_of (slot_at-moved_ne i (λ b. off (sym b))) ∙ e)
            ]
          ];
          reach = λ i j i_lt j_lt hi held near.
              (let a = origin_lem i i_lt hi in
                let j_lt0 : j < length s = omega arith in
                in_use-moved j (elim (ℕ_discrete hole i) [
                  | yes e ↦
                      let here : slot_at blank moved i ≡ slot_at blank s k =
                        ap (slot_at blank moved) (sym e) ∙ slot_at-moved_hole in
                      let home = index (key_at blank s k) mask in
                      let near0 : dist (length s) home j < dist (length s) home hole =
                        rw e (rw (key_of here, width) at near) in
                      w.reach k j k_lt j_lt0 (λ b. apart (sym b)) in_use (omega arith)
                  | no ne ↦
                      let here = slot_at-moved_ne i ne in
                      w.reach i j (omega arith) j_lt0 (λ b. ne (sym b)) (rw (key_of here) at held)
                        (rw (key_of here, width) at near)
                ]));
        }
