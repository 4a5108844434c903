-- ===== src/Core/Flat/Shifting.antt =====
-- The backward shift of `erase`: it ends, and leaves slots in order that hold what they held but for
-- the slot in the hole.
use stok.Base.{
  ℕ, zero, suc, ◌≤◌, ◌<◌, ◌≡◌, ◌≢◌, inl, inr, refl, sym, ◌∙◌, ap, Bool, true, false, Bool-cases,
  Option, some, List, arith, ◌==◌, length, set, length-set,
}
use native.Mathlib.Decide.{ℕ_discrete, dec_lt}
use stok.Core.Flat.{empty_key, Slot, index, next, movable, shift, key_at, slot_at}
use stok.Core.Flat.Cycle.{
  succ, dist, index-lt, next-succ, succ-lt, dist-lt, dist_self, dist_inj, dist-succ, dist-eq_zero,
  dist_between, dist-succ_before, movable-dist,
}
use stok.Core.Flat.Slots.{count, count-set}
use stok.Core.Flat.Placed.{key_at-set}
use stok.Core.Flat.Holed.{IsHoled, IsShifting, IsClear, move-IsHoled}

module _ {ℓ} {V : Type ℓ} (blank : V) (f : ℕ → Option V) where
  module _ (s : List (Slot V)) (mask hole j : ℕ) (w : IsShifting blank f s mask hole j) where
    open w use {holed, j_lt, behind}

    abbrev n : ℕ
    n = length s

    abbrev k : ℕ
    k = succ n j

    abbrev ideal_at : ℕ → ℕ
    ideal_at i = index (key_at blank s i) mask

    -- One round further, with the slot at `k` in use.
    module _ (more : suc (dist n hole j) < n) (in_use : key_at blank s k ≢ empty_key) where
      k_lt : k < n
      k_lt = succ-lt n j j_lt

      apart : hole ≢ k
      apart e =
          (let d = dist-succ n hole j holed.hole_lt j_lt more in
            omega (arith, dist_self n hole, ap (dist n hole) e))

      pub stay-IsShifting : movable hole k (ideal_at k) ≡ false → IsShifting blank f s mask hole k
      stay-IsShifting stays = record {
        holed = holed;
        j_lt = k_lt;
        behind = λ i i_lt off held crossed.
            (let past = behind i i_lt off held crossed in
              let d = dist-succ n hole j holed.hole_lt j_lt more in
              elim (ℕ_discrete (dist n hole k) (dist n hole i)) [
                | no ne ↦ omega arith
                | yes e ↦
                    let same = dist_inj n hole k i holed.hole_lt k_lt i_lt e in
                    let test =
                      movable-dist n hole k (ideal_at k) holed.hole_lt k_lt (index-lt holed.ring _)
                        apart in
                    let crossed_k : dist n (ideal_at k) hole < dist n (ideal_at k) k =
                      rw same crossed in
                    ground (arith, test)
              ]);
      }

      pub move-IsShifting :
          movable hole k (ideal_at k) ≡ true
          → IsShifting blank f (set s hole (slot_at blank s k)) mask k k
      move-IsShifting moves =
          let test =
            movable-dist n hole k (ideal_at k) holed.hole_lt k_lt (index-lt holed.ring _) apart in
          let width = length-set s hole (slot_at blank s k) in
          let crossed : dist n (ideal_at k) hole < dist n (ideal_at k) k = ground (arith, test) in
          record {
            holed = move-IsHoled blank f s mask hole k holed k_lt apart in_use crossed;
            j_lt = rw width k_lt;
            behind = λ i i_lt off held way.
                (let past : 0 < dist n k i = (elim (ℕ_discrete (dist n k i) 0) [
                  | yes z ↦ absurd (off (sym (dist-eq_zero n k i k_lt (omega arith) z)))
                  | no nz ↦ omega arith
                ]) in
                  rw (width, dist_self n k) past);
          }

      pub count-moved : count (set s hole (slot_at blank s k)) ≡ count s
      count-moved =
          ground (arith, count-set blank s hole (slot_at blank s k) holed.hole_lt, holed.stale)

    pub end-IsClear :
        suc (dist n hole j) < n → key_at blank s k ≡ empty_key → IsClear blank f s mask hole
    end-IsClear more free i i_lt off held =
        elim (dec_lt (dist n (ideal_at i) hole) (dist n (ideal_at i) i)) [
          | no q ↦ omega arith
          | yes q ↦
              let k_lt = succ-lt n j j_lt in
              let past = behind i i_lt off held q in
              let d = dist-succ n hole j holed.hole_lt j_lt more in
              elim (ℕ_discrete (dist n hole k) (dist n hole i)) [
                | yes e ↦
                    let same = dist_inj n hole k i holed.hole_lt k_lt i_lt e in
                    absurd (held (sym (ap (key_at blank s) same) ∙ free))
                | no ne ↦ absurd (
                    holed.reach i k i_lt k_lt off held
                      (dist_between n (ideal_at i) hole k i (index-lt holed.ring _) holed.hole_lt
                        k_lt i_lt q (omega arith))
                      free)
              ]
        ]

  pub record Shifted (s t : List (Slot V)) (mask hole : ℕ) : Type ℓ where
    pub holed : IsHoled blank f t mask hole
    pub clear : IsClear blank f t mask hole
    pub width : length t ≡ length s
    pub counted : count t ≡ count s

  -- One round, once the next slot is known.
  module _ (fuel : ℕ) (s : List (Slot V)) (mask hole j k : ℕ) (step : next j mask ≡ k) where
    abbrev test : Bool
    test = movable hole k (index (key_at blank s k) mask)

    shift_end :
        (key_at blank s k == empty_key) ≡ true
        → shift blank (suc fuel) s mask hole j ≡ some (s, hole)
    unfolding shift
    shift_end off = rw (step, off) refl

    shift_stay :
        (key_at blank s k == empty_key) ≡ false
        → test ≡ false
        → shift blank (suc fuel) s mask hole j ≡ shift blank fuel s mask hole k
    unfolding shift
    shift_stay off stays = rw (step, off, stays) refl

    shift_move :
        (key_at blank s k == empty_key) ≡ false
        → test ≡ true
        → shift blank (suc fuel) s mask hole j
          ≡ shift blank fuel (set s hole (slot_at blank s k)) mask k k
    unfolding shift
    shift_move off moves = rw (step, off, moves) refl

  pub shift_lem :
      (fuel : ℕ) (s : List (Slot V)) (mask hole j e : ℕ)
      → IsShifting blank f s mask hole j
      → e < length s
      → key_at blank s e ≡ empty_key
      → dist (length s) hole j < dist (length s) hole e
      → dist (length s) j e ≤ fuel
      → (t : List (Slot V)) × (last : ℕ) × (shift blank fuel s mask hole j ≡ some (t, last))
        × Shifted s t mask last
  shift_lem zero s mask hole j e w e_lt free ahead enough =
      let same = dist-eq_zero (length s) j e w.j_lt e_lt (omega arith) in
      absurd (omega (arith, ap (dist (length s) hole) same))
  shift_lem (suc fuel) s mask hole j e w e_lt free ahead enough =
      let k = succ (length s) j in
      let hole_lt = w.holed.hole_lt in
      let step = next-succ w.holed.ring j w.j_lt in
      let more : suc (dist (length s) hole j) < length s =
        omega (arith, dist-lt (length s) hole e hole_lt e_lt) in
      let far = dist-succ (length s) hole j hole_lt w.j_lt more in
      let j_ne : j ≢ e = λ b. (omega (arith, ap (dist (length s) hole) b)) in
      let left = dist-succ_before (length s) j e w.j_lt e_lt j_ne in
      elim (ℕ_discrete (key_at blank s k) empty_key) [
        | yes z ↦ (
          s,
          hole,
          shift_end fuel s mask hole j k step (ground (arith, z)),
          record {
            holed = w.holed;
            clear = end-IsClear s mask hole j w more z;
            width = refl;
            counted = refl;
          },
        )
        | no in_use ↦
            let off : (key_at blank s k == empty_key) ≡ false = ground arith in
            let k_ne : k ≢ e = λ b. in_use (ap (key_at blank s) b ∙ free) in
            elim (Bool-cases (movable hole k (index (key_at blank s k) mask))) [
              | inr stays ↦
                  let apart : dist (length s) hole k ≢ dist (length s) hole e = λ b.
                    (k_ne (dist_inj (length s) hole k e hole_lt (succ-lt _ _ w.j_lt) e_lt b)) in
                  let rest =
                    shift_lem fuel s mask hole k e
                      (stay-IsShifting s mask hole j w more in_use stays) e_lt free (omega arith)
                      (omega arith) in
                  (rest.0, rest.1, shift_stay fuel s mask hole j k step off stays ∙ rest.2, rest.3)
              | inl moves ↦
                  let t = set s hole (slot_at blank s k) in
                  let width = length-set s hole (slot_at blank s k) in
                  let k_lt = succ-lt (length s) j w.j_lt in
                  let hole_ne : hole ≢ e = λ b. w.holed.stale (ap (key_at blank s) b ∙ free) in
                  let free_there : key_at blank t e ≡ empty_key =
                    ground (arith, key_at-set blank s hole e (slot_at blank s k) hole_lt) in
                  let away : 0 < dist (length s) k e = elim (ℕ_discrete (dist (length s) k e) 0) [
                    | yes b ↦ absurd (k_ne (dist-eq_zero (length s) k e k_lt e_lt b))
                    | no b ↦ omega arith
                  ] in
                  let rest =
                    shift_lem fuel t mask k k e (move-IsShifting s mask hole j w more in_use moves)
                      (rw width e_lt) free_there (rw (width, dist_self (length s) k) away)
                      (rw width (omega arith)) in
                  (
                    rest.0,
                    rest.1,
                    shift_move fuel s mask hole j k step off moves ∙ rest.2,
                    record {
                      holed = rest.3.holed;
                      clear = rest.3.clear;
                      width = rest.3.width ∙ width;
                      counted = rest.3.counted ∙ count-moved s mask hole j w more in_use;
                    },
                  )
            ]
      ]
