-- ===== src/Core/Flat/Refilling.antt =====
-- `rehash`: the loop over the old slots puts every entry into the new ones.
use stok.Base.{
  ℕ, zero, suc, ◌+◌, ◌-◌, ◌*◌, ◌<◌, ◌≡◌, ◌≢◌, ◌⊎◌, inl, inr, refl, sym, true, false, ◌∙◌, ap,
  Option, none, some, List, [], ◌∷◌, arith, ◌==◌, length, set, get_or, replicate, length-set,
  length-replicate, Option-cases,
}
use mathlib.Core.Option
use native.Mathlib.Decide.{ℕ_discrete}
use native.Mathlib.Nat.{pow-suc}
use stok.Core.Flat.{
  empty_key, Slot, FlatMap64, Probe, hit, vacant, index, key_at, free, vacancy, refill, rehash,
}
use stok.Core.Flat.Cycle.{IsRing, index-lt}
use stok.Core.Flat.Slots.{Absent, IsUnique, count, used, view, count-set, view-Absent}
use stok.Core.Flat.Probing.{Ended, probe-Ended, vacancy-probe}
use stok.Core.Flat.Placed.{IsPlaced, fill-IsPlaced, view-set, key_at-set}

-- The first answer that is there.
abbrev pub or_else {ℓ} : {A : Type ℓ} → Option A → Option A → Option A
or_else none b = b
or_else (some a) b = some a

module _ {ℓ} {V : Type ℓ} (blank : V) where
  -- The search for a free slot ends at one where the key may stand.
  pub record Vacancy (s : List (Slot V)) (mask key : ℕ) (i : ℕ) : Type 0 where
    pub found : vacancy blank (length s) s mask (index key mask) ≡ some i
    pub ended : Ended blank s (index key mask) key (vacant i)

  vacancy_lem :
      (s : List (Slot V)) (mask key : ℕ)
      → IsPlaced blank s mask
      → count s < length s
      → Absent blank s key
      → (i : ℕ) × Vacancy s mask key i
  vacancy_lem s mask key placed room absent =
      let p = probe-Ended blank s mask key placed.ring room in
      go p.0 (Option-cases (vacancy blank (length s) s mask (index key mask)))
        (vacancy-probe blank (length s) s mask key (index key mask) placed.ring
            (index-lt placed.ring key) absent
          ∙ p.1)
        p.2
    where
      go :
          (p : Probe)
          → ((vacancy blank (length s) s mask (index key mask) ≡ none)
              ⊎ ((i : ℕ) × (vacancy blank (length s) s mask (index key mask) ≡ some i)))
          → Option.map vacant (vacancy blank (length s) s mask (index key mask)) ≡ some p
          → Ended blank s (index key mask) key p
          → (i : ℕ) × Vacancy s mask key i
      go p (inl z) e d = absurd (cc)
      go (hit j) (inr (i, f)) e d = absurd (cc)
      go (vacant j) (inr (i, f)) e d =
          let same : i ≡ j = cc in (i, record { found = f; ended = rw same d })

  pub record Refilled (os s : List (Slot V)) (mask : ℕ) (t : List (Slot V)) : Type ℓ where
    pub placed : IsPlaced blank t mask
    pub width : length t ≡ length s
    pub counted : count t ≡ count s + count os
    pub reads : (q : ℕ) → q ≢ empty_key → view t q ≡ or_else (view os q) (view s q)

  -- The entries still to move stand nowhere among those that are there.
  abbrev pub IsApart : List (Slot V) → List (Slot V) → Type 0
  IsApart os s =
      (i : ℕ) → i < length os → key_at blank os i ≢ empty_key → Absent blank s (key_at blank os i)

  pub IsUnique-tail :
      (o : Slot V) (os : List (Slot V)) → IsUnique blank (o ∷ os) → IsUnique blank os
  IsUnique-tail o os unique i j a b c d =
      let e = unique (suc i) (suc j) (omega arith) (omega arith) c d in omega arith

  pub head-Absent :
      (o : Slot V) (os : List (Slot V))
      → IsUnique blank (o ∷ os)
      → o.key ≢ empty_key
      → Absent blank os o.key
  head-Absent o os unique real j j_lt e =
      let clash = unique 0 (suc j) (omega arith) (omega arith) real (sym e) in omega arith

  tail-IsApart :
      (o : Slot V) (os s : List (Slot V)) (i : ℕ)
      → i < length s
      → IsUnique blank (o ∷ os)
      → o.key ≢ empty_key
      → IsApart (o ∷ os) s
      → IsApart os (set s i o)
  tail-IsApart o os s i i_lt unique real apart k k_lt held j j_lt e = elim (ℕ_discrete i j) [
    | yes same ↦
        absurd (head-Absent o os unique real k k_lt (ground (arith, key_at-set blank s i j o i_lt)))
    | no ne ↦ absurd (
        apart (suc k) (omega arith) held j (omega (arith, length-set s i o))
          (ground (arith, key_at-set blank s i j o i_lt)))
  ]

  module _ (o : Slot V) (os s : List (Slot V)) (mask size : ℕ) where
    refill_skip :
        (o.key == empty_key) ≡ true
        → refill blank (o ∷ os) mask s size ≡ refill blank os mask s size
    unfolding refill
    refill_skip skip = rw (refill, skip) refl

    refill_keep :
        (i : ℕ)
        → (o.key == empty_key) ≡ false
        → vacancy blank (length s) s mask (index o.key mask) ≡ some i
        → refill blank (o ∷ os) mask s size ≡ refill blank os mask (set s i o) (size + 1)
    unfolding refill
    refill_keep i keep found = rw (refill, keep, found) refl

  pub refill-Refilled :
      (os s : List (Slot V)) (mask size : ℕ)
      → IsPlaced blank s mask
      → count s + count os < length s
      → IsUnique blank os
      → IsApart os s
      → (t : List (Slot V)) × (refill blank os mask s size ≡ some (t, size + count os))
        × Refilled os s mask t
  unfolding refill view
  refill-Refilled [] s mask size placed room unique apart = (
    s,
    ap (λ (n : ℕ). some (s, n)) (omega arith),
    record { placed = placed; width = refl; counted = omega arith; reads = λ q real. refl },
  )
  refill-Refilled (o ∷ os) s mask size placed room unique apart =
      elim (ℕ_discrete o.key empty_key) [
        | yes z ↦
            let skip : (o.key == empty_key) ≡ true = ground arith in
            let nothing : used o.key ≡ 0 = ground arith in
            let rest =
              refill-Refilled os s mask size placed (omega arith) (IsUnique-tail o os unique)
                (λ i a. (apart (suc i) (omega arith))) in
            (
              rest.0,
              refill_skip o os s mask size skip
                  ∙ rest.1
                  ∙ ap (λ (n : ℕ). some (rest.0, n)) (omega (arith, nothing)),
              record {
                placed = rest.2.placed;
                width = rest.2.width;
                counted = omega (arith, rest.2.counted, nothing);
                reads = λ q is_real.
                    (let other : (o.key == q) ≡ false = ground arith in
                      rw other (rest.2.reads q is_real));
              },
            )
        | no real ↦
            let keep : (o.key == empty_key) ≡ false = ground arith in
            let one : used o.key ≡ 1 = ground arith in
            let absent = apart 0 (omega arith) real in
            let (i, v) = vacancy_lem s mask o.key placed (omega arith) absent in
            let i_lt : i < length s = v.ended.0 in
            let t = set s i o in
            let width = length-set s i o in
            let filled = fill-IsPlaced blank s mask i o placed real v.ended in
            let none_there : used (key_at blank s i) ≡ 0 = rw v.ended.1 refl in
            let grown : count t ≡ suc (count s) = omega (arith, count-set blank s i o i_lt) in
            let rest =
              refill-Refilled os t mask (size + 1) filled (omega arith) (IsUnique-tail o os unique)
                (tail-IsApart o os s i i_lt unique real apart) in
            (
              rest.0,
              refill_keep o os s mask size i keep v.found
                  ∙ rest.1
                  ∙ ap (λ (n : ℕ). some (rest.0, n)) (omega arith),
              record {
                placed = rest.2.placed;
                width = rest.2.width ∙ width;
                counted = omega (arith, rest.2.counted);
                reads = λ q is_real.
                    (let seen =
                        view-set blank s mask i o placed real i_lt filled.unique
                          (inr (v.ended.1, absent)) q is_real in
                      elim (ℕ_discrete o.key q) [
                        | yes e ↦
                            let here : (o.key == q) ≡ true = ground arith in
                            let here' : (q == o.key) ≡ true = ground arith in
                            let gone =
                              view-Absent blank os q (rw e at (head-Absent o os unique real)) in
                            rw (here, rest.2.reads q is_real, gone, seen, here') refl
                        | no ne ↦
                            let other : (o.key == q) ≡ false = ground arith in
                            let other' : (q == o.key) ≡ false = ground arith in
                            rw (other, rest.2.reads q is_real, seen, other') refl
                      ]);
              },
            )
      ]

  -- A doubled vector, or one of the constructor's sizes, is a cycle again.
  pub IsRing-double : (n mask : ℕ) → IsRing n mask → IsRing (n * 2) (n * 2 - 1)
  IsRing-double n mask r = record {
    exponent = suc r.exponent;
    width = omega (arith, r.width, pow-suc 2 r.exponent);
    ones = refl;
  }

  get_or-replicate : (n i : ℕ) (x : Slot V) → get_or (replicate n x) i x ≡ x
  get_or-replicate zero i x = refl
  get_or-replicate (suc n) zero x = refl
  get_or-replicate (suc n) (suc i) x = get_or-replicate n i x

  count-replicate : (n : ℕ) → count (replicate n (free blank)) ≡ 0
  count-replicate zero = refl
  count-replicate (suc n) = omega (arith, count-replicate n)

  all_free : (n i : ℕ) → key_at blank (replicate n (free blank)) i ≡ empty_key
  all_free n i = ap (λ (x : Slot V). x.key) (get_or-replicate n i (free blank))

  replicate-IsPlaced :
      (n : ℕ) → IsRing n (n - 1) → IsPlaced blank (replicate n (free blank)) (n - 1)
  replicate-IsPlaced n ring = record {
    ring = rw (length-replicate n (free blank)) ring;
    unique = λ i j a b c d. absurd (c (all_free n i));
    reach = λ i j a b c d. absurd (c (all_free n i));
  }

  -- What a rehash of `m` leaves.
  pub record Rehashed (load : ℕ → ℕ) (m : FlatMap64 V) (new_cap : ℕ) (r : FlatMap64 V)
      : Type ℓ where
    pub placed : IsPlaced blank r.slots r.mask
    pub width : length r.slots ≡ new_cap
    pub size : r.size ≡ count m.slots
    pub counted : count r.slots ≡ r.size
    pub limit : r.grow_at ≡ load new_cap
    pub reads : (q : ℕ) → q ≢ empty_key → view r.slots q ≡ view m.slots q

  pub rehash-Rehashed :
      (load : ℕ → ℕ) (m : FlatMap64 V) (new_cap : ℕ)
      → IsRing new_cap (new_cap - 1)
      → count m.slots < new_cap
      → IsUnique blank m.slots
      → (r : FlatMap64 V) × (rehash blank load m new_cap ≡ some r) × Rehashed load m new_cap r
  unfolding rehash
  rehash-Rehashed load m new_cap ring room unique =
      let fresh = replicate new_cap (free blank) in
      let width = length-replicate new_cap (free blank) in
      let none_used = count-replicate new_cap in
      let t =
        refill-Refilled m.slots fresh (new_cap - 1) 0 (replicate-IsPlaced new_cap ring)
          (rw width (omega arith)) unique (λ i a held j b e. (held (sym e ∙ all_free new_cap j))) in
      (
        record {
          slots = t.0;
          mask = new_cap - 1;
          size = 0 + count m.slots;
          grow_at = load new_cap;
        },
        rw t.1 refl,
        record {
          placed = t.2.placed;
          width = t.2.width ∙ width;
          size = omega arith;
          counted = omega (arith, t.2.counted);
          limit = refl;
          reads = λ q real.
              (let gone =
                  view-Absent blank fresh q (λ j b e. (real (sym e ∙ all_free new_cap j))) in
                t.2.reads q real ∙ rw gone (or_else_none (view m.slots q)));
        },
      )
    where
      or_else_none : (a : Option V) → or_else a none ≡ a
      or_else_none none = refl
      or_else_none (some a) = refl
