-- ===== src/Core/Flat/Entries.antt =====
-- `reserve`, `contains` and `for_each`, and the set.
use stok.Base.{
  ℕ, ◌+◌, ◌^◌, ◌≤◌, ◌<◌, ◌≡◌, ◌≢◌, inl, inr, refl, true, false, ◌∙◌, ap, Option, none, some, List,
  [], ◌∷◌, arith, ltb, ltb→lt, ◌==◌, if◌then◌else◌, ◌>>=◌, length, Bool-cases,
}
use native.Mathlib.Decide.{ℕ_discrete}
use stok.Core.Spsc.Pow2.{next_pow2-IsPow2Above}
use stok.Core.Flat.{empty_key, Slot, FlatMap64, is_some, contains, reserve, for_each}
use stok.Core.Flat.Slots.{count, view}
use stok.Core.Flat.Refilling.{rehash-Rehashed}
use stok.Core.Flat.Methods.{IsValid, deref, find-view}
use stok.Core.Flat.Running.{Models}

-- The value of a key in a list of pairs.
unfoldable pub lookup {ℓ} : {V : Type ℓ} → List (ℕ × V) → ℕ → Option V
lookup [] q = none
lookup ((k, v) ∷ es) q = if k == q then some v else lookup es q

module _ {ℓ} {V : Type ℓ} (blank : V) where
  -- `reserve` returns a map that holds what the map held, with more slots than were wanted, when
  -- that number of slots is below 2^63 and the load factor keeps the growth limit below the
  -- capacity.
  pub reserve-Models :
      (load wanted : ℕ → ℕ)
      → ((c : ℕ) → 0 < c → load c < c)
      → (f : ℕ → Option V) (m : FlatMap64 V) → Models blank f m
      → (n : ℕ) → wanted n + 1 ≤ 2 ^ 63
      → (r : FlatMap64 V) × (reserve blank load wanted m n ≡ some r)
        × (wanted n < length r.slots)
        × Models blank f r
  unfolding reserve
  reserve-Models load wanted below f m w n small =
      let p = next_pow2-IsPow2Above (wanted n + 1) (omega arith) small in
      let want = 2 ^ p.exponent in
      let inv = w.valid in
      elim (Bool-cases (ltb (length m.slots) want)) [
        | inr t ↦ (m, rw (p.returns, t) refl, ground (arith, p.above), w)
        | inl t ↦
            let lt = ltb→lt (length m.slots) want t in
            let (r, run, h) =
              rehash-Rehashed blank load m want
                (record { exponent = p.exponent; width = refl; ones = refl })
                (omega (arith, inv.counted, inv.room)) inv.placed.unique in
            (
              r,
              rw (p.returns, t) run,
              omega (arith, h.width, p.above),
              record {
                valid = record {
                  placed = h.placed;
                  counted = h.counted;
                  room = omega (arith, h.width, h.size, inv.counted, inv.room);
                  limit = (let less = below want (omega arith) in omega (arith, h.width, h.limit));
                };
                reads = λ q real. h.reads q real ∙ w.reads q real;
              },
            )
      ]

  -- `contains` returns, and tells whether the key has a value.
  pub contains-view :
      (m : FlatMap64 V)
      → IsValid blank m
      → (key : ℕ) → key ≢ empty_key
      → contains blank m key ≡ some (is_some (view m.slots key))
  unfolding contains
  contains-view m inv key real =
      let (p, run, e) = find-view blank m inv key real in
      ap (λ (o : Option (Option ℕ)). o >>= λ r. some (is_some r)) run
      ∙ points p
      ∙ ap (λ (o : Option V). some (is_some o)) e
    where
      points : (p : Option ℕ) → some (is_some p) ≡ some (is_some (deref blank m.slots p))
      points none = refl
      points (some i) = refl

  for_each_lem :
      (s : List (Slot V)) (q : ℕ) → q ≢ empty_key → lookup (for_each blank s) q ≡ view s q
  unfolding for_each lookup view
  for_each_lem [] q real = refl
  for_each_lem (x ∷ s) q real = elim (ℕ_discrete x.key empty_key) [
    | yes e ↦
        let marked : (x.key == empty_key) ≡ true = ground arith in
        let other : (x.key == q) ≡ false = ground arith in
        rw (marked, other) (for_each_lem s q real)
    | no ne ↦
        let kept : (x.key == empty_key) ≡ false = ground arith in
        rw (kept, for_each_lem s q real) refl
  ]

  length-for_each : (s : List (Slot V)) → length (for_each blank s) ≡ count s
  unfolding for_each
  length-for_each [] = refl
  length-for_each (x ∷ s) = elim (ℕ_discrete x.key empty_key) [
    | yes e ↦
        let marked : (x.key == empty_key) ≡ true = ground arith in
        rw marked (omega (arith, length-for_each s))
    | no ne ↦
        let kept : (x.key == empty_key) ≡ false = ground arith in
        rw kept (omega (arith, length-for_each s))
  ]

  -- The pairs of a valid map.
  pub for_each-view :
      (m : FlatMap64 V)
      → IsValid blank m
      → (length (for_each blank m.slots) ≡ m.size)
        × ((q : ℕ) → q ≢ empty_key → lookup (for_each blank m.slots) q ≡ view m.slots q)
  for_each-view m inv = (length-for_each m.slots ∙ inv.counted, for_each_lem m.slots)
