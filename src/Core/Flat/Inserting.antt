-- ===== src/Core/Flat/Inserting.antt =====
-- `try_emplace` and `insert_or_assign`: they return, keep the invariant, and write one key.
use stok.Base.{
  ℕ, ◌+◌, ◌*◌, ◌<◌, ◌≡◌, ◌≢◌, inl, inr, refl, Bool, true, false, ◌∙◌, ap, Option, some, arith, ltb,
  ◌==◌, if◌then◌else◌, length, length-set, Bool-cases, not,
}
use native.Mathlib.Decide.{ℕ_discrete}
use stok.Core.Flat.{
  empty_key, Slot, FlatMap64, key_at, slot_at, make_room, emplace_at, try_emplace, write,
  insert_or_assign, is_some,
}
use stok.Core.Flat.Slots.{view, slot_at-set_self, count-set}
use stok.Core.Flat.Placed.{rewrite-IsPlaced, view-set}
use stok.Core.Flat.Refilling.{rehash-Rehashed, IsRing-double}
use stok.Core.Flat.Methods.{IsValid, Emplaced, probed, emplace_at-Emplaced}

if_not {ℓ} : {A : Type ℓ} (b : Bool) (x y : A) → (if not b then x else y) ≡ (if b then y else x)
if_not true x y = refl
if_not false x y = refl

module _ {ℓ} {V : Type ℓ} (blank : V) where
  module _ (load : ℕ → ℕ) (below : (c : ℕ) → 0 < c → load c < c) where
    -- A map with room for one more key, that holds what `m` holds.
    record Roomy (m r : FlatMap64 V) : Type ℓ where
      valid : IsValid blank r
      enough : r.size + 1 < length r.slots
      size : r.size ≡ m.size
      reads : (q : ℕ) → q ≢ empty_key → view r.slots q ≡ view m.slots q

    make_room-Roomy :
        (m : FlatMap64 V)
        → IsValid blank m
        → (r : FlatMap64 V) × (make_room blank load m ≡ some r) × Roomy m r
    unfolding make_room
    make_room-Roomy m inv = elim (Bool-cases (ltb m.grow_at (m.size + 1))) [
      | inr t ↦ (
        m,
        rw t refl,
        record {
          valid = inv;
          enough = ground (arith, inv.limit);
          size = refl;
          reads = λ q real. refl;
        },
      )
      | inl t ↦
          let (r, run, h) =
            rehash-Rehashed blank load m (length m.slots * 2)
              (IsRing-double blank (length m.slots) m.mask inv.placed.ring)
              (omega (arith, inv.counted, inv.room)) inv.placed.unique in
          (
            r,
            rw t run,
            record {
              valid = record {
                placed = h.placed;
                counted = h.counted;
                room = omega (arith, h.width, h.size, inv.counted, inv.room);
                limit =
                    (let small = below (length m.slots * 2) (omega (arith, inv.room)) in
                      omega (arith, h.width, h.limit));
              };
              enough = omega (arith, h.width, h.size, inv.counted, inv.room);
              size = h.size ∙ inv.counted;
              reads = h.reads;
            },
          )
    ]

    -- `try_emplace` returns.
    pub try_emplace-Emplaced :
        (m : FlatMap64 V)
        → IsValid blank m
        → (key : ℕ) → key ≢ empty_key
        → (r : FlatMap64 V × ℕ × Bool) × (try_emplace blank load m key ≡ some r)
          × Emplaced blank m key r.0 r.1 r.2
    unfolding try_emplace
    try_emplace-Emplaced m inv key real =
        let (r, run, w) = make_room-Roomy m inv in
        let (p, found, ended) = probed blank r w.valid key real in
        let e = emplace_at-Emplaced blank r w.valid key real p w.enough ended in
        let grown_to = λ (b : Bool). ap (λ (n : ℕ). if b then n + 1 else n) w.size in
        (
          emplace_at blank r key p,
          rw (run, found) refl,
          record {
            valid = e.valid;
            pointed = e.pointed;
            fresh = e.fresh ∙ ap (λ (o : Option V). not (is_some o)) (w.reads key real);
            size = e.size ∙ grown_to _;
            reads = λ q q_real. e.reads q q_real ∙ rw (w.reads key real, w.reads q q_real) refl;
          },
        )

    -- What `insert_or_assign` does.
    pub record Assigned (m : FlatMap64 V) (key : ℕ) (v : V) (r : FlatMap64 V) (i : ℕ) : Type ℓ where
      pub valid : IsValid blank r
      pub pointed :
          (i < length r.slots) × (slot_at blank r.slots i ≡ record { key = key; value = v })
      pub size : r.size ≡ (if is_some (view m.slots key) then m.size else m.size + 1)
      pub reads :
          (q : ℕ) → q ≢ empty_key → view r.slots q ≡ (if q == key then some v else view m.slots q)

    pub insert_or_assign-Assigned :
        (m : FlatMap64 V)
        → IsValid blank m
        → (key : ℕ) → key ≢ empty_key
        → (v : V)
        → (r : FlatMap64 V × ℕ) × (insert_or_assign blank load m key v ≡ some r)
          × Assigned m key v r.0 r.1
    unfolding insert_or_assign write
    insert_or_assign-Assigned m inv key real v =
        let ((r, i, inserted), run, e) = try_emplace-Emplaced m inv key real in
        let x : Slot V = record { key = key_at blank r.slots i; value = v } in
        let x_real : x.key ≢ empty_key = rw e.pointed.1 real in
        let i_lt = e.pointed.0 in
        let width = length-set r.slots i x in
        let placed = rewrite-IsPlaced blank r.slots r.mask i x e.valid.placed x_real i_lt refl in
        (
          (write blank r i v, i),
          rw run refl,
          record {
            valid = record {
              placed = placed;
              counted = omega (arith, count-set blank r.slots i x i_lt, e.valid.counted);
              room = rw width e.valid.room;
              limit = rw width e.valid.limit;
            };
            pointed = (
              rw width i_lt,
              slot_at-set_self blank r.slots i x i_lt
                  ∙ ap (λ k. record { key = k; value = v }) e.pointed.1,
            );
            size =
                e.size
                ∙ ap (λ (b : Bool). if b then m.size + 1 else m.size) e.fresh
                ∙ if_not (is_some (view m.slots key)) (m.size + 1) m.size;
            reads = λ q q_real.
                (let seen =
                    view-set blank r.slots r.mask i x e.valid.placed x_real i_lt placed.unique
                      (inl refl) q q_real in
                  seen
                  ∙ ap (λ (k : ℕ). if q == k then some v else view r.slots q) e.pointed.1
                  ∙ elim (ℕ_discrete q key) [
                    | yes a ↦ let same : (q == key) ≡ true = ground arith in rw same refl
                    | no a ↦
                        let other : (q == key) ≡ false = ground arith in
                        rw other (rw other at (e.reads q q_real))
                  ]);
          },
        )
