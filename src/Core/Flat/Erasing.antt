-- ===== src/Core/Flat/Erasing.antt =====
-- `erase`: it returns, keeps the invariant, and takes the key out of the map.
use stok.Base.{
  ℕ, suc, ◌+◌, ◌-◌, ◌<◌, ◌≡◌, ◌≢◌, inl, inr, refl, sym, Bool, true, false, ◌∙◌, ap, Option, none,
  some, List, arith, ◌==◌, if◌then◌else◌, length, set, length-set,
}
use native.Mathlib.Decide.{ℕ_discrete}
use stok.Core.Flat.{
  empty_key, Slot, FlatMap64, is_some, Probe, hit, vacant, index, key_at, slot_at, erase_at, erase,
}
use stok.Core.Flat.Cycle.{dist, dist_self, dist-lt, dist-eq_zero}
use stok.Core.Flat.Slots.{
  count, used, view, slot_at-set_ne, count-set, view-cases, view-Present, vacant_slot,
}
use stok.Core.Flat.Probing.{Ended, locate-probe}
use stok.Core.Flat.Placed.{IsPlaced, key_at-set}
use stok.Core.Flat.Holed.{IsHoled, IsShifting, IsClear}
use stok.Core.Flat.Shifting.{shift_lem}
use stok.Core.Flat.Methods.{IsValid, Outcome, nowhere, outcome_of, probed}

module _ {ℓ} {V : Type ℓ} (blank : V) where
  -- The hole is freed once nothing crosses it.
  module _ (f : ℕ → Option V) (t : List (Slot V)) (mask last : ℕ) (w : IsHoled blank f t mask last)
      (v : V) where
    abbrev freed : List (Slot V)
    freed = set t last (record { key = empty_key; value = v })

    key_at-freed :
        (i : ℕ)
        → key_at blank freed i ≢ empty_key
        → (last ≢ i) × (key_at blank freed i ≡ key_at blank t i)
    key_at-freed i held =
        let at = key_at-set blank t last i (record { key = empty_key; value = v }) w.hole_lt in
        elim (ℕ_discrete last i) [
          | yes e ↦ absurd (held (ground (arith, at)))
          | no ne ↦ (ne, ground (arith, at))
        ]

    freed_other : (j : ℕ) → last ≢ j → key_at blank freed j ≡ key_at blank t j
    freed_other j ne =
        let at = key_at-set blank t last j (record { key = empty_key; value = v }) w.hole_lt in
        ground (arith, at)

    freed-IsPlaced : IsClear blank f t mask last → IsPlaced blank freed mask
    freed-IsPlaced clear =
        let width = length-set t last (record { key = empty_key; value = v }) in
        record {
          ring = rw width w.ring;
          unique = λ i j i_lt j_lt held e.
              (let a = key_at-freed i held in
                let b = key_at-freed j (rw e at held) in
                w.unique i j (omega arith) (omega arith) (λ x. a.0 (sym x)) (λ x. b.0 (sym x))
                  (rw a.1 at held) (sym a.1 ∙ e ∙ b.1));
          reach = λ i j i_lt j_lt held near.
              (let a = key_at-freed i held in
                let i_lt0 : i < length t = omega arith in
                let near0 = rw (a.1, width) at near in
                let held0 = rw a.1 at held in
                let after = clear i i_lt0 (λ x. a.0 (sym x)) held0 in
                let apart : last ≢ j = λ e. (let over = rw (← e) at near0 in omega arith) in
                rw (freed_other j apart)
                  (w.reach i j i_lt0 (omega arith) (λ x. a.0 (sym x)) held0 near0));
        }

    count-freed : suc (count freed) ≡ count t
    count-freed =
        let held : used (key_at blank t last) ≡ 1 = (let off = w.stale in ground arith) in
        omega (arith, count-set blank t last (record { key = empty_key; value = v }) w.hole_lt)

    view-freed : (q : ℕ) → q ≢ empty_key → view freed q ≡ f q
    view-freed q real =
        let width = length-set t last (record { key = empty_key; value = v }) in
        elim (view-cases blank freed q) [
          | inl (none_there, absent) ↦ elim (w.complete q real) [
            | inl z ↦ none_there ∙ sym z
            | inr (i, i_lt, off, e) ↦
                absurd (absent i (omega arith) (freed_other i (λ x. off (sym x)) ∙ e))
          ]
          | inr (i, i_lt, e, seen) ↦
              let held : key_at blank freed i ≢ empty_key = rw e real in
              let a = key_at-freed i held in
              let there : key_at blank t i ≡ q = sym a.1 ∙ e in
              let known = w.sound i (omega arith) (λ x. a.0 (sym x)) (rw there real) in
              seen
              ∙ ap (λ (x : Slot V). some x.value)
                  (slot_at-set_ne blank t last i (record { key = empty_key; value = v }) w.hole_lt
                    a.0)
              ∙ sym known
              ∙ ap f there
        ]

  -- What `erase` does: the map and the flag that it returns.
  pub record Erased (m : FlatMap64 V) (key : ℕ) (r : FlatMap64 V) (found : Bool) : Type ℓ where
    pub valid : IsValid blank r
    pub held : found ≡ is_some (view m.slots key)
    pub size : (if found then r.size + 1 else r.size) ≡ m.size
    pub reads :
        (q : ℕ) → q ≢ empty_key → view r.slots q ≡ (if q == key then none else view m.slots q)

  module _ (m : FlatMap64 V) (inv : IsValid blank m) (key : ℕ) (real : key ≢ empty_key) where
    abbrev target : ℕ → Option V
    target q = if q == key then none else view m.slots q

    module _ (i : ℕ) (i_lt : i < length m.slots) (here : key_at blank m.slots i ≡ key) where
      open-IsShifting : IsShifting blank target m.slots m.mask i i
      open-IsShifting = record {
        holed = record {
          ring = inv.placed.ring;
          hole_lt = i_lt;
          stale = rw here real;
          unique = λ a b a_lt b_lt _ _ held e. inv.placed.unique a b a_lt b_lt held e;
          sound = λ a a_lt off held.
              (let apart : key_at blank m.slots a ≢ key =
                  λ e. (off (inv.placed.unique a i a_lt i_lt held (e ∙ sym here))) in
                let other : (key_at blank m.slots a == key) ≡ false = ground arith in
                rw other (view-Present blank m.slots _ a inv.placed.unique held a_lt refl));
          complete = λ q q_real. (elim (ℕ_discrete q key) [
            | yes e ↦ let same : (q == key) ≡ true = ground arith in inl (rw same refl)
            | no ne ↦
                let other : (q == key) ≡ false = ground arith in
                elim (view-cases blank m.slots q) [
                  | inl (z, absent) ↦ inl (rw other z)
                  | inr (a, a_lt, e, seen) ↦
                      inr (a, a_lt, (λ x. ne (sym e ∙ ap (key_at blank m.slots) x ∙ here)), e)
                ]
          ]);
          reach = λ a b a_lt b_lt _ held near. inv.placed.reach a b a_lt b_lt held near;
        };
        j_lt = i_lt;
        behind = λ a a_lt off held crossed. (elim (ℕ_discrete (dist (length m.slots) i a) 0) [
          | yes z ↦ absurd (off (sym (dist-eq_zero (length m.slots) i a i_lt a_lt z)))
          | no nz ↦ omega (arith, dist_self (length m.slots) i)
        ]);
      }

    erase_at-Erased :
        (p : Probe)
        → Ended blank m.slots (index key m.mask) key p
        → (r : FlatMap64 V × Bool) × (erase_at blank m p ≡ some r) × Erased m key r.0 r.1
    unfolding erase_at
    erase_at-Erased (vacant i) ended =
        absent_case (outcome_of blank m.slots m.mask key (vacant i) inv.placed real ended)
      where
        absent_case :
            Outcome blank m.slots key (vacant i)
            → (r : FlatMap64 V × Bool) × (erase_at blank m (vacant i) ≡ some r)
              × Erased m key r.0 r.1
        absent_case (nowhere i absent seen) = (
          (m, false),
          refl,
          record {
            valid = inv;
            held = rw seen refl;
            size = refl;
            reads = λ q q_real. elim (ℕ_discrete q key) [
              | yes e ↦
                  let same : (q == key) ≡ true = ground arith in
                  rw same (ap (view m.slots) e ∙ seen)
              | no ne ↦ let other : (q == key) ≡ false = ground arith in rw other refl
            ];
          },
        )
    erase_at-Erased (hit i) (i_lt, here) =
        let n = length m.slots in
        let (e, e_lt, free) = vacant_slot blank m.slots (rw inv.counted inv.room) in
        let apart : dist n i e ≢ 0 = λ z.
          (let same = dist-eq_zero n i e i_lt e_lt z in
            real (sym here ∙ ap (key_at blank m.slots) same ∙ free)) in
        let reached = dist-lt n i e i_lt e_lt in
        let (t, last, run, w) =
          shift_lem blank target n m.slots m.mask i i e (open-IsShifting i i_lt here) e_lt free
            (omega (arith, dist_self n i)) (omega arith) in
        let v = (slot_at blank t last).value in
        let width = length-set t last (record { key = empty_key; value = v }) in
        let seen = view-Present blank m.slots key i inv.placed.unique real i_lt here in
        let fewer = count-freed target t m.mask last w.holed v in
        (
          (record m { slots = freed target t m.mask last w.holed v; size = m.size - 1 }, true),
          rw run refl,
          record {
            valid = record {
              placed = freed-IsPlaced target t m.mask last w.holed v w.clear;
              counted = omega (arith, w.counted, inv.counted);
              room = omega (arith, w.width, width, inv.room);
              limit = rw (width, w.width) inv.limit;
            };
            held = rw seen refl;
            size = omega (arith, w.counted, inv.counted);
            reads = view-freed target t m.mask last w.holed v;
          },
        )

    -- From a valid map, `erase` of a key other than the reserved one returns a valid map and
    -- whether the key had a value. The key has none afterwards, every other key has the value that
    -- it had, and the size is one less exactly when the key had a value.
    pub erase-Erased :
        (r : FlatMap64 V × Bool) × (erase blank m key ≡ some r) × Erased m key r.0 r.1
    unfolding erase
    erase-Erased =
        let (p, run, ended) = probed blank m inv key real in
        let (r, done, e) = erase_at-Erased p ended in
        let located =
          locate-probe blank (length m.slots) m.slots m.mask key (index key m.mask) real in
        (r, rw (located, run) done, e)
