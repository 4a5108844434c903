-- ===== src/Core/Flat/Methods.antt =====
-- `find`, and where `try_emplace` puts a key: what they do to the map from keys to values.
use stok.Base.{
  ℕ, ◌+◌, ◌<◌, ◌≡◌, ◌≢◌, inr, refl, sym, Bool, true, false, ◌∙◌, ap, Option, none, some, List,
  arith, ◌==◌, if◌then◌else◌, length, length-set, not,
}
use native.Mathlib.Decide.{ℕ_discrete}
use stok.Core.Flat.{
  empty_key, Slot, FlatMap64, Probe, hit, vacant, index, key_at, slot_at, probe, find, emplace_at,
  pointer, is_some,
}
use stok.Core.Flat.Slots.{Absent, count, used, view, count-set, view-Absent, view-Present}
use stok.Core.Flat.Probing.{Ended, probe-Ended}
use stok.Core.Flat.Placed.{IsPlaced, vacant-Absent, fill-IsPlaced, view-set, key_at-set}
use stok.Core.Flat.Refilling.{or_else}

-- The value behind a pointer that may be null.
abbrev pub deref {ℓ} : {V : Type ℓ} → V → List (Slot V) → Option ℕ → Option V
deref blank s none = none
deref blank s (some i) = some (slot_at blank s i).value

module _ {ℓ} {V : Type ℓ} (blank : V) where
  pub record IsValid (m : FlatMap64 V) : Type 0 where
    pub placed : IsPlaced blank m.slots m.mask
    pub counted : count m.slots ≡ m.size
    pub room : m.size < length m.slots
    pub limit : m.grow_at < length m.slots

  -- Where a probe for a key ends in slots in order.
  pub data Outcome (s : List (Slot V)) (key : ℕ) : Probe → Type ℓ where
    there :
        (i : ℕ)
        → i < length s
        → key_at blank s i ≡ key
        → view s key ≡ some (slot_at blank s i).value
        → Outcome s key (hit i)
    nowhere : (i : ℕ) → Absent blank s key → view s key ≡ none → Outcome s key (vacant i)

  pub outcome_of :
      (s : List (Slot V)) (mask key : ℕ) (p : Probe)
      → IsPlaced blank s mask
      → key ≢ empty_key
      → Ended blank s (index key mask) key p
      → Outcome s key p
  outcome_of s mask key (hit i) placed real (i_lt, e) =
      there i i_lt e (view-Present blank s key i placed.unique real i_lt e)
  outcome_of s mask key (vacant i) placed real ended =
      let absent = vacant-Absent blank s mask key i placed real ended in
      nowhere i absent (view-Absent blank s key absent)

  -- What `try_emplace` does: the map, the pointer and the flag that it returns.
  pub record Emplaced (m : FlatMap64 V) (key : ℕ) (r : FlatMap64 V) (i : ℕ) (inserted : Bool)
      : Type ℓ where
    pub valid : IsValid r
    pub pointed : (i < length r.slots) × (key_at blank r.slots i ≡ key)
    pub fresh : inserted ≡ not (is_some (view m.slots key))
    pub size : r.size ≡ (if inserted then m.size + 1 else m.size)
    pub reads :
        (q : ℕ)
        → q ≢ empty_key
        → view r.slots q
          ≡ (if q == key then or_else (view m.slots key) (some blank) else view m.slots q)

  module _ (m : FlatMap64 V) (inv : IsValid m) (key : ℕ) (real : key ≢ empty_key) where
    pub probed :
        (p : Probe) × (probe blank (length m.slots) m.slots m.mask key (index key m.mask) ≡ some p)
        × Ended blank m.slots (index key m.mask) key p
    probed = probe-Ended blank m.slots m.mask key inv.placed.ring (rw inv.counted inv.room)

    -- `find` returns, and points to the key's value when there is one.
    pub find-view :
        (p : Option ℕ) × (find blank m key ≡ some p) × (deref blank m.slots p ≡ view m.slots key)
    unfolding find pointer
    find-view =
        let (p, run, ended) = probed in
        (pointer p, rw run refl, go (outcome_of m.slots m.mask key p inv.placed real ended))
      where
        go :
            {p : Probe} → Outcome m.slots key p → deref blank m.slots (pointer p) ≡ view m.slots key
        go (there i i_lt e seen) = sym seen
        go (nowhere i absent seen) = sym seen

    pub emplace_at-Emplaced :
        (p : Probe)
        → m.size + 1 < length m.slots
        → Ended blank m.slots (index key m.mask) key p
        → let r = emplace_at blank m key p in Emplaced m key r.0 r.1 r.2
    unfolding emplace_at
    emplace_at-Emplaced p enough ended =
        go (outcome_of m.slots m.mask key p inv.placed real ended) ended
      where
        go :
            {p : Probe}
            → Outcome m.slots key p
            → Ended blank m.slots (index key m.mask) key p
            → let r = emplace_at blank m key p in Emplaced m key r.0 r.1 r.2
        go (there i i_lt e seen) ended = record {
          valid = inv;
          pointed = (i_lt, e);
          fresh = rw seen refl;
          size = refl;
          reads = λ q q_real. elim (ℕ_discrete q key) [
            | yes e ↦
                let same : (q == key) ≡ true = ground arith in
                rw (same, seen) (ap (view m.slots) e ∙ seen)
            | no ne ↦ let other : (q == key) ≡ false = ground arith in rw other refl
          ];
        }
        go (nowhere i absent seen) ended =
            let x : Slot V = record { key = key; value = blank } in
            let i_lt = ended.0 in
            let width = length-set m.slots i x in
            let placed = fill-IsPlaced blank m.slots m.mask i x inv.placed real ended in
            record {
              valid = record {
                placed = placed;
                counted =
                    (let free_there : used (key_at blank m.slots i) ≡ 0 = rw ended.1 refl in
                      let one : used key ≡ 1 = ground arith in
                      omega (arith, count-set blank m.slots i x i_lt, inv.counted));
                room = rw width enough;
                limit = rw width inv.limit;
              };
              pointed = (rw width i_lt, ground (arith, key_at-set blank m.slots i i x i_lt));
              fresh = rw seen refl;
              size = refl;
              reads = λ q q_real.
                  (let seen_there =
                      view-set blank m.slots m.mask i x inv.placed real i_lt placed.unique
                        (inr (ended.1, absent)) q q_real in
                    rw (seen_there, seen) refl);
            }
