-- ===== src/Engine/Watches/Valid.antt =====
-- The pool of watches is kept whole: each slot is in use or free, and the index names the slots in use.
use stok.Base.{
  ℕ, ◌+◌, ◌<◌, ◌≡◌, ◌≢◌, refl, sym, ◌∙◌, ap, true, false, Option, none, some, [], ◌∷◌, arith, ltb,
  ◌==◌, if◌then◌else◌, length, set, get_or, length-set, length-append, get_or-set,
}
use native.Mathlib.Decide.{ℕ_discrete}
use stok.Engine.Double.{Double}
use stok.Engine.Watches.{back, Watch, no_watch, Pool, slot, find_watch, deactivate_watch}
use stok.Engine.Watches.Vectors.{
  one_if, count, count-append, length-pop_back, count-swap_remove, count-get_or,
}

pub some_inj : {i j : ℕ} → ◌≡◌ {A = Option ℕ} (some i) (some j) → i ≡ j
some_inj e = cc

pub none-some : {i : ℕ} → ◌≡◌ {A = Option ℕ} none (some i) → ⊥
none-some e = cc

module _ (D : Double) where
  pub record IsValid (p : Pool D) : Type 0 where
    pub width : length p.active + length p.free ≡ length p.slots
    pub once :
        (i : ℕ) → count i p.active + count i p.free ≡ (if ltb i (length p.slots) then 1 else 0)
    pub in_use : (i : ℕ) → 0 < count i p.active → (slot D p i).active ≡ true
    pub unused : (i : ℕ) → i < length p.slots → count i p.active ≡ 0 → (slot D p i).active ≡ false
    pub indexed : (i : ℕ) → 0 < count i p.active → find_watch D p (slot D p i).sym ≡ some i
    pub exact :
        (s i : ℕ) → find_watch D p s ≡ some i → (0 < count i p.active) × ((slot D p i).sym ≡ s)

  module _ (p : Pool D) (valid : IsValid p) where
    slot-set :
        (i j : ℕ) (w : Watch D)
        → i < length p.slots
        → get_or (set p.slots i w) j (no_watch D) ≡ (if i == j then w else slot D p j)
    slot-set i j w h = get_or-set p.slots i j w (no_watch D) h

    pub slot-set_ne :
        (i j : ℕ) (w : Watch D)
        → i < length p.slots
        → i ≢ j
        → get_or (set p.slots i w) j (no_watch D) ≡ slot D p j
    slot-set_ne i j w h ne =
        let other : (i == j) ≡ false = ground arith in slot-set i j w h ∙ rw other refl

    pub slot-set_self :
        (i : ℕ) (w : Watch D) → i < length p.slots → get_or (set p.slots i w) i (no_watch D) ≡ w
    slot-set_self i w h =
        let same : (i == i) ≡ true = ground arith in slot-set i i w h ∙ rw same refl

    -- Two slots in use have different symbols.
    sym_inj :
        (i j : ℕ)
        → 0 < count i p.active
        → 0 < count j p.active
        → (slot D p i).sym ≡ (slot D p j).sym
        → i ≡ j
    sym_inj i j hi hj e =
        some_inj (sym (valid.indexed i hi) ∙ ap (find_watch D p) e ∙ valid.indexed j hj)

    -- The watch at a position of `active_` is taken out of the pool, and no other.
    pub record Deactivated (idx : ℕ) (r : Pool D) : Type 0 where
      pub valid_after : IsValid r
      pub freed : (i : ℕ) → count i r.active + one_if i idx ≡ count i p.active
      pub width_after : length r.slots ≡ length p.slots
      pub has_free : 0 < length r.free
      pub found_after :
          (s : ℕ) → find_watch D r s ≡ (if s == (slot D p idx).sym then none else find_watch D p s)
      pub kept : (i : ℕ) → i ≢ idx → slot D r i ≡ slot D p i

    module _ (k : ℕ) (k_lt : k < length p.active) where
      abbrev idx : ℕ
      idx = get_or p.active k 0

      idx_used : 0 < count idx p.active
      idx_used = count-get_or p.active k k_lt

      idx_lt : idx < length p.slots
      idx_lt = let u = idx_used in ground (arith, valid.once idx)

      pub deactivate_watch-Deactivated : Deactivated idx (deactivate_watch D p k)
      unfolding deactivate_watch find_watch
      deactivate_watch-Deactivated =
          let w : Watch D = record (slot D p idx) { active = false } in
          let active_at = λ (i : ℕ). count-swap_remove i p.active k k_lt in
          let free_at = λ (i : ℕ). count-append i p.free (idx ∷ []) in
          let r = deactivate_watch D p k in
          let u = idx_used in
          let freed_flag : (slot D r idx).active ≡ false =
            ap (λ (x : Watch D). x.active) (slot-set_self idx w idx_lt) in
          let apart : (i : ℕ) → 0 < count i r.active → idx ≢ i =
            λ i h same. (ground (arith, active_at i, valid.once i, ap (one_if i) same)) in
          let still : (i : ℕ) → 0 < count i r.active → 0 < count i p.active =
            λ i h. (omega (arith, active_at i)) in
          record {
            valid_after = record {
              width = omega (
                arith,
                length-pop_back (set p.active k (back p.active)),
                length-set p.active k (back p.active),
                length-append p.free (idx ∷ []),
                length-set p.slots idx w,
                valid.width,
              );
              once = λ i.
                  ground (arith, active_at i, free_at i, valid.once i, length-set p.slots idx w);
              in_use = λ i h.
                  (ap (λ (x : Watch D). x.active) (slot-set_ne idx i w idx_lt (apart i h))
                    ∙ valid.in_use i (still i h));
              unused = λ i i_lt h. elim (ℕ_discrete idx i) [
                | yes e ↦ ap (λ (j : ℕ). (slot D r j).active) (sym e) ∙ freed_flag
                | no ne ↦
                    ap (λ (x : Watch D). x.active) (slot-set_ne idx i w idx_lt ne)
                    ∙ valid.unused i (omega (arith, length-set p.slots idx w))
                        (ground (arith, active_at i))
              ];
              indexed = λ i h.
                  (let same = slot-set_ne idx i w idx_lt (apart i h) in
                    let kept = valid.indexed i (still i h) in
                    let other : ((slot D p i).sym == (slot D p idx).sym) ≡ false =
                      (let ne : (slot D p i).sym ≢ (slot D p idx).sym =
                          λ e. apart i h (sym (sym_inj i idx (still i h) u e)) in
                        ground arith) in
                    ap (λ (x : Watch D). find_watch D r x.sym) same ∙ rw other kept);
              exact = λ s i e. elim (ℕ_discrete s (slot D p idx).sym) [
                | yes same ↦
                    let gone : (s == (slot D p idx).sym) ≡ true = ground arith in
                    absurd (none-some (rw gone at e))
                | no ne ↦
                    let other : (s == (slot D p idx).sym) ≡ false = ground arith in
                    let (used, at) = valid.exact s i (rw other at e) in
                    let away : idx ≢ i =
                      λ b. ne (sym at ∙ ap (λ (j : ℕ). (slot D p j).sym) (sym b)) in
                    (
                      ground (arith, active_at i),
                      ap (λ (x : Watch D). x.sym) (slot-set_ne idx i w idx_lt away) ∙ at,
                    )
              ];
            };
            freed = active_at;
            width_after = length-set p.slots idx w;
            has_free = omega (arith, length-append p.free (idx ∷ []));
            found_after = λ s. refl;
            kept = λ i ne. slot-set_ne idx i w idx_lt (λ e. ne (sym e));
          }
