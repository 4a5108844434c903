-- ===== src/Engine/Watches/Evict.antt =====
-- `activate_watch`: a free slot, or the slot of the oldest story, becomes the watch of a symbol.
use stok.Base.{
  ℕ, zero, suc, ◌+◌, ◌-◌, ◌<◌, ◌≤◌, ◌≡◌, ◌≢◌, inl, inr, refl, sym, ◌∙◌, ap, Bool, true, false,
  Option, none, some, List, [], ◌∷◌, ◌++◌, arith, ltb, ◌==◌, if◌then◌else◌, Bool-cases, ltb→lt,
  length, get_or, replicate, length-set, length-append, length-replicate,
}
use native.Mathlib.Decide.{ℕ_discrete}
use stok.Engine.Double.{Double}
use stok.Engine.Watches.{
  back, Watch, no_watch, Pool, slot, make, find_watch, deactivate_watch, oldest_from, make_room,
  take_slot, activate_watch,
}
use stok.Engine.Watches.Vectors.{
  one_if, count, count-append, count-pop_back, length-pop_back, count-get_or, count-all_slots,
  length-all_slots, position,
}
use stok.Engine.Watches.Valid.{
  IsValid, deactivate_watch-Deactivated, slot-set_ne, slot-set_self, some_inj, none-some,
}

if_none : {x : Option ℕ} (b : Bool) → x ≡ none → (if b then none else x) ≡ none
if_none true e = refl
if_none false e = e

module _ (D : Double) where
  -- The new watch has the slot, and the others are as before.
  pub record Taken (p : Pool D) (sym : ℕ) (r : Pool D) (idx : ℕ) : Type 0 where
    pub valid : IsValid D r
    pub reset : slot D r idx ≡ record (no_watch D) { active = true; sym = sym }
    pub found : (s : ℕ) → find_watch D r s ≡ (if s == sym then some idx else find_watch D p s)
    pub one_more : (i : ℕ) → count i r.active ≡ count i p.active + one_if i idx
    pub kept : (i : ℕ) → i ≢ idx → slot D r i ≡ slot D p i

  module _ (p : Pool D) (valid : IsValid D p) (sym_of : ℕ) (absent : find_watch D p sym_of ≡ none)
      (some_free : 0 < length p.free) where
    abbrev idx : ℕ
    idx = back p.free

    idx_free : 0 < count idx p.free
    idx_free = ground (arith, count-pop_back idx p.free some_free)

    idx_unused : count idx p.active ≡ 0
    idx_unused = let f = idx_free in ground (arith, valid.once idx)

    idx_lt : idx < length p.slots
    idx_lt = let f = idx_free in ground (arith, valid.once idx)

    take_slot-Taken : let r = take_slot D p sym_of in Taken p sym_of r.0 r.1
    unfolding take_slot find_watch
    take_slot-Taken =
        let w : Watch D = record (no_watch D) { active = true; sym = sym_of } in
        let r = (take_slot D p sym_of).0 in
        let lt = idx_lt in
        let unused = idx_unused in
        let active_at = λ (i : ℕ). count-append i p.active (idx ∷ []) in
        let free_at = λ (i : ℕ). count-pop_back i p.free some_free in
        let here : slot D r idx ≡ w = slot-set_self D p valid idx w lt in
        let apart : (i : ℕ) → 0 < count i p.active → idx ≢ i =
          λ i h e. (ground (arith, ap (λ (j : ℕ). count j p.active) e)) in
        record {
          valid = record {
            width = omega (
              arith,
              length-append p.active (idx ∷ []),
              length-pop_back p.free,
              length-set p.slots idx w,
              valid.width,
            );
            once =
                λ i. ground (arith, active_at i, free_at i, valid.once i, length-set p.slots idx w);
            in_use = λ i h. elim (ℕ_discrete idx i) [
              | yes e ↦
                  ap (λ (j : ℕ). (slot D r j).active) (sym e) ∙ ap (λ (x : Watch D). x.active) here
              | no ne ↦
                  ap (λ (x : Watch D). x.active) (slot-set_ne D p valid idx i w lt ne)
                  ∙ valid.in_use i (ground (arith, active_at i))
            ];
            unused = λ i i_lt h.
                (let ne : idx ≢ i = λ e. (ground (arith, active_at i, e)) in
                  ap (λ (x : Watch D). x.active) (slot-set_ne D p valid idx i w lt ne)
                  ∙ valid.unused i (omega (arith, length-set p.slots idx w))
                      (ground (arith, active_at i)));
            indexed = λ i h. elim (ℕ_discrete idx i) [
              | yes e ↦
                  let same : (sym_of == sym_of) ≡ true = ground arith in
                  ap (λ (j : ℕ). find_watch D r (slot D r j).sym) (sym e)
                  ∙ ap (λ (x : Watch D). find_watch D r x.sym) here
                  ∙ rw same (ap (λ (j : ℕ). some j) e)
              | no ne ↦
                  let before = valid.indexed i (ground (arith, active_at i)) in
                  let other : ((slot D p i).sym == sym_of) ≡ false =
                    (let differ : (slot D p i).sym ≢ sym_of =
                        λ e. none-some (sym absent ∙ ap (find_watch D p) (sym e) ∙ before) in
                      ground arith) in
                  ap (λ (x : Watch D). find_watch D r x.sym) (slot-set_ne D p valid idx i w lt ne)
                  ∙ rw other before
            ];
            exact = λ s i e. elim (ℕ_discrete s sym_of) [
              | yes same ↦
                  let named : (s == sym_of) ≡ true = ground arith in
                  let at : idx ≡ i = some_inj (rw named at e) in
                  (
                    ground (arith, active_at i),
                    ap (λ (j : ℕ). (slot D r j).sym) (sym at)
                        ∙ ap (λ (x : Watch D). x.sym) here
                        ∙ sym same,
                  )
              | no ne ↦
                  let other : (s == sym_of) ≡ false = ground arith in
                  let (used, at) = valid.exact s i (rw other at e) in
                  (
                    omega (arith, active_at i),
                    ap (λ (x : Watch D). x.sym) (slot-set_ne D p valid idx i w lt (apart i used))
                        ∙ at,
                  )
            ];
          };
          reset = here;
          found = λ s. refl;
          one_more = λ i. omega (arith, active_at i);
          kept = λ i ne. slot-set_ne D p valid idx i w lt (λ e. ne (sym e));
        }

  -- When the watch at a position of `active_` was told of its story.
  abbrev time_at : Pool D → ℕ → ℕ
  time_at p k = (slot D p (get_or p.active k 0)).t_news

  oldest_lem :
      (p : Pool D) (n k o : ℕ)
      → o < k
      → ((j : ℕ) → j < k → time_at p o ≤ time_at p j)
      → let r = oldest_from D p n k o in
        (r < k + n) × ((j : ℕ) → j < k + n → time_at p r ≤ time_at p j)
  unfolding oldest_from
  oldest_lem p zero k o lt least = (omega arith, λ j h. least j (omega arith))
  oldest_lem p (suc n) k o lt least =
      let at = λ (r : ℕ). (r < k + suc n) × ((j : ℕ) → j < k + suc n → time_at p r ≤ time_at p j) in
      elim (Bool-cases (ltb (time_at p k) (time_at p o))) [
        | inl t ↦
            let sooner = ltb→lt (time_at p k) (time_at p o) t in
            let rest = oldest_lem p n (k + 1) k (omega arith) (λ j h. elim (ℕ_discrete j k) [
              | yes e ↦ rw e (omega arith)
              | no ne ↦ let before = least j (omega arith) in omega arith
            ]) in
            rw t (omega (arith, rest.0), λ j h. rest.1 j (omega arith))
        | inr t ↦
            let later : time_at p o ≤ time_at p k = ground arith in
            let rest = oldest_lem p n (k + 1) o (omega arith) (λ j h. elim (ℕ_discrete j k) [
              | yes e ↦ rw e later
              | no ne ↦ least j (omega arith)
            ]) in
            rw t (omega (arith, rest.0), λ j h. rest.1 j (omega arith))
      ]

  make_room_full :
      (p : Pool D)
      → p.free ≡ []
      → make_room D p ≡ deactivate_watch D p (oldest_from D p (length p.active - 1) 1 0)
  unfolding make_room
  make_room_full p e = rw e refl

  make_room_free : (p : Pool D) (x : ℕ) (xs : List ℕ) → p.free ≡ x ∷ xs → make_room D p ≡ p
  unfolding make_room
  make_room_free p x xs e = rw e refl

  -- What `activate_watch` does to the pool `p`.
  pub record Activated (p : Pool D) (sym : ℕ) (r : Pool D) (idx : ℕ) : Type 0 where
    pub valid : IsValid D r
    pub found : find_watch D r sym ≡ some idx
    pub reset : slot D r idx ≡ record (no_watch D) { active = true; sym = sym }
    pub others : (i : ℕ) → i ≢ idx → slot D r i ≡ slot D p i
    pub roomy : 0 < length p.free → (s : ℕ) → s ≢ sym → find_watch D r s ≡ find_watch D p s
    pub full :
        length p.free ≡ 0
        → (0 < count idx p.active)
          × ((i : ℕ) → 0 < count i p.active → (slot D p idx).t_news ≤ (slot D p i).t_news)
          × ((s : ℕ)
              → s ≢ sym
              → find_watch D r s ≡ (if s == (slot D p idx).sym then none else find_watch D p s))

  activated_with :
      (p q : Pool D) (sym : ℕ) → make_room D p ≡ q → activate_watch D p sym ≡ take_slot D q sym
  unfolding activate_watch
  activated_with p q sym e = ap (λ (x : Pool D). take_slot D x sym) e

  abbrev Fitting : Pool D → ℕ → Pool D × ℕ → Type 0
  Fitting p sym r = Activated p sym r.0 r.1

  take_slot_idx : (q : Pool D) (s : ℕ) → (take_slot D q s).1 ≡ back q.free
  unfolding take_slot
  take_slot_idx q s = refl

  free_after :
      (p : Pool D) (k : ℕ) → (deactivate_watch D p k).free ≡ p.free ++ (get_or p.active k 0 ∷ [])
  unfolding deactivate_watch
  free_after p k = refl

  module _ (p : Pool D) (valid : IsValid D p) (sym_of : ℕ)
      (absent : find_watch D p sym_of ≡ none) where
    activated_free :
        (x : ℕ) (xs : List ℕ) → p.free ≡ x ∷ xs → Fitting p sym_of (activate_watch D p sym_of)
    activated_free x xs e =
        let room : 0 < length p.free = omega (arith, ap (λ (l : List ℕ). length l) e) in
        let t = take_slot-Taken p valid sym_of absent room in
        let named : (sym_of == sym_of) ≡ true = ground arith in
        rw (activated_with p p sym_of (make_room_free p x xs e)) record {
          valid = t.valid;
          found = t.found sym_of ∙ rw named refl;
          reset = t.reset;
          others = t.kept;
          roomy = λ some_free s ne.
              (let other : (s == sym_of) ≡ false = ground arith in t.found s ∙ rw other refl);
          full = λ z. absurd (omega arith);
        }

    activated_full : p.free ≡ [] → 0 < length p.slots → Fitting p sym_of (activate_watch D p sym_of)
    activated_full e some_slot =
        let none_free : length p.free ≡ 0 = ap (λ (l : List ℕ). length l) e in
        let k = oldest_from D p (length p.active - 1) 1 0 in
        let (k_in, least) =
          oldest_lem p (length p.active - 1) 1 0 (omega arith)
            (λ j h. (let z : j ≡ 0 = omega arith in rw z (omega arith))) in
        let k_lt : k < length p.active = omega (arith, valid.width) in
        let d = deactivate_watch-Deactivated D p valid k k_lt in
        let q = deactivate_watch D p k in
        let old = get_or p.active k 0 in
        let gone : find_watch D q sym_of ≡ none = d.found_after sym_of ∙ if_none _ absent in
        let t = take_slot-Taken q d.valid_after sym_of gone d.has_free in
        let same : (take_slot D q sym_of).1 ≡ old =
          take_slot_idx q sym_of
          ∙ ap back (free_after p k)
          ∙ ap (λ (l : List ℕ). back (l ++ (old ∷ []))) e in
        let named : (sym_of == sym_of) ≡ true = ground arith in
        rw (activated_with p q sym_of (make_room_full p e)) record {
          valid = t.valid;
          found = t.found sym_of ∙ rw named refl;
          reset = t.reset;
          others = λ i ne. t.kept i ne ∙ d.kept i (λ b. ne (b ∙ sym same));
          roomy = λ some_free. absurd (omega arith);
          full = λ z.
              (rw same (
                count-get_or p.active k k_lt,
                λ i h.
                    (let (j, j_lt, at) = position i p.active h in
                      let when : time_at p j ≡ (slot D p i).t_news =
                        ap (λ (x : ℕ). (slot D p x).t_news) at in
                      let no_later = least j (omega arith) in omega arith),
                λ s ne.
                    (let other : (s == sym_of) ≡ false = ground arith in
                      t.found s ∙ rw other (d.found_after s)),
              ));
        }

    -- From a whole pool with a slot, for a symbol that is not watched, `activate_watch` leaves a
    -- whole pool in which the symbol is found at a reset slot and every other slot is as it was.
    -- With a free slot, every other symbol is found as before. With none, the slot is that of a
    -- watched story that is no newer than any other; its symbol is no longer found, and the rest
    -- are found as before.
    pub activate_watch-Activated :
        0 < length p.slots → let r = activate_watch D p sym_of in Activated p sym_of r.0 r.1
    activate_watch-Activated some_slot = go p.free refl
      where
        go : (l : List ℕ) → p.free ≡ l → Fitting p sym_of (activate_watch D p sym_of)
        go [] e = activated_full e some_slot
        go (x ∷ xs) e = activated_free x xs e

  -- The pool of the constructor.
  pub make-IsValid : (n : ℕ) → IsValid D (make D n)
  unfolding make find_watch
  make-IsValid n = record {
    width = omega (arith, length-all_slots n, length-replicate n (no_watch D));
    once = λ i. (rw (length-replicate n (no_watch D)) (omega (arith, count-all_slots i n)));
    in_use = λ i h. absurd (omega arith);
    unused = λ i i_lt h. ap (λ (w : Watch D). w.active) (all_blank n i);
    indexed = λ i h. absurd (omega arith);
    exact = λ s i e. absurd (none-some e);
  }
    where
      all_blank : (n i : ℕ) → get_or (replicate n (no_watch D)) i (no_watch D) ≡ no_watch D
      all_blank zero i = refl
      all_blank (suc n) zero = refl
      all_blank (suc n) (suc i) = all_blank n i
