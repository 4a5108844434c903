-- ===== src/Market/Orders/Sums.antt =====
-- Sums over the values of a `FlatMap64` (src/core/flat_hash.hpp), slot by slot: they depend on nothing but
-- the map that the slots stand for.
use stok.Base.{
  ℕ, suc, ◌+◌, ◌≤◌, ◌≡◌, ◌≢◌, refl, sym, ◌∙◌, ap, Bool, true, false, ◌||◌, inl, inr, Option, none,
  some, List, [], ◌∷◌, arith, ◌==◌, if◌then◌else◌, Bool-cases,
}
use stok.Core.Flat.{empty_key, Slot, for_each}
use stok.Core.Flat.Slots.{view, Absent, IsUnique}
use stok.Core.Flat.Refilling.{IsUnique-tail, head-Absent}

abbrev pub at {ℓ} : {V : Type ℓ} → (V → ℕ) → Option V → ℕ
at f none = 0
at f (some v) = f v

-- A value for a pair of `for_each`.
abbrev pub sum {ℓ} : {V : Type ℓ} → (V → ℕ) → List (ℕ × V) → ℕ
sum f [] = 0
sum f (e ∷ es) = f e.1 + sum f es

-- The keys left out, and one more.
abbrev also : (ℕ → Bool) → ℕ → ℕ → Bool
also out q k = out k || (k == q)

-- The sum over the slots in use whose key is not left out.
abbrev pub rest {ℓ} : {V : Type ℓ} → (ℕ → Bool) → (V → ℕ) → List (Slot V) → ℕ
rest out f [] = 0
rest out f (x ∷ s) = (if (x.key == empty_key) || out x.key then 0 else f x.value) + rest out f s

abbrev pub nothing : ℕ → Bool
nothing k = false

skipped-ne :
    (out : ℕ → Bool) (k q : ℕ)
    → ((k == empty_key) || out k) ≡ true
    → q ≢ empty_key
    → out q ≡ false
    → k ≢ q
skipped-ne out k q e real inside b =
    let at_q : ((q == empty_key) || out q) ≡ true = rw b at e in
    let other : (q == empty_key) ≡ false = ground arith in absurd (cc)

kept-real : (out : ℕ → Bool) (k : ℕ) → ((k == empty_key) || out k) ≡ false → k ≢ empty_key
kept-real out k e = ground arith

kept-inside : (out : ℕ → Bool) (k : ℕ) → ((k == empty_key) || out k) ≡ false → out k ≡ false
kept-inside out k e = ground arith

also-ne : (out : ℕ → Bool) (k q : ℕ) → also out k q ≡ false → q ≢ k
also-ne out k q e = ground arith

also-inside : (out : ℕ → Bool) (k q : ℕ) → also out k q ≡ false → out q ≡ false
also-inside out k q e = ground arith

some-none {ℓ} : {V : Type ℓ} {v : V} → ◌≡◌ {A = Option V} (some v) none → ⊥
some-none e = cc

view-tail {ℓ} :
    {V : Type ℓ} (x : Slot V) (s : List (Slot V)) (q : ℕ) → x.key ≢ q → view (x ∷ s) q ≡ view s q
unfolding view
view-tail x s q ne = let other : (x.key == q) ≡ false = ground arith in rw other refl

view-head {ℓ} : {V : Type ℓ} (x : Slot V) (s : List (Slot V)) → view (x ∷ s) x.key ≡ some x.value
unfolding view
view-head x s = let own : (x.key == x.key) ≡ true = ground arith in rw own refl

module _ {ℓ} {V : Type ℓ} (blank : V) (f : V → ℕ) where
  pub sum-for_each : (s : List (Slot V)) → sum f (for_each blank s) ≡ rest nothing f s
  unfolding for_each
  sum-for_each [] = refl
  sum-for_each (x ∷ s) = elim (Bool-cases (x.key == empty_key)) [
    | inl e ↦ rw e (omega (arith, sum-for_each s))
    | inr e ↦ rw e (omega (arith, sum-for_each s))
  ]

  -- To leave out a key that is not there changes nothing.
  rest-Absent :
      (out : ℕ → Bool) (q : ℕ) (s : List (Slot V))
      → Absent blank s q
      → rest out f s ≡ rest (also out q) f s
  rest-Absent out q [] a = refl
  rest-Absent out q (x ∷ s) a =
      let other : (x.key == q) ≡ false = (let ne = a 0 (omega arith) in ground arith) in
      let ih = rest-Absent out q s (λ i h. a (suc i) (omega arith)) in rw (other, ih) (ground arith)

  -- A key's share of the sum.
  rest-view :
      (out : ℕ → Bool) (q : ℕ) (s : List (Slot V))
      → IsUnique blank s
      → q ≢ empty_key
      → out q ≡ false
      → rest out f s ≡ rest (also out q) f s + at f (view s q)
  unfolding view
  rest-view out q [] u real inside = refl
  rest-view out q (x ∷ s) u real inside = elim (Bool-cases (x.key == q)) [
    | inl e ↦
        let same : x.key ≡ q = ground arith in
        let kept : (x.key == empty_key) ≡ false = ground arith in
        let own : out x.key ≡ false = ap out same ∙ inside in
        let absent = head-Absent blank x s u (λ b. real (sym same ∙ b)) in
        let ih = rest-Absent out q s (λ i h b. absent i h (b ∙ sym same)) in
        rw (e, kept, own) (omega (arith, ih))
    | inr e ↦
        let ih = rest-view out q s (IsUnique-tail blank x s u) real inside in
        rw e (ground (arith, ih))
  ]

  pub rest-none :
      (out : ℕ → Bool) (s : List (Slot V))
      → ((q : ℕ) → q ≢ empty_key → out q ≡ false → view s q ≡ none)
      → rest out f s ≡ 0
  rest-none out [] h = refl
  rest-none out (x ∷ s) h = elim (Bool-cases ((x.key == empty_key) || out x.key)) [
    | inl e ↦
        let ih = rest-none out s (λ q real inside.
          sym (view-tail x s q (skipped-ne out x.key q e real inside)) ∙ h q real inside) in
        rw e (omega (arith, ih))
    | inr e ↦ absurd (
        some-none (sym (view-head x s) ∙ h x.key (kept-real out x.key e) (kept-inside out x.key e)))
  ]

  -- Slots that stand for the same map have the same sum.
  pub rest-cong :
      (out : ℕ → Bool) (s t : List (Slot V))
      → IsUnique blank s
      → IsUnique blank t
      → ((q : ℕ) → q ≢ empty_key → out q ≡ false → view s q ≡ view t q)
      → rest out f s ≡ rest out f t
  unfolding view
  rest-cong out [] t us ut h = sym (rest-none out t (λ q real inside. sym (h q real inside)))
  rest-cong out (x ∷ s) t us ut h = elim (Bool-cases ((x.key == empty_key) || out x.key)) [
    | inl e ↦
        let ih = rest-cong out s t (IsUnique-tail blank x s us) ut (λ q real inside.
          sym (view-tail x s q (skipped-ne out x.key q e real inside)) ∙ h q real inside) in
        rw e (omega (arith, ih))
    | inr e ↦
        let real = kept-real out x.key e in
        let inside = kept-inside out x.key e in
        let here : some x.value ≡ view t x.key = sym (view-head x s) ∙ h x.key real inside in
        let share = rest-view out x.key t ut real inside in
        let own : at f (view t x.key) ≡ f x.value = ap (at f) (sym here) in
        let apart = rest-Absent out x.key s (head-Absent blank x s us real) in
        let others =
          rest-cong (also out x.key) s t (IsUnique-tail blank x s us) ut (λ q q_real q_inside.
            (let q_ne = also-ne out x.key q q_inside in
              sym (view-tail x s q (λ b. q_ne (sym b)))
              ∙ h q q_real (also-inside out x.key q q_inside))) in
        rw e (omega (arith, share, own, apart, others))
  ]

  pub rest_mono :
      (out : ℕ → Bool) (g : V → ℕ)
      → ((v : V) → f v ≤ g v)
      → (s : List (Slot V)) → rest out f s ≤ rest out g s
  rest_mono out g h [] = omega arith
  rest_mono out g h (x ∷ s) = ground (arith, h x.value, rest_mono out g h s)

  module _ (s t : List (Slot V)) (us : IsUnique blank s) (ut : IsUnique blank t) (k : ℕ)
      (real : k ≢ empty_key) (o : Option V) where
    -- One key changed.
    pub sum-update :
        ((q : ℕ) → q ≢ empty_key → view t q ≡ (if q == k then o else view s q))
        → sum f (for_each blank t) + at f (view s k) ≡ sum f (for_each blank s) + at f o
    sum-update reads =
        let share_s = rest-view nothing k s us real refl in
        let share_t = rest-view nothing k t ut real refl in
        let own : (k == k) ≡ true = ground arith in
        let new : at f (view t k) ≡ at f o = ap (at f) (rw own at (reads k real)) in
        let others = rest-cong (also nothing k) t s ut us (λ q q_real q_inside.
          (let other : (q == k) ≡ false = ground arith in rw other at (reads q q_real))) in
        omega (arith, share_s, share_t, new, others, sum-for_each s, sum-for_each t)
