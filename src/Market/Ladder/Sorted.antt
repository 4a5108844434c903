-- ===== src/Market/Ladder/Sorted.antt =====
-- The invariant of a ladder: prices get strictly better along the vector, and no level is empty.
use stok.Base.{
  ℕ, ◌-◌, ◌<◌, ◌^◌, ◌≡◌, refl, sym, ap, ◌∙◌, Bool, true, false, none, some, List, [], ◌∷◌, leb,
  ◌==◌, if◌then◌else◌, length, set, arith, Bool-cases, Option-cases, inl, inr,
}
use native.Mathlib.Numerals.{sub-one}
use stok.Market.Ladder.{Level, SideLadder, erase_at, back, pop_back, worse, remove_back}
use stok.Market.Ladder.Spec.{raise, lower, remove_found-eq-lower}

-- Every level of the list is strictly better than price `p`.
abbrev pub AllBetter : Bool → ℕ → List Level → Type 0
AllBetter bid p [] = Unit {0}
AllBetter bid p (l ∷ ls) = (worse bid p l.price ≡ true) × AllBetter bid p ls

abbrev pub IsSorted : Bool → List Level → Type 0
IsSorted bid [] = Unit {0}
IsSorted bid (l ∷ ls) = AllBetter bid l.price ls × IsSorted bid ls

abbrev pub AllFilled : List Level → Type 0
AllFilled [] = Unit {0}
AllFilled (l ∷ ls) = (0 < l.qty) × (l.qty < 2 ^ 64) × AllFilled ls

pub record IsValid (s : SideLadder) : Type 0 where
  pub sorted : IsSorted s.bid s.lv
  pub filled : AllFilled s.lv

pub worse_trans :
    (bid : Bool) (a b c : ℕ) → worse bid a b ≡ true → worse bid b c ≡ true → worse bid a c ≡ true
unfolding worse
worse_trans bid a b c h k = ground arith

-- Of two prices neither of which is worse, each is the other.
pub not_worse :
    (bid : Bool) (a p : ℕ) → worse bid a p ≡ false → (a == p) ≡ false → worse bid p a ≡ true
unfolding worse
not_worse bid a p h k = ground arith

pub worse_irrefl : (bid : Bool) (a : ℕ) → worse bid a a ≡ false
unfolding worse
worse_irrefl bid a = ground arith

pub AllBetter-trans :
    (bid : Bool) (a p : ℕ) (ls : List Level)
    → worse bid a p ≡ true
    → AllBetter bid p ls
    → AllBetter bid a ls
AllBetter-trans bid a p [] w h = tt
AllBetter-trans bid a p (l ∷ ls) w h =
    (worse_trans bid a p l.price w h.0, AllBetter-trans bid a p ls w h.1)

raise-AllBetter :
    (bid : Bool) (a price qty : ℕ) (ls : List Level)
    → worse bid a price ≡ true
    → AllBetter bid a ls
    → AllBetter bid a (raise bid price qty ls)
unfolding raise
raise-AllBetter bid a price qty [] w h = (w, tt)
raise-AllBetter bid a price qty (l ∷ ls) w h =
    ground (arith, raise-AllBetter bid a price qty ls w h.1)

pub raise-IsSorted :
    (bid : Bool) (price qty : ℕ) (ls : List Level)
    → IsSorted bid ls
    → IsSorted bid (raise bid price qty ls)
unfolding raise
raise-IsSorted bid price qty [] h = (tt, tt)
raise-IsSorted bid price qty (l ∷ ls) h = ground (
  arith,
  raise-IsSorted bid price qty ls h.1,
  raise-AllBetter bid l.price price qty ls,
  not_worse bid l.price price,
  AllBetter-trans bid price l.price ls,
)

lower-AllBetter :
    (bid : Bool) (a price qty : ℕ) (ls : List Level)
    → AllBetter bid a ls
    → AllBetter bid a (lower bid price qty ls)
unfolding lower
lower-AllBetter bid a price qty [] h = tt
lower-AllBetter bid a price qty (l ∷ ls) h = ground (arith, lower-AllBetter bid a price qty ls h.1)

pub lower-IsSorted :
    (bid : Bool) (price qty : ℕ) (ls : List Level)
    → IsSorted bid ls
    → IsSorted bid (lower bid price qty ls)
unfolding lower
lower-IsSorted bid price qty [] h = tt
lower-IsSorted bid price qty (l ∷ ls) h =
    ground
      (arith, lower-IsSorted bid price qty ls h.1, lower-AllBetter bid l.price price qty ls h.0)

pub lower-AllFilled :
    (bid : Bool) (price qty : ℕ) (ls : List Level)
    → AllFilled ls
    → AllFilled (lower bid price qty ls)
unfolding lower
lower-AllFilled bid price qty [] h = tt
lower-AllFilled bid price qty (l ∷ ls) h = ground (arith, lower-AllFilled bid price qty ls h.2)

-- The touch of a ladder of two levels or more is that of its tail.
pub back-cons : (k m : Level) (ms : List Level) → back (k ∷ m ∷ ms) ≡ back (m ∷ ms)
unfolding back
back-cons k m ms = ground arith

pub back-AllBetter :
    (bid : Bool) (p : ℕ) (ls : List Level) {l : Level}
    → AllBetter bid p ls
    → back ls ≡ some l
    → worse bid p l.price ≡ true
unfolding back
back-AllBetter bid p [] h e = cc
back-AllBetter bid p (k ∷ []) h e = ground arith
back-AllBetter bid p (k ∷ m ∷ ms) h e =
    back-AllBetter bid p (m ∷ ms) h.1 (sym (back-cons k m ms) ∙ e)

-- What the fast path of `remove` does at the touch `l`.
abbrev at_touch : List Level → ℕ → Level → List Level
at_touch ls qty l =
    if leb l.qty qty then pop_back ls else set ls (length ls - 1) (record l { qty = l.qty - qty })

at_touch-cons :
    (k m : Level) (ms : List Level) (qty : ℕ) (l : Level)
    → at_touch (k ∷ m ∷ ms) qty l ≡ k ∷ at_touch (m ∷ ms) qty l
unfolding pop_back erase_at
at_touch-cons k m ms qty l = elim (Bool-cases (leb l.qty qty)) [
  | inl e ↦ rw e (simp sub-one)
  | inr e ↦ rw e (simp sub-one)
]

at_touch-eq-lower :
    (bid : Bool) (price qty : ℕ) (ls : List Level) {l : Level}
    → IsSorted bid ls
    → back ls ≡ some l
    → l.price ≡ price
    → at_touch ls qty l ≡ lower bid price qty ls
unfolding lower
at_touch-eq-lower bid price qty [] s e p = unfold back in cc
at_touch-eq-lower bid price qty (k ∷ []) s e p =
    unfold back pop_back erase_at in ground (arith, worse_irrefl bid price)
at_touch-eq-lower bid price qty (k ∷ m ∷ ms) {l = l} s e p =
    let e' : back (m ∷ ms) ≡ some l = sym (back-cons k m ms) ∙ e in
    let w : worse bid k.price l.price ≡ true = back-AllBetter bid k.price (m ∷ ms) s.0 e' in
    let w' : worse bid k.price price ≡ true = rw (← p) w in
    rw w' (
      rw (at_touch-cons k m ms qty l)
        (ap (λ r. k ∷ r) (at_touch-eq-lower bid price qty (m ∷ ms) s.1 e' p)))

lower-nil :
    (ls : List Level) (bid : Bool) (price qty : ℕ) → back ls ≡ none → lower bid price qty ls ≡ ls
unfolding lower
lower-nil [] bid price qty e = refl
lower-nil (k ∷ ls) bid price qty e = absurd (none_ne k ls e)
  where
    none_ne : (k : Level) (ls : List Level) → back (k ∷ ls) ≡ none → ⊥
    none_ne k [] e = unfold back in cc
    none_ne k (m ∷ ms) e = none_ne m ms (sym (back-cons k m ms) ∙ e)

-- The touch path and the search path of `remove` do the same.
pub remove_back-eq-lower :
    (bid : Bool) (price qty : ℕ) (ls : List Level)
    → IsSorted bid ls
    → remove_back bid ls price qty (back ls) ≡ lower bid price qty ls
remove_back-eq-lower bid price qty ls s = elim (Option-cases (back ls)) [
  | inl e ↦ rw e (unfold remove_back in sym (lower-nil ls bid price qty e))
  | inr (l, e) ↦ rw e (elim (Bool-cases (l.price == price)) [
    | inl p ↦ unfold remove_back in rw p (at_touch-eq-lower bid price qty ls s e (ground arith))
    | inr p ↦ unfold remove_back in rw p (remove_found-eq-lower bid price qty ls)
  ])
]
