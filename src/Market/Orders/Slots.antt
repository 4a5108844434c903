-- ===== src/Market/Orders/Slots.antt =====
-- An order table by slots, one for each reference: it shows that the laws of `OrderTable` can hold,
-- and runs the book on small references.
use stok.Base.{
  ℕ, zero, suc, ◌+◌, ◌≤◌, ◌≡◌, Option, none, some, List, [], ◌∷◌, arith, ◌==◌, if◌then◌else◌,
}
use stok.Market.Orders.{Order, OrderTable}

abbrev Slots : Type 0
Slots = List (Option Order)

abbrev find : Slots → ℕ → Option Order
find [] k = none
find (s ∷ ss) zero = s
find (s ∷ ss) (suc k) = find ss k

abbrev assign : Slots → ℕ → Order → Slots
assign [] zero o = some o ∷ []
assign [] (suc k) o = none ∷ assign [] k o
assign (s ∷ ss) zero o = some o ∷ ss
assign (s ∷ ss) (suc k) o = s ∷ assign ss k o

abbrev erase : Slots → ℕ → Slots
erase [] k = []
erase (s ∷ ss) zero = none ∷ ss
erase (s ∷ ss) (suc k) = s ∷ erase ss k

abbrev at : (Order → ℕ) → Option Order → ℕ
at f none = 0
at f (some o) = f o

abbrev total : (Order → ℕ) → Slots → ℕ
total f [] = 0
total f (s ∷ ss) = at f s + total f ss

pub total-assign :
    (f : Order → ℕ) (t : Slots) (k : ℕ) (o : Order)
    → total f (assign t k o) + at f (find t k) ≡ total f t + f o
total-assign f [] zero o = omega arith
total-assign f [] (suc k) o = omega (arith, total-assign f [] k o)
total-assign f (s ∷ ss) zero o = omega arith
total-assign f (s ∷ ss) (suc k) o = omega (arith, total-assign f ss k o)

pub total-erase :
    (f : Order → ℕ) (t : Slots) (k : ℕ) → total f (erase t k) + at f (find t k) ≡ total f t
total-erase f [] k = omega arith
total-erase f (s ∷ ss) zero = omega arith
total-erase f (s ∷ ss) (suc k) = omega (arith, total-erase f ss k)

at_mono : (f g : Order → ℕ) (s : Option Order) → ((o : Order) → f o ≤ g o) → at f s ≤ at g s
at_mono f g none h = omega arith
at_mono f g (some o) h = h o

pub total_mono : (f g : Order → ℕ) (t : Slots) → ((o : Order) → f o ≤ g o) → total f t ≤ total g t
total_mono f g [] h = omega arith
total_mono f g (s ∷ ss) h = omega (arith, at_mono f g s h, total_mono f g ss h)

pub find-assign :
    (t : Slots) (k j : ℕ) (o : Order)
    → find (assign t k o) j ≡ (if k == j then some o else find t j)
find-assign [] zero zero o = ground arith
find-assign [] zero (suc j) o = ground arith
find-assign [] (suc k) zero o = ground arith
find-assign [] (suc k) (suc j) o = ground (arith, find-assign [] k j o)
find-assign (s ∷ ss) zero zero o = ground arith
find-assign (s ∷ ss) zero (suc j) o = ground arith
find-assign (s ∷ ss) (suc k) zero o = ground arith
find-assign (s ∷ ss) (suc k) (suc j) o = ground (arith, find-assign ss k j o)

pub find-erase : (t : Slots) (k j : ℕ) → find (erase t k) j ≡ (if k == j then none else find t j)
find-erase [] k j = ground arith
find-erase (s ∷ ss) zero zero = ground arith
find-erase (s ∷ ss) zero (suc j) = ground arith
find-erase (s ∷ ss) (suc k) zero = ground arith
find-erase (s ∷ ss) (suc k) (suc j) = ground (arith, find-erase ss k j)

abbrev pub slots : OrderTable
slots = record {
  Table = Slots;
  find = find;
  assign = assign;
  erase = erase;
  size = total (λ _. 1);
  total = total;
  total-assign_new =
      λ f t k o real e. (let h : at f (find t k) ≡ 0 = rw e in omega (arith, total-assign f t k o));
  total-assign_old = λ f t k o u real e.
      (let h : at f (find t k) ≡ f u = rw e in omega (arith, total-assign f t k o));
  total-erase =
      λ f t k u real e. (let h : at f (find t k) ≡ f u = rw e in omega (arith, total-erase f t k));
  total_mono = total_mono;
  find-assign = λ t k j o real real'. find-assign t k j o;
  find-erase = λ t k j real real'. find-erase t k j;
}
