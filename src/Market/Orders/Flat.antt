-- ===== src/Market/Orders/Flat.antt =====
-- `FlatMap64<Order>` (src/core/flat_hash.hpp) as the order map of the book: the laws of `OrderTable` hold of
-- the map's own methods. A key that the map reserves is not written, which the laws do not ask.
use stok.Base.{
  ℕ, ◌+◌, ◌^◌, ◌<◌, ◌≤◌, ◌≡◌, ◌≢◌, sym, ◌∙◌, ap, Option, none, some, arith, ◌==◌, if◌then◌else◌,
  ◌>>=◌, Bool,
}
use native.Mathlib.Decide.{ℕ_discrete}
use stok.Core.Flat
use stok.Core.Flat.{empty_key, FlatMap64, for_each, insert_or_assign, make}
use stok.Core.Flat.Slots.{view}
use stok.Core.Flat.Methods.{IsValid, deref, find-view}
use stok.Core.Flat.Inserting.{insert_or_assign-Assigned}
use stok.Core.Flat.Erasing.{erase-Erased}
use stok.Core.Flat.Running.{make-Models}
use stok.Market.Orders.{Order, OrderTable}
use stok.Market.Orders.Sums.{at, sum, sum-for_each, sum-update, rest_mono, rest-none, nothing}

-- `Order{}`
abbrev pub blank : Order
blank = record { price = 0; shares = 0; locate = 0; side = 0 }

-- A map in the states that its methods keep.
abbrev pub Map : Type 0
Map = (m : FlatMap64 Order) × IsValid blank m

-- What is behind the pointer that `find` returns.
abbrev pub find : Map → ℕ → Option Order
find (m, inv) k = do p ← stok.Core.Flat.find blank m k; deref blank m.slots p

find_lem : (t : Map) (k : ℕ) → k ≢ empty_key → find t k ≡ view t.0.slots k
find_lem (m, inv) k real = let (p, run, e) = find-view blank m inv k real in rw run e

-- A method that changes one key.
pub record Changes (m : FlatMap64 Order) (k : ℕ) (o : Option Order) (r : Map) : Type 0 where
  pub reads : (q : ℕ) → q ≢ empty_key → view r.0.slots q ≡ (if q == k then o else view m.slots q)

abbrev erased : (m : FlatMap64 Order) → IsValid blank m → (k : ℕ) → Dec (k ≡ empty_key) → Map
erased m inv k (yes e) = (m, inv)
erased m inv k (no real) = let (r, run, e) = erase-Erased blank m inv k real in (r.0, e.valid)

erased-Changes :
    (m : FlatMap64 Order) (inv : IsValid blank m) (k : ℕ) (d : Dec (k ≡ empty_key))
    → k ≢ empty_key
    → Changes m k none (erased m inv k d)
erased-Changes m inv k (yes e) real = absurd (real e)
erased-Changes m inv k (no ne) real =
    let (r, run, e) = erase-Erased blank m inv k ne in record { reads = e.reads }

abbrev pub erase : Map → ℕ → Map
erase t k = erased t.0 t.1 k (ℕ_discrete k empty_key)

-- What `erase` writes is what the map's own method returns.
pub erase-run :
    (t : Map) (k : ℕ)
    → k ≢ empty_key
    → (found : Bool) × (stok.Core.Flat.erase blank t.0 k ≡ some ((erase t k).0, found))
erase-run t k = go (ℕ_discrete k empty_key)
  where
    go :
        (d : Dec (k ≡ empty_key))
        → k ≢ empty_key
        → (found : Bool) × (stok.Core.Flat.erase blank t.0 k ≡ some ((erased t.0 t.1 k d).0, found))
    go (yes e) real = absurd (real e)
    go (no ne) real = let (r, run, e) = erase-Erased blank t.0 t.1 k ne in (r.1, run)

abbrev pub total : (Order → ℕ) → Map → ℕ
total f t = sum f (for_each blank t.0.slots)

module _ (f : Order → ℕ) (t r : Map) (k : ℕ) (o : Option Order) (c : Changes t.0 k o r)
    (real : k ≢ empty_key) where
  total-Changes : total f r + at f (find t k) ≡ total f t + at f o
  total-Changes =
      ap (λ (x : Option Order). total f r + at f x) (find_lem t k real)
      ∙ sum-update blank f t.0.slots r.0.slots t.1.placed.unique r.1.placed.unique k real o c.reads

pub find-Changes :
    (t r : Map) (k j : ℕ) (o : Option Order)
    → Changes t.0 k o r
    → j ≢ empty_key
    → find r j ≡ (if k == j then o else find t j)
find-Changes t r k j o c real =
    let turned : (j == k) ≡ (k == j) = ground arith in
    find_lem r j real
    ∙ c.reads j real
    ∙ ap (λ (b : Bool). if b then o else view t.0.slots j) turned
    ∙ ap (λ (x : Option Order). if k == j then o else x) (sym (find_lem t j real))

-- The growth limit of a capacity, below it.
module _ (load : ℕ → ℕ) (below : (c : ℕ) → 0 < c → load c < c) where
  abbrev assigned :
      (m : FlatMap64 Order) → IsValid blank m → (k : ℕ) → Order → Dec (k ≡ empty_key) → Map
  assigned m inv k o (yes e) = (m, inv)
  assigned m inv k o (no real) =
      let (r, run, e) = insert_or_assign-Assigned blank load below m inv k real o in (r.0, e.valid)

  assigned-Changes :
      (m : FlatMap64 Order) (inv : IsValid blank m) (k : ℕ) (o : Order) (d : Dec (k ≡ empty_key))
      → k ≢ empty_key
      → Changes m k (some o) (assigned m inv k o d)
  assigned-Changes m inv k o (yes e) real = absurd (real e)
  assigned-Changes m inv k o (no ne) real =
      let (r, run, e) = insert_or_assign-Assigned blank load below m inv k ne o in
      record { reads = e.reads }

  abbrev pub assign : Map → ℕ → Order → Map
  assign t k o = assigned t.0 t.1 k o (ℕ_discrete k empty_key)

  -- What `assign` writes is what the map's own method returns.
  pub assign-insert_or_assign :
      (t : Map) (k : ℕ) (o : Order)
      → k ≢ empty_key
      → (i : ℕ) × (insert_or_assign blank load t.0 k o ≡ some ((assign t k o).0, i))
  assign-insert_or_assign t k o = go (ℕ_discrete k empty_key)
    where
      go :
          (d : Dec (k ≡ empty_key))
          → k ≢ empty_key
          → (i : ℕ) × (insert_or_assign blank load t.0 k o ≡ some ((assigned t.0 t.1 k o d).0, i))
      go (yes e) real = absurd (real e)
      go (no ne) real =
          let (r, run, e) = insert_or_assign-Assigned blank load below t.0 t.1 k ne o in (r.1, run)

  pub assign-Changes :
      (t : Map) (k : ℕ) (o : Order) → k ≢ empty_key → Changes t.0 k (some o) (assign t k o)
  assign-Changes t k o = assigned-Changes t.0 t.1 k o (ℕ_discrete k empty_key)

  pub erase-Changes : (t : Map) (k : ℕ) → k ≢ empty_key → Changes t.0 k none (erase t k)
  erase-Changes t k = erased-Changes t.0 t.1 k (ℕ_discrete k empty_key)

  pub total-assign :
      (f : Order → ℕ) (t : Map) (k : ℕ) (o : Order) (u : Option Order)
      → k ≢ empty_key
      → find t k ≡ u
      → total f (assign t k o) + at f u ≡ total f t + f o
  total-assign f t k o u real e =
      sym (ap (λ (x : Option Order). total f (assign t k o) + at f x) e)
      ∙ total-Changes f t (assign t k o) k (some o) (assign-Changes t k o real) real

  pub total-erase :
      (f : Order → ℕ) (t : Map) (k : ℕ) (u : Order)
      → k ≢ empty_key
      → find t k ≡ some u
      → total f (erase t k) + f u ≡ total f t
  total-erase f t k u real e =
      let changed = total-Changes f t (erase t k) k none (erase-Changes t k real) real in
      let there : at f (find t k) ≡ f u = ap (at f) e in omega (arith, changed, there)

  abbrev pub flat_orders : OrderTable
  flat_orders = record {
    Table = Map;
    find = find;
    assign = assign;
    erase = erase;
    size = λ t. t.0.size;
    total = total;
    total-assign_new =
        λ f t k o real e. (let law = total-assign f t k o none real e in omega (arith, law));
    total-assign_old = λ f t k o u real e. total-assign f t k o (some u) real e;
    total-erase = total-erase;
    total_mono = λ f g t h.
        (let of_f = sum-for_each blank f t.0.slots in
          let of_g = sum-for_each blank g t.0.slots in
          let law = rest_mono blank f nothing g h t.0.slots in omega (arith, of_f, of_g, law));
    find-assign = λ t k j o real j_real.
        find-Changes t (assign t k o) k j (some o) (assign-Changes t k o real) j_real;
    find-erase =
        λ t k j real j_real. find-Changes t (erase t k) k j none (erase-Changes t k real) j_real;
  }

  -- The constructor's map holds no order.
  pub make-empty :
      (capacity : ℕ)
      → capacity ≤ 2 ^ 63
      → (t : Map) × (make blank load capacity ≡ some t.0) × ((f : Order → ℕ) → total f t ≡ 0)
  make-empty capacity small =
      let (m, run, w) = make-Models blank load below capacity small in
      (
        (m, w.valid),
        run,
        λ f.
            sum-for_each blank f m.slots
            ∙ rest-none blank f nothing m.slots (λ q real inside. w.reads q real),
      )
