-- ===== src/Market/Book/Agreement.antt =====
-- The ladders agree with the resting orders: at every price of a quoted symbol stands the sum of the
-- shares of the orders that rest there.
use stok.Base.{
  ℕ, ◌+◌, ◌^◌, ◌≤◌, ◌<◌, ◌≡◌, refl, ◌∙◌, Bool, true, false, ◌&&◌, some, arith, ◌==◌, if◌then◌else◌,
  Bool-cases, Option-cases, inl, inr, length, get_elem?, length-set,
}
use stok.Market.Ladder.{SideLadder, LevelBook, add, remove}
use stok.Market.Ladder.Sorted.{IsValid}
use stok.Market.Ladder.Refine.{qty_at, add_refines, remove_refines, bid-add, bid-remove}
use stok.Market.Orders.{Order, OrderTable}
use stok.Market.Book.{ItchBook, invalid, quoted, publish_at, publish_top, same_top, with_top}
use stok.Market.Book.Sides.{ladder, is_side, ladder-with_top}

-- Whether an order rests on one side of one symbol at one price.
abbrev pub matches : (ℕ → ℕ) → ℕ → Bool → ℕ → Order → Bool
matches sym_of i c p o = (sym_of o.locate == i) && is_side o.side c && (o.price == p)

-- The shares of an order that stand on one side of one symbol at one price.
unfoldable pub weight : (ℕ → ℕ) → ℕ → Bool → ℕ → Order → ℕ
weight sym_of i c p o = if matches sym_of i c p o then o.shares else 0

abbrev pub all_shares : Order → ℕ
all_shares o = o.shares

pub weight-le :
    (sym_of : ℕ → ℕ) (i : ℕ) (c : Bool) (p : ℕ) (o : Order) → weight sym_of i c p o ≤ o.shares
unfolding weight
weight-le sym_of i c p o = ground arith

-- The arithmetic of one price, for a ladder that is named or not.
lowered_qty :
    (l : SideLadder) (price taken p : ℕ) (named : Bool) {t t' : ℕ}
    → IsValid l
    → qty_at l p ≡ t
    → t' + (if named && (price == p) then taken else 0) ≡ t
    → qty_at (if named then remove l price taken else l) p ≡ t'
lowered_qty l price taken p true v e s = elim (Bool-cases (price == p)) [
  | inl same ↦
      let same' : price ≡ p = ground arith in ground (arith, (remove_refines price taken v).1 p)
  | inr other ↦ ground (arith, (remove_refines price taken v).1 p)
]
lowered_qty l price taken p false v e s = ground arith

raised_qty :
    (l : SideLadder) (price added p : ℕ) (named : Bool) {t t' : ℕ}
    → IsValid l
    → qty_at l price + added < 2 ^ 64
    → qty_at l p ≡ t
    → t' ≡ t + (if named && (price == p) then added else 0)
    → qty_at (if named then add l price added else l) p ≡ t'
raised_qty l price added p true v fits e s = elim (Bool-cases (price == p)) [
  | inl same ↦
      let same' : price ≡ p = ground arith in ground (arith, (add_refines price added v fits).1 p)
  | inr other ↦ ground (arith, (add_refines price added v fits).1 p)
]
raised_qty l price added p false v fits e s = ground arith

module _ (M : OrderTable) where
  open M use {
    find, assign, erase, total, total-assign_new, total-assign_old, total-erase, total_mono,
  }

  pub record Agrees (b : ItchBook M) : Type 0 where
    pub small : length b.books ≤ invalid
    pub valid : (i : ℕ) (c : Bool) → i < length b.books → IsValid (ladder b.books i c)
    pub sided : (i : ℕ) (c : Bool) → i < length b.books → (ladder b.books i c).bid ≡ c
    pub agrees :
        (i : ℕ) (c : Bool) (p : ℕ)
        → i < length b.books
        → quoted M b i ≡ true
        → qty_at (ladder b.books i c) p ≡ total (weight b.locate_to_sym i c p) b.orders
    pub bounded : total all_shares b.orders < 2 ^ 64

  -- A change that `Agrees` cannot see: only the ladders, the orders and the symbols of the locate
  -- codes count.
  pub record Alike (b b' : ItchBook M) : Type 0 where
    pub same_length : length b'.books ≡ length b.books
    pub same_ladder : (i : ℕ) (c : Bool) → ladder b'.books i c ≡ ladder b.books i c
    pub same_quoted : (i : ℕ) → quoted M b' i ≡ quoted M b i
    pub same_orders : b'.orders ≡ b.orders
    pub same_locate : b'.locate_to_sym ≡ b.locate_to_sym

  Alike-refl : (b : ItchBook M) → Alike b b
  Alike-refl b = record {
    same_length = refl;
    same_ladder = λ i c. refl;
    same_quoted = λ i. refl;
    same_orders = refl;
    same_locate = refl;
  }

  pub Alike-Agrees : {b b' : ItchBook M} → Alike b b' → Agrees b → Agrees b'
  Alike-Agrees {b} {b'} a v = record {
    small = rw a.same_length v.small;
    valid = λ i c h. rw (a.same_ladder i c) (v.valid i c (rw (← a.same_length) h));
    sided = λ i c h. rw (a.same_ladder i c) (v.sided i c (rw (← a.same_length) h));
    agrees = λ i c p h q.
        rw (a.same_ladder i c, a.same_orders, a.same_locate)
          (v.agrees i c p (rw (← a.same_length) h) (rw (← a.same_quoted i) q));
    bounded = rw a.same_orders v.bounded;
  }

  pub publish_top-Alike : (b : ItchBook M) (j ts : ℕ) → Alike b (publish_top M b j ts)
  unfolding publish_top publish_at
  publish_top-Alike b j ts = elim (Option-cases (get_elem? b.books j)) [
    | inl e ↦ rw (e, publish_top) (Alike-refl b)
    | inr (l, e) ↦ rw (e, publish_top) (at_level l e)
  ]
    where
      at_level :
          (l : LevelBook) → get_elem? b.books j ≡ some l → Alike b (publish_at M b j ts (some l))
      at_level l e = elim (Bool-cases (same_top l)) [
        | inl t ↦ rw (t, publish_at) (Alike-refl b)
        | inr t ↦
            rw (t, publish_at)
              record {
                same_length = length-set b.books j (with_top l);
                same_ladder = λ i c. ladder-with_top b.books j i c e;
                same_quoted = λ i. unfold quoted in refl;
                same_orders = refl;
                same_locate = refl;
              }
      ]

  -- What an operation does to the ladders: it applies `f` to one side of symbol `j`, if that symbol
  -- is quoted, and leaves the others.
  pub record Moves (b b' : ItchBook M) (j side : ℕ) (f : SideLadder → SideLadder) : Type 0 where
    pub same_length : length b'.books ≡ length b.books
    pub moved :
        (i : ℕ) (c : Bool)
        → i < length b.books
        → ladder b'.books i c ≡ (
            if quoted M b j && (j == i) && is_side side c
            then f (ladder b.books i c)
            else ladder b.books i c)
    pub same_quoted : (i : ℕ) → quoted M b' i ≡ quoted M b i
    pub same_locate : b'.locate_to_sym ≡ b.locate_to_sym

  quoted_self :
      (b : ItchBook M) (i j : ℕ) (x : Bool)
      → quoted M b i ≡ true
      → (quoted M b j && (j == i) && x) ≡ ((j == i) && x)
  quoted_self b i j x q = elim (Bool-cases (j == i)) [
    | inl t ↦ let t' : j ≡ i = ground arith in rw (t', q)
    | inr t ↦ rw t (ground arith)
  ]

  at_quoted :
      (b : ItchBook M) (i j : ℕ) (x : Bool)
      → (quoted M b j && (j == i) && x) ≡ true
      → (j ≡ i) × (x ≡ true)
  at_quoted b i j x e = ground arith

  -- Shares leave one order: the ladders agree with what is left.
  pub lowered-Agrees :
      (b b' : ItchBook M) (o : Order) (taken : ℕ)
      → Moves b b' (b.locate_to_sym o.locate) o.side (λ s. remove s o.price taken)
      → ((i : ℕ) (c : Bool) (p : ℕ)
          → total (weight b.locate_to_sym i c p) b'.orders
              + (if matches b.locate_to_sym i c p o then taken else 0)
            ≡ total (weight b.locate_to_sym i c p) b.orders)
      → total all_shares b'.orders ≤ total all_shares b.orders
      → Agrees b
      → Agrees b'
  lowered-Agrees b b' o taken m sums less v =
      let j = b.locate_to_sym o.locate in
      record {
        small = rw m.same_length v.small;
        valid = λ i c h.
            let h' = rw m.same_length at h in
            rw (m.moved i c h') (elim (Bool-cases (quoted M b j && (j == i) && is_side o.side c)) [
              | inl e ↦ rw e (remove_refines o.price taken (v.valid i c h')).0
              | inr e ↦ rw e (v.valid i c h')
            ]);
        sided = λ i c h.
            let h' = rw m.same_length at h in
            rw (m.moved i c h') (elim (Bool-cases (quoted M b j && (j == i) && is_side o.side c)) [
              | inl e ↦ rw e (bid-remove (ladder b.books i c) o.price taken ∙ v.sided i c h')
              | inr e ↦ rw e (v.sided i c h')
            ]);
        agrees = λ i c p h q.
            let h' = rw m.same_length at h in
            let q' = rw (m.same_quoted i) at q in
            rw (m.same_locate, m.moved i c h', quoted_self b i j (is_side o.side c) q')
              (lowered_qty (ladder b.books i c) o.price taken p ((j == i) && is_side o.side c)
                (v.valid i c h') (v.agrees i c p h' q') (sums i c p));
        bounded = omega (arith, v.bounded);
      }

  -- No ladder holds more than all orders together.
  qty_at-le :
      (b : ItchBook M) (i : ℕ) (c : Bool) (p : ℕ)
      → Agrees b
      → i < length b.books
      → quoted M b i ≡ true
      → qty_at (ladder b.books i c) p ≤ total all_shares b.orders
  qty_at-le b i c p v h q = rw (v.agrees i c p h q) (
      total_mono (weight b.locate_to_sym i c p) all_shares b.orders
        (weight-le b.locate_to_sym i c p))

  -- An order comes to rest: the ladders agree with it too.
  pub raised-Agrees :
      (b b' : ItchBook M) (o : Order)
      → Moves b b' (b.locate_to_sym o.locate) o.side (λ s. add s o.price o.shares)
      → ((f : Order → ℕ) → total f b'.orders ≡ total f b.orders + f o)
      → total all_shares b.orders + o.shares < 2 ^ 64
      → Agrees b
      → Agrees b'
  raised-Agrees b b' o m sums fits v =
      let j = b.locate_to_sym o.locate in
      record {
        small = rw m.same_length v.small;
        valid = λ i c h.
            let h' = rw m.same_length at h in
            rw (m.moved i c h') (elim (Bool-cases (quoted M b j && (j == i) && is_side o.side c)) [
              | inl e ↦
                  let q = named_quoted j i (is_side o.side c) e in
                  rw e
                    (add_refines o.price o.shares (v.valid i c h')
                      (omega (arith, qty_at-le b i c o.price v h' q))).0
              | inr e ↦ rw e (v.valid i c h')
            ]);
        sided = λ i c h.
            let h' = rw m.same_length at h in
            rw (m.moved i c h') (elim (Bool-cases (quoted M b j && (j == i) && is_side o.side c)) [
              | inl e ↦ rw e (bid-add (ladder b.books i c) o.price o.shares ∙ v.sided i c h')
              | inr e ↦ rw e (v.sided i c h')
            ]);
        agrees = λ i c p h q.
            let h' = rw m.same_length at h in
            let q' = rw (m.same_quoted i) at q in
            rw (m.same_locate, m.moved i c h', quoted_self b i j (is_side o.side c) q')
              (raised_qty (ladder b.books i c) o.price o.shares p ((j == i) && is_side o.side c)
                (v.valid i c h') (omega (arith, qty_at-le b i c o.price v h' q'))
                (v.agrees i c p h' q') (unfold weight in sums (weight b.locate_to_sym i c p)));
        bounded = rw (sums all_shares) fits;
      }
    where
      named_quoted :
          (j i : ℕ) (x : Bool) → (quoted M b j && (j == i) && x) ≡ true → quoted M b i ≡ true
      named_quoted j i x e = let (same, _) = at_quoted b i j x e in rw (← same) (ground arith)
