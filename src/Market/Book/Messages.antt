-- ===== src/Market/Book/Messages.antt =====
-- The order messages one by one: each keeps the agreement of ladders and orders.
use stok.Base.{
  ℕ, ◌+◌, ◌^◌, ◌<◌, ◌≡◌, ◌≢◌, ◌⊎◌, refl, ap, Bool, true, false, ◌&&◌, not, none, some, arith, ◌==◌,
  Bool-cases, Option-cases, inl, inr, length,
}
use stok.Core.Flat.{empty_key}
use stok.Market.Ladder.{SideLadder, add, remove, add64}
use stok.Market.Orders.{Order, OrderTable}
use stok.Market.Book.{
  ItchBook, invalid, quoted, publish_top, side_add, side_remove, received, on_add, on_executed,
  on_executed_price, on_cancel, on_delete, on_replace, replace_at,
}
use stok.Market.Book.Agreement.{
  Agrees, Alike-Agrees, publish_top-Alike, Moves, lowered-Agrees, raised-Agrees, weight, all_shares,
}
use stok.Market.Book.Handlers.{side-Moves, unquoted-Moves, with_orders-Moves, reduce-Agrees}

module _ (M : OrderTable) where
  open M use {
    find, assign, erase, total, total-assign_new, total-assign_old, total-erase, find-erase,
  }

  -- A change of other fields.
  pub untouched :
      (b b' : ItchBook M)
      → b'.books ≡ b.books
      → b'.filter ≡ b.filter
      → b'.track_quotes ≡ b.track_quotes
      → b'.orders ≡ b.orders
      → b'.locate_to_sym ≡ b.locate_to_sym
      → Agrees M b
      → Agrees M b'
  untouched b b' books filter track orders locate = Alike-Agrees M record {
    same_length = ap length books;
    same_ladder = λ i c. rw books;
    same_quoted = λ i. unfold quoted in rw (filter, track);
    same_orders = orders;
    same_locate = locate;
  }

  pub received-Agrees : (b : ItchBook M) → Agrees M b → Agrees M (received M b)
  received-Agrees b = untouched b (received M b) refl refl refl refl refl

  -- An execution of a resting order, or of one that is not known.
  pub on_executed-Agrees :
      (b : ItchBook M) (locate ts ref shares : ℕ)
      → ref ≢ empty_key
      → Agrees M b
      → Agrees M (on_executed M b locate ts ref shares)
  unfolding on_executed
  on_executed-Agrees b locate ts ref shares real v = elim (Option-cases (find b.orders ref)) [
    | inl e ↦ rw e (untouched b _ refl refl refl refl refl v)
    | inr (o, e) ↦
        rw e (reduce-Agrees M _ o ref shares ts real e (untouched b _ refl refl refl refl refl v))
  ]

  pub on_executed_price-Agrees :
      (b : ItchBook M) (locate ts ref shares : ℕ) (printable : Bool) (price : ℕ)
      → ref ≢ empty_key
      → Agrees M b
      → Agrees M (on_executed_price M b locate ts ref shares printable price)
  unfolding on_executed_price
  on_executed_price-Agrees b locate ts ref shares true price real v =
      elim (Option-cases (find b.orders ref)) [
        | inl e ↦ rw e (untouched b _ refl refl refl refl refl v)
        | inr (o, e) ↦
            rw e
              (reduce-Agrees M _ o ref shares ts real e (untouched b _ refl refl refl refl refl v))
      ]
  on_executed_price-Agrees b locate ts ref shares false price real v =
      elim (Option-cases (find b.orders ref)) [
        | inl e ↦ rw e (untouched b _ refl refl refl refl refl v)
        | inr (o, e) ↦
            rw e
              (reduce-Agrees M _ o ref shares ts real e (untouched b _ refl refl refl refl refl v))
      ]

  pub on_cancel-Agrees :
      (b : ItchBook M) (ts ref shares : ℕ)
      → ref ≢ empty_key
      → Agrees M b
      → Agrees M (on_cancel M b ts ref shares)
  unfolding on_cancel
  on_cancel-Agrees b ts ref shares real v = elim (Option-cases (find b.orders ref)) [
    | inl e ↦ rw e (received-Agrees b v)
    | inr (o, e) ↦
        rw e (reduce-Agrees M (received M b) o ref shares ts real e (received-Agrees b v))
  ]

  pub on_delete-Agrees :
      (b : ItchBook M) (ts ref : ℕ) → ref ≢ empty_key → Agrees M b → Agrees M (on_delete M b ts ref)
  unfolding on_delete
  on_delete-Agrees b ts ref real v = elim (Option-cases (find b.orders ref)) [
    | inl e ↦ rw e (received-Agrees b v)
    | inr (o, e) ↦
        rw e (reduce-Agrees M (received M b) o ref o.shares ts real e (received-Agrees b v))
  ]

  -- An order rests: its ladder is raised if its symbol is quoted, and the top published.
  rest-Agrees :
      (b : ItchBook M) (ref ts : ℕ) (o : Order)
      → ref ≢ empty_key
      → find b.orders ref ≡ none
      → total all_shares b.orders + o.shares < 2 ^ 64
      → Agrees M b
      → let b' = record b { orders = assign b.orders ref o } in
        let j = b.locate_to_sym o.locate in
        ((not (j == invalid) && quoted M b j) ≡ true
          → Agrees M (publish_top M (side_add M b' j o.side o.price o.shares) j ts))
        × ((not (j == invalid) && quoted M b j) ≡ false → Agrees M b')
  rest-Agrees b ref ts o real fresh fits v = (
    λ q. Alike-Agrees M (publish_top-Alike M (side_add M b' j o.side o.price o.shares) j ts) (
        unfold side_add in
        raise (side_add M b' j o.side o.price o.shares)
          (with_orders-Moves M new (side-Moves M b j o.side f (ground arith)))),
    λ off. raise b' (with_orders-Moves M new (unquoted-Moves M b j o.side f v.small off)),
  )
    where
      j : ℕ
      j = b.locate_to_sym o.locate

      new : M.Table
      new = assign b.orders ref o

      b' : ItchBook M
      b' = record b { orders = new }

      f : SideLadder → SideLadder
      f = λ s. add s o.price o.shares

      raise :
          (c : ItchBook M)
          → Moves M b (record c { orders = new }) j o.side f
          → Agrees M (record c { orders = new })
      raise c m =
          raised-Agrees M b (record c { orders = new }) o m
            (λ g. total-assign_new g b.orders ref o real fresh) fits v

  pub on_add-Agrees :
      (b : ItchBook M) (locate ts ref side shares price : ℕ)
      → ref ≢ empty_key
      → find b.orders ref ≡ none
      → total all_shares b.orders + shares < 2 ^ 64
      → Agrees M b
      → Agrees M (on_add M b locate ts ref side shares price)
  unfolding on_add quoted
  on_add-Agrees b locate ts ref side shares price real fresh fits v =
      elim (Bool-cases (b.locate_to_sym locate == invalid)) [
        | inl e ↦ rw e (received-Agrees b v)
        | inr e ↦ rw e (elim (Bool-cases (quoted M b sym)) [
          | inl q ↦ rw q (resting.0 (ground arith))
          | inr q ↦ rw q (resting.1 (ground arith))
        ])
      ]
    where
      sym : ℕ
      sym = b.locate_to_sym locate

      o : Order
      o = record { price = price; shares = shares; locate = locate; side = side }

      counted : ItchBook M
      counted = record b {
        st = record b.st { messages = add64 b.st.messages 1; adds = add64 b.st.adds 1 };
      }

      resting :
          ((not (sym == invalid) && quoted M counted sym) ≡ true
            → Agrees M (
                publish_top M
                  (side_add M
                    (record counted { orders = assign b.orders ref o })
                    sym
                    side
                    price
                    shares)
                  sym
                  ts))
          × ((not (sym == invalid) && quoted M counted sym) ≡ false
              → Agrees M (record counted { orders = assign b.orders ref o }))
      resting =
          rest-Agrees counted ref ts o real fresh fits
            (untouched b counted refl refl refl refl refl v)

  replaced-Agrees :
      (b : ItchBook M) (ts old_ref new_ref shares price : ℕ) (o : Order)
      → old_ref ≢ empty_key
      → new_ref ≢ empty_key
      → find b.orders old_ref ≡ some o
      → (new_ref ≡ old_ref) ⊎ (find b.orders new_ref ≡ none)
      → total all_shares b.orders + shares < 2 ^ 64
      → Agrees M b
      → Agrees M (replace_at M b ts old_ref new_ref shares price (some o))
  unfolding replace_at side_remove quoted
  replaced-Agrees b ts old_ref new_ref shares price o old_real new_real here fresh fits v =
      elim (Bool-cases (not (j == invalid) && quoted M b j)) [
        | inl q ↦ rw q (
            (rest-Agrees (mid (removed)) new_ref ts o' new_real absent room
                (lower removed (side-Moves M b j o.side f (ground arith)))).0
              q)
        | inr off ↦ rw off (
            (rest-Agrees (mid b) new_ref ts o' new_real absent room
                (lower b (unquoted-Moves M b j o.side f v.small off))).1
              off)
      ]
    where
      j : ℕ
      j = b.locate_to_sym o.locate

      f : SideLadder → SideLadder
      f = λ s. remove s o.price o.shares

      o' : Order
      o' = record o { price = price; shares = shares }

      removed : ItchBook M
      removed = side_remove M b j o.side o.price o.shares

      mid : ItchBook M → ItchBook M
      mid c = record c { orders = erase b.orders old_ref }

      absent : find (erase b.orders old_ref) new_ref ≡ none
      absent = ground (arith, find-erase b.orders old_ref new_ref old_real new_real)

      gone : (g : Order → ℕ) → total g (erase b.orders old_ref) + g o ≡ total g b.orders
      gone g = total-erase g b.orders old_ref o old_real here

      room : total all_shares (erase b.orders old_ref) + shares < 2 ^ 64
      room = omega (arith, gone all_shares)

      lower : (c : ItchBook M) → Moves M b c j o.side f → Agrees M (mid c)
      lower c m =
          lowered-Agrees M b (mid c) o o.shares (with_orders-Moves M (erase b.orders old_ref) m)
            (λ i k p. unfold weight in gone (weight b.locate_to_sym i k p))
            (omega (arith, gone all_shares)) v

  pub on_replace-Agrees :
      (b : ItchBook M) (ts old_ref new_ref shares price : ℕ)
      → old_ref ≢ empty_key
      → new_ref ≢ empty_key
      → (new_ref ≡ old_ref) ⊎ (find b.orders new_ref ≡ none)
      → total all_shares b.orders + shares < 2 ^ 64
      → Agrees M b
      → Agrees M (on_replace M b ts old_ref new_ref shares price)
  unfolding on_replace
  on_replace-Agrees b ts old_ref new_ref shares price old_real new_real fresh fits v =
      elim (Option-cases (find b.orders old_ref)) [
        | inl e ↦ rw e (received-Agrees b v)
        | inr (o, e) ↦ rw e (
            replaced-Agrees (received M b) ts old_ref new_ref shares price o old_real new_real e
              fresh fits (received-Agrees b v))
      ]
