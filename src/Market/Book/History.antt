-- ===== src/Market/Book/History.antt =====
-- A whole feed, message after message, from a new `ItchBook`.
use stok.Base.{
  ℕ, zero, suc, ◌≤◌, ◌<◌, ◌≡◌, refl, ◌∙◌, Bool, true, false, Option, List, [], ◌∷◌, arith, length,
  length-replicate, replicate, if◌then◌else◌,
}
use mathlib.Core.Path.{subst}
use stok.Core.Spsc.{SpscQueue}
use stok.Market.Ladder.{SideLadder, empty_book, empty_side, best_price, best_qty, worse}
use stok.Market.Ladder.Sorted.{IsValid}
use stok.Market.Ladder.Refine.{qty_at, level_qty, best_lem}
use stok.Market.Board.{MarketBoard}
use stok.Market.Orders.{OrderTable}
use stok.Market.Itch.{Message}
use stok.Market.Book.{ItchBook, invalid, quoted, make, MarketEvent}
use stok.Market.Book.Sides.{ladder}
use stok.Market.Book.Agreement.{Agrees, weight, all_shares, weight-le}
use stok.Market.Book.Feed.{handle, Fits, handle-Agrees}

ladder-replicate : (n i : ℕ) (c : Bool) → ladder (replicate n empty_book) i c ≡ empty_side c
unfolding ladder
ladder-replicate zero i c = refl
ladder-replicate (suc n) zero true = refl
ladder-replicate (suc n) zero false = refl
ladder-replicate (suc n) (suc i) c = ladder-replicate n i c

module _ (M : OrderTable) where
  open M use {Table, find, total, total_mono}

  -- The messages of a file or of a session, in their order.
  unfoldable pub feed : ItchBook M → List Message → ItchBook M
  feed b [] = b
  feed b (m ∷ ms) = feed (handle M b m) ms

  -- Every message fits the book that it meets.
  abbrev pub AllFit : ItchBook M → List Message → Type 0
  AllFit b [] = Unit {0}
  AllFit b (m ∷ ms) = Fits M b m × AllFit (handle M b m) ms

  make-Agrees :
      (symbols : ℕ → ℕ) (board : MarketBoard) (q : Option (SpscQueue MarketEvent)) (t : Table)
      (track : Bool)
      → total all_shares t ≡ 0
      → length board.states ≤ invalid
      → Agrees M (make M symbols board q t track)
  unfolding make
  make-Agrees symbols board q t track z few = record {
    small = ground (arith, length-replicate (if track then length board.states else 0) empty_book);
    valid = λ i c h.
        rw (ladder-replicate (if track then length board.states else 0) i c)
          (record { sorted = tt; filled = tt });
    sided = λ i c h. rw (ladder-replicate (if track then length board.states else 0) i c);
    agrees = λ i c p h q. rw (ladder-replicate (if track then length board.states else 0) i c) (
        unfold level_qty in
        omega (
          arith,
          z,
          total_mono (weight (λ _. invalid) i c p) all_shares t (weight-le (λ _. invalid) i c p),
        ));
    bounded = omega (arith, z);
  }

  feed-Agrees :
      (b : ItchBook M) (ms : List Message) → AllFit b ms → Agrees M b → Agrees M (feed b ms)
  unfolding feed
  feed-Agrees b [] fit v = v
  feed-Agrees b (m ∷ ms) fit v = feed-Agrees (handle M b m) ms fit.1 (handle-Agrees M b m fit.0 v)

  -- After any feed of messages that fit, from a book without orders: at every price of either side
  -- of a quoted symbol, the ladder holds the sum of the shares of the orders that rest there. A message
  -- fits when no order reference of it is 2^64 - 1, the key that the map reserves, a new order reference
  -- is not in use, the shares that rest stay below 2^64 together, and no locate code moves to another
  -- symbol while orders rest.
  pub feed-Reconciles :
      (symbols : ℕ → ℕ) (board : MarketBoard) (q : Option (SpscQueue MarketEvent)) (t : Table)
      (track : Bool) (ms : List Message) {b : ItchBook M}
      → feed (make M symbols board q t track) ms ≡ b
      → total all_shares t ≡ 0
      → length board.states ≤ invalid
      → AllFit (make M symbols board q t track) ms
      → (i : ℕ) (c : Bool) (p : ℕ) → i < length b.books
      → quoted M b i ≡ true
      → qty_at (ladder b.books i c) p ≡ total (weight b.locate_to_sym i c p) b.orders
  feed-Reconciles symbols board q t track ms e z few fit =
      (subst (λ b. Agrees M b) e
        (feed-Agrees (make M symbols board q t track) ms fit
          (make-Agrees symbols board q t track z few))).agrees

  -- After any feed of messages that fit, as above, from a book without orders, the top of a quoted side
  -- is the best price at which an order rests: it shows the shares that rest at that price, and wherever
  -- an order rests, the top is not empty and no worse than that price.
  pub feed-best :
      (symbols : ℕ → ℕ) (board : MarketBoard) (q : Option (SpscQueue MarketEvent)) (t : Table)
      (track : Bool) (ms : List Message) {b : ItchBook M}
      → feed (make M symbols board q t track) ms ≡ b
      → total all_shares t ≡ 0
      → length board.states ≤ invalid
      → AllFit (make M symbols board q t track) ms
      → (i : ℕ) (c : Bool) → i < length b.books
      → quoted M b i ≡ true
      → (best_qty (ladder b.books i c)
          ≡ total (weight b.locate_to_sym i c (best_price (ladder b.books i c))) b.orders)
        × ((p : ℕ)
            → 0 < total (weight b.locate_to_sym i c p) b.orders
            → (0 < best_qty (ladder b.books i c))
              × (worse c (best_price (ladder b.books i c)) p ≡ false))
  feed-best symbols board q t track ms {b} e z few fit i c h quotes = (
    (best_lem valid).0 ∙ v.agrees i c (best_price s) h quotes,
    λ p rests.
        let (filled, none_better) = (best_lem valid).1 p (rw (v.agrees i c p h quotes) rests) in
        (filled, subst (λ side. worse side (best_price s) p ≡ false) (v.sided i c h) none_better),
  )
    where
      v : Agrees M b
      v =
          subst (λ b. Agrees M b) e
            (feed-Agrees (make M symbols board q t track) ms fit
              (make-Agrees symbols board q t track z few))

      s : SideLadder
      s = ladder b.books i c

      valid : IsValid s
      valid = v.valid i c h
