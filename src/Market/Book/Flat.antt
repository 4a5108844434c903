-- ===== src/Market/Book/Flat.antt =====
-- The order book over the program's own map, `FlatMap64<Order>`, from the map's constructor.
use stok.Base.{ℕ, ◌^◌, ◌≤◌, ◌<◌, ◌≡◌, Bool, true, Option, List, length}
use stok.Core.Spsc.{SpscQueue}
use stok.Market.Ladder.Refine.{qty_at}
use stok.Market.Board.{MarketBoard}
use stok.Market.Orders.Flat.{Map, total, flat_orders, make-empty}
use stok.Market.Itch.{Message}
use stok.Market.Book.{ItchBook, MarketEvent, invalid, quoted, make}
use stok.Market.Book.Sides.{ladder}
use stok.Market.Book.Agreement.{weight}
use stok.Market.Book.History.{feed, AllFit, feed-Reconciles}

module _ (load : ℕ → ℕ) (below : (c : ℕ) → 0 < c → load c < c) (capacity : ℕ)
    (small : capacity ≤ 2 ^ 63) where
  abbrev new_orders : Map
  new_orders = (make-empty load below capacity small).0

  -- What `feed-Reconciles` says holds of the book on the map that the program gives it.
  feed_flat-Reconciles :
      (symbols : ℕ → ℕ) (board : MarketBoard) (q : Option (SpscQueue MarketEvent)) (track : Bool)
      (ms : List Message) {b : ItchBook (flat_orders load below)}
      → feed
          (flat_orders load below)
          (make (flat_orders load below) symbols board q new_orders track)
          ms
        ≡ b
      → length board.states ≤ invalid
      → AllFit
          (flat_orders load below)
          (make (flat_orders load below) symbols board q new_orders track)
          ms
      → (i : ℕ) (c : Bool) (p : ℕ) → i < length b.books
      → quoted (flat_orders load below) b i ≡ true
      → qty_at (ladder b.books i c) p ≡ total (weight b.locate_to_sym i c p) b.orders
  feed_flat-Reconciles symbols board q track ms e few fit =
      let (t, run, empty) = make-empty load below capacity small in
      feed-Reconciles (flat_orders load below) symbols board q t track ms e (empty _) few fit
