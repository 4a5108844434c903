-- ===== src/Market/Book/Tests.antt =====
-- A short session on a book of two symbols.
use stok.Base.{
  ℕ, ◌<◌, ◌≡◌, refl, true, false, none, List, [], ◌∷◌, arith, length, inr, ◌==◌, if◌then◌else◌,
}
use stok.Base.Int.{pos}
use stok.Market.Board.{MarketBoard, new_state}
use stok.Market.Ladder.{
  add, add_found, position, insert_at, remove, remove_back, remove_found, back, pop_back, erase_at,
  best_price, best_qty, worse,
}
use stok.Market.Ladder.Refine.{qty_at, level_qty}
use stok.Market.Orders.Slots.{slots}
use stok.Market.Itch.{Message}
use stok.Market.Book.{
  ItchBook, quoted, make, put, invalid, on_stock_directory, on_add, on_executed, map_locate,
  publish_top, side_add, reduce, publish_at, on_level, side_remove, executed_at, update_peak,
  same_top, with_top,
}
use stok.Market.Book.Sides.{ladder, is_side}
use stok.Market.Book.Agreement.{weight}
use stok.Market.Book.Feed.{handle}
use stok.Market.Book.History.{feed, AllFit, feed-Reconciles, feed-best}

abbrev symbols : ℕ → ℕ
symbols key = if key == 77 then 1 else invalid

-- A bid rests, and is filled in part.
abbrev session : List Message
session =
    Message.stock_directory 5 10 77 0 0 100
    ∷ Message.add 5 11 1 b'B' 300 1000
    ∷ Message.executed 5 13 1 100
    ∷ []

abbrev small_board : MarketBoard
small_board = record {
  states = record new_state { bars = [] } ∷ record new_state { bars = [] } ∷ [];
  midnight_ns = pos 0;
}

abbrev start : ItchBook slots
start = make slots symbols small_board none [] true

abbrev last : ItchBook slots
last = feed slots start session

session_fits : AllFit slots start session
unfolding handle on_stock_directory map_locate put make
session_fits =
    (inr refl, ((λ e. (omega (arith, e)), refl, omega arith), (λ e. (omega (arith, e)), tt)))

quoted-last : quoted slots last 1 ≡ true
unfolding feed handle on_stock_directory map_locate put make on_add on_executed quoted publish_top
    publish_at side_add side_remove reduce on_level same_top with_top add add_found position worse
    insert_at remove remove_back remove_found back pop_back erase_at best_price best_qty executed_at
    ladder update_peak
quoted-last = refl

listed_last : 1 < length last.books
unfolding feed handle on_stock_directory map_locate put make on_add on_executed quoted publish_top
    publish_at side_add side_remove reduce on_level same_top with_top add add_found position worse
    insert_at remove remove_back remove_found back pop_back erase_at best_price best_qty executed_at
    ladder update_peak
listed_last = omega arith

feed-Reconciles_example : qty_at (ladder last.books 1 true) 1000 ≡ 200
unfolding feed handle on_stock_directory map_locate put make on_add on_executed quoted publish_top
    publish_at side_add side_remove reduce on_level same_top with_top add add_found position worse
    insert_at remove remove_back remove_found back pop_back erase_at best_price best_qty executed_at
    ladder weight is_side level_qty update_peak
feed-Reconciles_example =
    feed-Reconciles slots symbols small_board none [] true session {b = last} refl refl
      (omega arith) session_fits 1 true 1000 listed_last quoted-last

feed-best_example :
    (best_qty (ladder last.books 1 true) ≡ 200)
    × ((p : ℕ)
        → 0 < slots.total (weight last.locate_to_sym 1 true p) last.orders
        → (0 < best_qty (ladder last.books 1 true))
          × (worse true (best_price (ladder last.books 1 true)) p ≡ false))
unfolding feed handle on_stock_directory map_locate put make on_add on_executed quoted publish_top
    publish_at side_add side_remove reduce on_level same_top with_top add add_found position worse
    insert_at remove remove_back remove_found back pop_back erase_at best_price best_qty executed_at
    ladder weight is_side level_qty update_peak
feed-best_example =
    feed-best slots symbols small_board none [] true session {b = last} refl refl (omega arith)
      session_fits 1 true listed_last quoted-last
