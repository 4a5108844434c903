-- ===== src/Market/Board/Tests.antt =====
-- Runs of the board on two symbols.
use stok.Base.{◌*◌, ◌≤◌, ◌≡◌, refl, Option, none, some, List, [], ◌∷◌, arith, get_elem?}
use stok.Base.Int.{pos}
use stok.Market.Board.{MarketState, make, new_state, on_trade}
use stok.Market.Board.Trades.{Trade, after, counts, counted, notional, Shows, after-Shows}
use stok.Market.Board.Range.{after-vwap_bounds}

-- The newest print comes first; one is of the other symbol and one has no shares.
abbrev prints : List Trade
prints =
    record { symbol = 1; px = pos 1500; shares = 10; ns = 400 }
    ∷ record { symbol = 0; px = pos 90; shares = 3; ns = 300 }
    ∷ record { symbol = 1; px = pos 9999; shares = 0; ns = 200 }
    ∷ record { symbol = 1; px = pos 1000; shares = 20; ns = 100 }
    ∷ []

notional-prints : notional (counted 1 prints) ≡ 35000
unfolding notional counted counts
notional-prints = refl

after-Shows_example : Shows (after (make 2) prints) 1 (counted 1 prints)
after-Shows_example = after-Shows 2 1 prints (omega arith) (omega (arith, notional-prints))

abbrev state_of : Option MarketState → MarketState
state_of none = new_state
state_of (some s) = s

abbrev busy : MarketState
busy = state_of (get_elem? (after (make 2) prints).states 1)

busy_stands : get_elem? (after (make 2) prints).states 1 ≡ some busy
unfolding make after on_trade
busy_stands = refl

after-vwap_bounds_example : (1000 * 30 ≤ 35000) × (35000 ≤ 1500 * 30)
unfolding make after on_trade
after-vwap_bounds_example =
    after-vwap_bounds 2 1 prints busy (omega arith) (omega (arith, notional-prints)) busy_stands
