-- ===== src/Market/Board/Range.antt =====
-- The volume-weighted price of a day lies between its low and its high.
use stok.Base.{ℕ, ◌+◌, ◌*◌, ◌^◌, ◌≤◌, ◌<◌, min, max, ◌≡◌, List, [], ◌∷◌, some, arith, get_elem?}
use stok.Base.Int.{pos_part}
use stok.Market.Board.{MarketState, make}
use stok.Market.Board.Trades.{Trade, counted, volume, notional, highest, lowest, after, after-Shows}

weigh_low : (m p l s v n : ℕ) → m ≤ p → m ≤ l → l * v ≤ n → m * (s + v) ≤ p * s + n
weigh_low m p l s v n a b h = grind arith

weigh_high : (m p l s v n : ℕ) → p ≤ m → l ≤ m → n ≤ l * v → p * s + n ≤ m * (s + v)
weigh_high m p l s v n a b h = grind arith

weighted :
    (ts : List Trade)
    → (lowest ts * volume ts ≤ notional ts) × (notional ts ≤ highest ts * volume ts)
unfolding lowest volume notional highest
weighted [] = omega arith
weighted (t ∷ []) = grind arith
weighted (t ∷ u ∷ ts) =
    let (lo, hi) = weighted (u ∷ ts) in
    (
      weigh_low (min (pos_part t.px) (lowest (u ∷ ts))) (pos_part t.px) (lowest (u ∷ ts)) t.shares
          (volume (u ∷ ts)) (notional (u ∷ ts)) (omega arith) (omega arith) lo,
      weigh_high (max (pos_part t.px) (highest (u ∷ ts))) (pos_part t.px) (highest (u ∷ ts))
          t.shares (volume (u ∷ ts)) (notional (u ∷ ts)) (omega arith) (omega arith) hi,
    )

-- After any feed of prints to a new board, with the symbol's notional within a uint64_t: the low price
-- times the day's volume is at most the notional, which is at most the high price times the volume.
pub after-vwap_bounds :
    (n i : ℕ) (ts : List Trade) (s : MarketState)
    → i < n
    → notional (counted i ts) < 2 ^ 64
    → get_elem? (after (make n) ts).states i ≡ some s
    → (pos_part s.hot.low_px * s.hot.day_volume ≤ s.hot.notional_e4)
      × (s.hot.notional_e4 ≤ pos_part s.hot.high_px * s.hot.day_volume)
after-vwap_bounds n i ts s lt fits e =
    let w = after-Shows n i ts lt fits in
    let same : w.state ≡ s = cc (w.stands) in
    rw (← same) (
      rw (w.figures.low_is, w.figures.high_is, w.figures.volume_is, w.figures.notional_is)
        (weighted (counted i ts)))
