-- ===== src/Market/Board.antt =====
-- `MarketHot`, `MinuteBar`, `MarketState` and `MarketBoard` of src/market/board.hpp and board.cpp. An
-- int32_t or int64_t is an integer; a uint64_t keeps its wrap-around. The sequence counter that
-- brackets each write belongs to `SeqLocked`, and the derived doubles (`vwap`, `last`) to the reader.
pub mod Trades
pub mod Range
mod Tests
use Prim.Native.Nat.{bit_and}
use stok.Base.{
  ℕ, zero, suc, ◌+◌, ◌-◌, ◌*◌, ◌/◌, ◌%◌, ◌^◌, Bool, true, false, ◌||◌, ◌&&◌, not, Option, none,
  some, List, [], ◌∷◌, ltb, leb, ◌==◌, if◌then◌else◌, length, get_elem?, set, replicate,
}
pub use stok.Base.Int.{to_i32, to_i64, eq_ℤ}
use stok.Base.Int.{ℤ, pos, negsuc, pos_part, neg_part, ◌+ℤ◌, ltb_ℤ}

abbrev pub ns_per_minute : ℕ
ns_per_minute = 60_000_000_000

abbrev pub rth_open_ns : ℕ
rth_open_ns = (9 * 60 + 30) * ns_per_minute

abbrev pub rth_close_ns : ℕ
rth_close_ns = 16 * 60 * ns_per_minute

abbrev pub bar_ring : ℕ
bar_ring = 64

-- `pad0` and `pad1` are never read.
pub record MarketHot : Type 0 where
  pub last_px : ℤ
  pub open_px : ℤ
  pub high_px : ℤ
  pub low_px : ℤ
  pub rth_last_px : ℤ
  pub close_px : ℤ
  pub pm_high_px : ℤ
  pub day_volume : ℕ
  pub notional_e4 : ℕ
  pub trades : ℕ
  pub last_trade_ns : ℤ
  pub trading_state : ℕ
  pub halt_reason : List ℕ
  pub reg_sho_restricted : Bool
  pub bid_px : ℤ
  pub ask_px : ℤ
  pub bid_sz : ℕ
  pub ask_sz : ℕ
  pub quote_ns : ℤ

pub record MinuteBar : Type 0 where
  pub minute : ℤ
  pub open_px : ℤ
  pub high_px : ℤ
  pub low_px : ℤ
  pub close_px : ℤ
  pub volume : ℕ

pub record MarketState : Type 0 where
  pub hot : MarketHot
  pub bars : List MinuteBar

pub record MarketBoard : Type 0 where
  pub states : List MarketState
  pub midnight_ns : ℤ

abbrev pub new_hot : MarketHot
new_hot = record {
  last_px = pos 0;
  open_px = pos 0;
  high_px = pos 0;
  low_px = pos 0;
  rth_last_px = pos 0;
  close_px = pos 0;
  pm_high_px = pos 0;
  day_volume = 0;
  notional_e4 = 0;
  trades = 0;
  last_trade_ns = pos 0;
  trading_state = 0;
  halt_reason = [];
  reg_sho_restricted = false;
  bid_px = pos 0;
  ask_px = pos 0;
  bid_sz = 0;
  ask_sz = 0;
  quote_ns = pos 0;
}

abbrev pub new_bar : MinuteBar
new_bar = record {
  minute = negsuc 0;
  open_px = pos 0;
  high_px = pos 0;
  low_px = pos 0;
  close_px = pos 0;
  volume = 0;
}

abbrev pub new_state : MarketState
new_state = record { hot = new_hot; bars = replicate bar_ring new_bar }

-- The constructor of `MarketBoard`.
pub make : ℕ → MarketBoard
make n_symbols = record { states = replicate n_symbols new_state; midnight_ns = pos 0 }

unfoldable pub quote_valid : MarketHot → Bool
quote_valid h = ltb_ℤ (pos 0) h.bid_px && ltb_ℤ (pos 0) h.ask_px && ltb_ℤ h.bid_px h.ask_px

unfoldable pub halted : MarketHot → Bool
halted h = h.trading_state == b'H' || h.trading_state == b'P' || h.trading_state == b'Q'

volume_in : List MinuteBar → ℤ → ℕ → ℕ
volume_in [] from v = v
volume_in (b ∷ bs) from v =
    volume_in bs from (if ltb_ℤ b.minute from then v else (v + b.volume) % 2 ^ 64)

pub volume_since_minute : MarketState → ℤ → ℕ
volume_since_minute s from = volume_in s.bars from 0

-- The loop of `price_at_minute` over (best_min, px).
price_in : List MinuteBar → ℤ → ℤ → ℤ → ℤ
price_in [] minute best px = px
price_in (b ∷ bs) minute best px =
    let hit = not (ltb_ℤ b.minute (pos 0)) && not (ltb_ℤ minute b.minute) && ltb_ℤ best b.minute in
    price_in bs minute (if hit then b.minute else best) (if hit then b.close_px else px)

pub price_at_minute : MarketState → ℤ → ℤ
price_at_minute s minute = price_in s.bars minute (negsuc 0) (pos 0)

-- `apply_trade`, the part on `hot`.
pub hot_trade : MarketHot → ℤ → ℤ → ℕ → ℕ → MarketHot
hot_trade h midnight px shares ns =
    let regular = not (ltb ns rth_open_ns) && ltb ns rth_close_ns in
    record h {
      last_px = px;
      high_px = if eq_ℤ h.high_px (pos 0) || ltb_ℤ h.high_px px then px else h.high_px;
      low_px = if eq_ℤ h.low_px (pos 0) || ltb_ℤ px h.low_px then px else h.low_px;
      day_volume = (h.day_volume + shares) % 2 ^ 64;
      notional_e4 = (h.notional_e4 + pos_part px * shares % 2 ^ 64) % 2 ^ 64;
      trades = (h.trades + 1) % 2 ^ 64;
      last_trade_ns = midnight +ℤ to_i64 ns;
      pm_high_px = if ltb ns rth_open_ns && ltb_ℤ h.pm_high_px px then px else h.pm_high_px;
      open_px = if regular && eq_ℤ h.open_px (pos 0) then px else h.open_px;
      rth_last_px = if regular then px else h.rth_last_px;
    }

-- `apply_trade`, the part on the minute's bar: a slot of an older minute starts anew.
pub bar_trade : MinuteBar → ℕ → ℤ → ℕ → MinuteBar
bar_trade b minute px shares =
    let fresh : MinuteBar = record {
      minute = pos minute;
      open_px = px;
      high_px = px;
      low_px = px;
      close_px = px;
      volume = 0;
    } in
    let c : MinuteBar = if eq_ℤ b.minute (pos minute) then b else fresh in
    record c {
      high_px = if ltb_ℤ c.high_px px then px else c.high_px;
      low_px = if ltb_ℤ px c.low_px then px else c.low_px;
      close_px = px;
      volume = (c.volume + shares) % 2 ^ 64;
    }

-- The bar slot is always in the ring, so the `none` case is not reached with 64 bars.
abbrev bar_at : List MinuteBar → ℕ → ℕ → ℤ → ℕ → Option MinuteBar → List MinuteBar
bar_at bs slot minute px shares none = bs
bar_at bs slot minute px shares (some b) = set bs slot (bar_trade b minute px shares)

pub bars_trade : List MinuteBar → ℕ → ℤ → ℕ → List MinuteBar
bars_trade bs minute px shares =
    let slot = bit_and minute (bar_ring - 1) in bar_at bs slot minute px shares (get_elem? bs slot)

pub apply_trade : MarketState → ℤ → ℤ → ℕ → ℕ → MarketState
unfolding hot_trade bars_trade bar_trade
apply_trade s midnight px shares ns = record {
  hot = hot_trade s.hot midnight px shares ns;
  bars = bars_trade s.bars (ns / ns_per_minute) px shares;
}

-- Write one symbol's state; an unknown symbol changes nothing.
abbrev write_back : MarketBoard → ℕ → (MarketState → MarketState) → Option MarketState → MarketBoard
write_back b sym f none = b
write_back b sym f (some s) = record b { states = set b.states sym (f s) }

pub on_state : MarketBoard → ℕ → (MarketState → MarketState) → MarketBoard
on_state b sym f = write_back b sym f (get_elem? b.states sym)

pub on_trade : MarketBoard → ℕ → ℤ → ℕ → ℕ → MarketBoard
unfolding apply_trade on_state
on_trade b sym px shares ns =
    if not (ltb_ℤ (pos 0) px) || (shares == 0)
    then b
    else on_state b sym (λ s. apply_trade s b.midnight_ns px shares ns)

abbrev cross_hot : MarketHot → ℤ → ℕ → MarketHot
cross_hot h px cross_type =
    if cross_type == b'O'
    then record h { open_px = px }
    else if cross_type == b'C'
    then record h { close_px = px }
    else h

pub on_cross : MarketBoard → ℕ → ℤ → ℕ → ℕ → ℕ → MarketBoard
unfolding apply_trade on_state
on_cross b sym px shares ns cross_type =
    let traded =
      λ (s : MarketState). if ltb 0 shares then apply_trade s b.midnight_ns px shares ns else s in
    if not (ltb_ℤ (pos 0) px)
    then b
    else on_state b sym (λ s. record (traded s) { hot = cross_hot (traded s).hot px cross_type })

-- At most `n` characters, up to the first space or NUL.
pub reason_prefix : ℕ → List ℕ → List ℕ
reason_prefix zero cs = []
reason_prefix (suc n) [] = []
reason_prefix (suc n) (c ∷ cs) =
    let rest = reason_prefix n cs in if (c == 0) || (c == b' ') then [] else c ∷ rest

pub on_trading_action : MarketBoard → ℕ → ℕ → List ℕ → MarketBoard
unfolding on_state reason_prefix
on_trading_action b sym state reason4 = on_state b sym λ s. record s {
  hot = record s.hot { trading_state = state; halt_reason = reason_prefix 4 reason4 };
}

-- Sizes saturate at UINT32_MAX.
abbrev saturate : ℕ → ℕ
saturate q = if ltb (2 ^ 32 - 1) q then 2 ^ 32 - 1 else q

pub on_quote : MarketBoard → ℕ → ℤ → ℕ → ℤ → ℕ → ℕ → MarketBoard
unfolding on_state
on_quote b sym bid bid_sz ask ask_sz ns = on_state b sym λ s. record s {
  hot = record s.hot {
    bid_px = bid;
    ask_px = ask;
    bid_sz = saturate bid_sz;
    ask_sz = saturate ask_sz;
    quote_ns = b.midnight_ns +ℤ to_i64 ns;
  };
}

pub on_reg_sho : MarketBoard → ℕ → ℕ → MarketBoard
unfolding on_state
on_reg_sho b sym action = on_state b sym λ s. record s {
  hot = record s.hot { reg_sho_restricted = (action == b'1') || (action == b'2') };
}
