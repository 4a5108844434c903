-- ===== src/Engine/Paper/Tests.antt =====
-- A trade of `PaperTrader`, from its signal to its target, in whole dollars.
use stok.Base.{arith, ℕ, ◌+◌, ◌*◌, ◌≤◌, ◌≡◌, refl, true, false, not, List, [], ◌∷◌, max}
use stok.Base.Int.{ℤ, pos, ltb_ℤ, pos_part, neg_part, sub_ℕ}
use stok.Util.Ascii.{codes}
use stok.Util.Time.{quot, mul_nat}
use stok.Market.Board.{MarketHot}
use stok.Engine.Double.{Double}
use stok.Engine.Signal.{Signal, alert, contract}
use stok.Engine.Paper.{PaperConfig, Pos, make, open_positions, eastern_day}
use stok.Engine.Paper.Ledger.{Books}
use stok.Engine.Paper.Run.{Call, signalled, stepped, run, run-Books, run-open_positions}

-- Whole numbers in place of doubles; a product or quotient by a number below 0 does not occur.
abbrev whole : Double
whole = record {
  F = ℤ;
  of_int = λ n. n;
  add = λ a b. sub_ℕ (pos_part a + pos_part b) (neg_part a + neg_part b);
  sub = λ a b. sub_ℕ (pos_part a + neg_part b) (neg_part a + pos_part b);
  mul = λ a b. mul_nat a (pos_part b);
  div = λ a b. quot a (pos_part b);
  neg = λ a. sub_ℕ (neg_part a) (pos_part a);
  floor = λ a. a;
  lt = λ a b. ltb_ℤ a b;
  le = λ a b. not (ltb_ℤ b a);
}

abbrev cfg : PaperConfig whole
cfg = record {
  trade_alert = true;
  trade_high = true;
  latency_ms = pos 250;
  slippage_bps = pos 0;
  position_usd = pos 1000;
  max_open = pos 3;
  max_daily_loss_usd = pos 300;
  stop_loss_pct = pos 8;
  take_profit_pct = pos 20;
  trail_activate_pct = pos 10;
  trail_pct = pos 8;
  max_hold_min = pos 30;
  flat_by_minute = pos 955;
  entry_timeout_s = pos 10;
  max_chase_pct = pos 5;
  commission_per_share = pos 0;
  commission_min = pos 0;
}

abbrev news : Signal whole
news = record {
  sym = 7;
  tier = alert;
  catalyst = contract;
  score = pos 80;
  news_id = 1;
  price = pos 10;
  ask = pos 10;
  ticker = codes "ABCD";
}

-- A market at one dollar price.
abbrev at_price : ℕ → ℕ → MarketHot
at_price state dollars = record {
  last_px = pos (dollars * 10000);
  open_px = pos 0;
  high_px = pos 0;
  low_px = pos 0;
  rth_last_px = pos 0;
  close_px = pos 0;
  pm_high_px = pos 0;
  day_volume = 0;
  notional_e4 = 0;
  trades = 0;
  last_trade_ns = pos 0;
  trading_state = state;
  halt_reason = [];
  reg_sho_restricted = false;
  bid_px = pos 0;
  ask_px = pos 0;
  bid_sz = 0;
  ask_sz = 0;
  quote_ns = pos 0;
}

abbrev noon : ℕ
noon = 1_790_352_000_000_000_000

-- It fills at 10, waits through a halt at 5 and is sold at 13.
abbrev calls : List (Call whole)
calls =
    signalled news noon
    ∷ signalled news noon
    ∷ stepped (λ _. at_price b'T' 10) (noon + 1_000_000_000)
    ∷ stepped (λ _. at_price b'H' 5) (noon + 2_000_000_000)
    ∷ stepped (λ _. at_price b'T' 13) (noon + 3_000_000_000)
    ∷ []

run-Books_example :
    Books whole (run whole (make whole cfg) calls).st (run whole (make whole cfg) calls).slots
run-Books_example = run-Books whole cfg calls (omega arith)

run-open_positions_example :
    open_positions whole (run whole (make whole cfg) calls) ≤ max 1 (pos_part cfg.max_open)
run-open_positions_example = run-open_positions whole cfg calls

traded :
    ((run whole (make whole cfg) calls).st.opened ≡ 1)
    × ((run whole (make whole cfg) calls).st.wins ≡ 1)
    × ((run whole (make whole cfg) calls).st.rejected_dup ≡ 1)
    × ((run whole (make whole cfg) calls).st.realized ≡ pos 300)
unfolding run make eastern_day
traded = (refl, refl, refl, refl)

abbrev held_pos : Pos whole
held_pos = record {
  active = true;
  filled = true;
  eligible_ns = noon;
  t = record {
    sym = 7;
    tier = alert;
    catalyst = contract;
    closed = false;
    quote_entry = false;
    quote_exit = false;
    size_over_touch = false;
    score = pos 80;
    news_id = 1;
    signal_ns = noon;
    entry_ns = noon;
    exit_ns = 0;
    signal_px = pos 10;
    entry_px = pos 10;
    exit_px = pos 0;
    shares = pos 100;
    fees = pos 0;
    pnl_usd = pos 0;
    pnl_pct = pos 0;
    mfe_pct = pos 0;
    mae_pct = pos 0;
    ticker = codes "ABCD";
    exit_reason = [];
  };
}
