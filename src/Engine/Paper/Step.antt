-- ===== src/Engine/Paper/Step.antt =====
-- Fills and exits of `PaperTrader`: `try_fill`, `check_exit`, `finish`, `step` and `close_all`.
use stok.Base.{
  ℕ, ◌+◌, ◌*◌, ◌%◌, ◌^◌, Bool, true, false, ◌&&◌, ◌||◌, not, Option, none, some, List, [], ◌∷◌, ltb,
  leb, if◌then◌else◌,
}
use stok.Base.Int.{ℤ, pos, ltb_ℤ}
use stok.Util.Ascii.{Bytes, codes}
use stok.Util.Time.{eastern_minute_of_day}
use stok.Market.Board.{MarketHot, quote_valid, halted, to_i64}
use stok.Engine.Double.{Double, maximum, minimum}
use stok.Engine.Signal.{PaperTrade}
use stok.Engine.Paper.{PaperConfig, Stats, Pos, PaperTrader, roll_day, ns_per_sec, sub_word, span}

module _ (D : Double) where
  -- `MarketHot::last`, `bid` and `ask`: a price of the board in dollars.
  abbrev pub dollars : ℤ → D.F
  dollars px = D.div (D.of_int px) (D.of_int (pos 10000))

  abbrev pub number : ℕ → D.F
  number n = D.of_int (pos n)

  -- `x * (1.0 + bps / 1e4)` and `x * (1.0 - bps / 1e4)`
  abbrev pub dearer : D.F → D.F → D.F
  dearer x bps = D.mul x (D.add (number 1) (D.div bps (number 10000)))

  abbrev pub cheaper : D.F → D.F → D.F
  cheaper x bps = D.mul x (D.sub (number 1) (D.div bps (number 10000)))

  abbrev pub fees : PaperConfig D → D.F → D.F
  fees cfg shares = maximum D cfg.commission_min (D.mul shares cfg.commission_per_share)

  abbrev pub signal_limit : PaperConfig D → PaperTrade D → D.F
  signal_limit cfg t = D.mul t.signal_px (D.add (number 1) (D.div cfg.max_chase_pct (number 100)))

  -- The counters, one position and whether the caller is given its trade.
  pub record Moved : Type 0 where
    pub st : Stats D
    pub p : Pos D
    pub told : Bool

  abbrev pub filled_at : PaperConfig D → Stats D → Pos D → MarketHot → ℕ → Bool → D.F → D.F → Moved
  filled_at cfg st p h now quote fill shares =
      if D.lt shares (number 1)
      then record { st = st; p = record p { active = false }; told = false }
      else record {
        st = record st { opened = (st.opened + 1) % 2 ^ 64 };
        p = record p {
          filled = true;
          t = record p.t {
            entry_px = fill;
            entry_ns = now;
            shares = shares;
            quote_entry = quote;
            size_over_touch = quote && D.lt (number h.ask_sz) shares;
            fees = fees cfg shares;
            mfe_pct = number 0;
            mae_pct = number 0;
            closed = false;
          };
        };
        told = true;
      }

  abbrev pub priced_at : PaperConfig D → Stats D → Pos D → MarketHot → ℕ → Bool → D.F → Moved
  priced_at cfg st p h now quote px =
      if halted h || D.le px (number 0)
      then (if ltb (span cfg.entry_timeout_s ns_per_sec) (sub_word now p.eligible_ns)
          then record {
            st = record st { cancelled_timeout = (st.cancelled_timeout + 1) % 2 ^ 64 };
            p = record p { active = false };
            told = false;
          }
          else record { st = st; p = p; told = false })
      else if D.lt (number 0) p.t.signal_px && D.lt (signal_limit cfg p.t) px
      then record {
        st = record st { cancelled_chase = (st.cancelled_chase + 1) % 2 ^ 64 };
        p = record p { active = false };
        told = false;
      }
      else (let fill = dearer px cfg.slippage_bps in
          filled_at cfg st p h now quote fill (D.floor (D.div cfg.position_usd fill)))

  unfoldable pub try_fill : PaperConfig D → Stats D → Pos D → MarketHot → ℕ → Moved
  unfolding quote_valid halted
  try_fill cfg st p h now =
      priced_at cfg st p h now (quote_valid h)
        (dollars (if quote_valid h then h.ask_px else h.last_px))

  -- What `check_exit` answers: whether there is a reason, the price and whether a quote gave it.
  pub record Exit : Type 0 where
    pub reason : Option Bytes
    pub px : D.F
    pub quote : Bool
    pub seen : PaperTrade D

  abbrev pub flat_time : PaperConfig D → PaperTrade D → ℕ → Bool
  unfolding eastern_minute_of_day
  flat_time cfg t now =
      not (ltb_ℤ (eastern_minute_of_day (to_i64 now)) cfg.flat_by_minute)
      && ltb_ℤ (eastern_minute_of_day (to_i64 t.entry_ns)) cfg.flat_by_minute

  abbrev pub exit_reason : PaperConfig D → PaperTrade D → ℕ → D.F → Option Bytes
  exit_reason cfg t now chg =
      if D.le chg (D.neg cfg.stop_loss_pct)
      then some (codes "stop")
      else if D.le cfg.take_profit_pct chg
      then some (codes "target")
      else if D.le cfg.trail_activate_pct t.mfe_pct && D.le chg (D.sub t.mfe_pct cfg.trail_pct)
      then some (codes "trail")
      else if leb (span cfg.max_hold_min (60 * ns_per_sec)) (sub_word now t.entry_ns)
      then some (codes "time")
      else if flat_time cfg t now
      then some (codes "flat")
      else none

  -- The trade after a look at the price, with its best and worst change so far.
  abbrev pub looked : PaperTrade D → D.F → PaperTrade D
  looked t chg = record t { mfe_pct = maximum D t.mfe_pct chg; mae_pct = minimum D t.mae_pct chg }

  abbrev pub marked_at : PaperConfig D → PaperTrade D → ℕ → Bool → D.F → Exit
  marked_at cfg t now quote mark =
      if D.le mark (number 0)
      then record { reason = none; px = number 0; quote = quote; seen = t }
      else (let chg = D.div (D.mul (D.sub mark t.entry_px) (number 100)) t.entry_px in
          record {
            reason = exit_reason cfg (looked t chg) now chg;
            px = cheaper mark cfg.slippage_bps;
            quote = quote;
            seen = looked t chg;
          })

  unfoldable pub check_exit : PaperConfig D → PaperTrade D → MarketHot → ℕ → Exit
  unfolding quote_valid halted eastern_minute_of_day
  check_exit cfg t h now =
      if halted h
      then record { reason = none; px = number 0; quote = false; seen = t }
      else marked_at cfg t now (quote_valid h)
          (dollars (if quote_valid h then h.bid_px else h.last_px))

  -- The figures of a trade that is closed at a price.
  abbrev pub closed_trade : PaperConfig D → PaperTrade D → ℕ → Bytes → D.F → Bool → PaperTrade D
  closed_trade cfg t now reason px quote =
      let paid = D.add t.fees (fees cfg t.shares) in
      let pnl = D.sub (D.mul (D.sub px t.entry_px) t.shares) paid in
      record t {
        exit_px = px;
        exit_ns = now;
        quote_exit = quote;
        closed = true;
        fees = paid;
        pnl_usd = pnl;
        pnl_pct = D.div (D.mul pnl (number 100)) (D.mul t.entry_px t.shares);
        exit_reason = reason;
      }

  abbrev pub won_or_lost : Stats D → D.F → Stats D
  won_or_lost st pnl =
      if D.lt (number 0) pnl
      then record st { wins = (st.wins + 1) % 2 ^ 64; gross_win = D.add st.gross_win pnl }
      else record st {
        losses = (st.losses + 1) % 2 ^ 64;
        gross_loss = D.add st.gross_loss (D.neg pnl);
      }

  abbrev pub booked : Stats D → D.F → Stats D
  booked st pnl =
      let total = D.add st.realized pnl in
      let top = maximum D st.peak total in
      record st {
        realized = total;
        day_realized = D.add st.day_realized pnl;
        peak = top;
        max_drawdown = maximum D st.max_drawdown (D.sub top total);
      }

  -- `finish`, and the position given up.
  unfoldable pub finish : PaperConfig D → Stats D → Pos D → ℕ → Bytes → D.F → Bool → Moved
  finish cfg st p now reason px quote =
      let t = closed_trade cfg p.t now reason px quote in
      record {
        st =
            booked (won_or_lost (record st { closed = (st.closed + 1) % 2 ^ 64 }) t.pnl_usd)
              t.pnl_usd;
        p = record p { t = t; active = false };
        told = true;
      }

  abbrev pub exited : PaperConfig D → Stats D → Pos D → ℕ → Exit → Option Bytes → Moved
  exited cfg st p now e none = record { st = st; p = record p { t = e.seen }; told = false }
  exited cfg st p now e (some reason) =
      finish cfg st (record p { t = e.seen }) now reason e.px e.quote

  -- One position in `step`.
  unfoldable pub step_pos : PaperConfig D → (ℕ → MarketHot) → ℕ → Stats D → Pos D → Moved
  unfolding try_fill check_exit finish
  step_pos cfg hot now st p =
      if not p.active
      then record { st = st; p = p; told = false }
      else if not p.filled
      then (if ltb now p.eligible_ns
          then record { st = st; p = p; told = false }
          else try_fill cfg st p (hot p.t.sym) now)
      else (let e = check_exit cfg p.t (hot p.t.sym) now in exited cfg st p now e e.reason)

  -- One position in `close_all`.
  unfoldable pub close_pos : PaperConfig D → (ℕ → MarketHot) → ℕ → Bytes → Stats D → Pos D → Moved
  unfolding finish quote_valid
  close_pos cfg hot now reason st p =
      if not p.active
      then record { st = st; p = p; told = false }
      else if p.filled
      then (let h = hot p.t.sym in
          let quote = quote_valid h in
          finish cfg st p now reason
            (cheaper (dollars (if quote then h.bid_px else h.last_px)) cfg.slippage_bps) quote)
      else record { st = st; p = record p { active = false }; told = false }

  -- The counters, the positions and the trades that the caller has been given.
  pub record Swept : Type 0 where
    pub st : Stats D
    pub slots : List (Pos D)
    pub sink : List (PaperTrade D)

  abbrev pub before : Moved → Swept → Swept
  before m s = record s { slots = m.p ∷ s.slots; sink = if m.told then m.p.t ∷ s.sink else s.sink }

  -- The loop over the positions.
  unfoldable pub sweep : (Stats D → Pos D → Moved) → Stats D → List (Pos D) → Swept
  sweep f st [] = record { st = st; slots = []; sink = [] }
  sweep f st (p ∷ ps) = let m = f st p in before m (sweep f m.st ps)

  abbrev pub swept : PaperTrader D → Swept → PaperTrader D × List (PaperTrade D)
  swept r s = (record r { st = s.st; slots = s.slots }, s.sink)

  unfoldable pub step : PaperTrader D → (ℕ → MarketHot) → ℕ → PaperTrader D × List (PaperTrade D)
  unfolding sweep step_pos roll_day
  step r0 hot now =
      let r = roll_day D r0 now in swept r (sweep (step_pos r.cfg hot now) r.st r.slots)

  unfoldable pub close_all :
      PaperTrader D → (ℕ → MarketHot) → ℕ → Bytes → PaperTrader D × List (PaperTrade D)
  unfolding sweep close_pos
  close_all r hot now reason = swept r (sweep (close_pos r.cfg hot now reason) r.st r.slots)
