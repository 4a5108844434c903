-- ===== src/Engine/Paper.antt =====
-- `PaperTrader` of src/engine/paper.cpp and paper.hpp: simulated positions, opened by signals, filled and
-- closed at the board's prices. `hot` is what the board shows of a symbol during a call; `sink` collects the
-- trades that the caller is given. A figure in `double` is one of the parameter `D`. A uint64_t keeps its
-- wrap-around.
pub mod Step
pub mod Count
pub mod Ledger
pub mod Run
pub mod Halt
mod Tests
use stok.Base.{
  ℕ, zero, suc, ◌+◌, ◌-◌, ◌*◌, ◌^◌, ◌%◌, max, Bool, true, false, ◌&&◌, ◌||◌, not, Option, none,
  some, List, [], ◌∷◌, ltb, leb, ◌==◌, if◌then◌else◌, length, replicate, set,
}
use stok.Base.Int.{ℤ, pos, negsuc, ltb_ℤ, pos_part, word64}
use stok.Util.Ascii.{Bytes}
use stok.Util.Time.{days_from_civil, eastern_date}
use stok.Market.Board.{to_i64, eq_ℤ}
use stok.Engine.Double.{Double}
use stok.Engine.Signal.{Tier, untiered, alert, high, uncaused, Signal, PaperTrade}

abbrev pub ns_per_sec : ℕ
ns_per_sec = 1_000_000_000

abbrev pub ns_per_ms : ℕ
ns_per_ms = 1_000_000

-- The difference of two words.
abbrev pub sub_word : ℕ → ℕ → ℕ
sub_word a b = (a + (2 ^ 64 - b)) % 2 ^ 64

-- `static_cast<uint64_t>(n) * unit`
abbrev pub span : ℤ → ℕ → ℕ
span n unit = word64 n * unit % 2 ^ 64

module _ (D : Double) where
  pub record PaperConfig : Type 0 where
    pub trade_alert : Bool
    pub trade_high : Bool
    pub latency_ms : ℤ
    pub slippage_bps : D.F
    pub position_usd : D.F
    pub max_open : ℤ
    pub max_daily_loss_usd : D.F
    pub stop_loss_pct : D.F
    pub take_profit_pct : D.F
    pub trail_activate_pct : D.F
    pub trail_pct : D.F
    pub max_hold_min : ℤ
    pub flat_by_minute : ℤ
    pub entry_timeout_s : ℤ
    pub max_chase_pct : D.F
    pub commission_per_share : D.F
    pub commission_min : D.F

  pub record Stats : Type 0 where
    pub signals : ℕ
    pub opened : ℕ
    pub closed : ℕ
    pub wins : ℕ
    pub losses : ℕ
    pub rejected_risk : ℕ
    pub rejected_capacity : ℕ
    pub rejected_dup : ℕ
    pub cancelled_chase : ℕ
    pub cancelled_timeout : ℕ
    pub gross_win : D.F
    pub gross_loss : D.F
    pub realized : D.F
    pub peak : D.F
    pub max_drawdown : D.F
    pub day_realized : D.F

  pub record Pos : Type 0 where
    pub active : Bool
    pub filled : Bool
    pub eligible_ns : ℕ
    pub t : PaperTrade D

  pub record PaperTrader : Type 0 where
    pub cfg : PaperConfig
    pub slots : List Pos
    pub st : Stats
    pub day : ℤ
    pub day_checked_at : ℕ

  -- `PaperTrade{}`, `Pos{}` and `Stats{}`
  unfoldable pub no_trade : PaperTrade D
  no_trade =
      let nought = D.of_int (pos 0) in
      record {
        sym = 0;
        tier = untiered;
        catalyst = uncaused;
        closed = false;
        quote_entry = false;
        quote_exit = false;
        size_over_touch = false;
        score = pos 0;
        news_id = 0;
        signal_ns = 0;
        entry_ns = 0;
        exit_ns = 0;
        signal_px = nought;
        entry_px = nought;
        exit_px = nought;
        shares = nought;
        fees = nought;
        pnl_usd = nought;
        pnl_pct = nought;
        mfe_pct = nought;
        mae_pct = nought;
        ticker = [];
        exit_reason = [];
      }

  unfoldable pub no_pos : Pos
  unfolding no_trade
  no_pos = record { active = false; filled = false; eligible_ns = 0; t = no_trade }

  unfoldable pub no_stats : Stats
  no_stats =
      let nought = D.of_int (pos 0) in
      record {
        signals = 0;
        opened = 0;
        closed = 0;
        wins = 0;
        losses = 0;
        rejected_risk = 0;
        rejected_capacity = 0;
        rejected_dup = 0;
        cancelled_chase = 0;
        cancelled_timeout = 0;
        gross_win = nought;
        gross_loss = nought;
        realized = nought;
        peak = nought;
        max_drawdown = nought;
        day_realized = nought;
      }

  -- The constructor.
  unfoldable pub make : PaperConfig → PaperTrader
  unfolding no_pos no_stats
  make cfg = record {
    cfg = cfg;
    slots = replicate (max 1 (pos_part cfg.max_open)) no_pos;
    st = no_stats;
    day = pos 0;
    day_checked_at = 0;
  }

  abbrev pub active_among : List Pos → ℕ
  active_among [] = 0
  active_among (p ∷ ps) = (if p.active then 1 else 0) + active_among ps

  unfoldable pub open_positions : PaperTrader → ℕ
  open_positions r = active_among r.slots

  -- `static_cast<int32_t>` of the Eastern day; its number is in that range.
  unfoldable pub eastern_day : ℕ → ℤ
  unfolding eastern_date days_from_civil
  eastern_day now = let date = eastern_date (to_i64 now) in days_from_civil date.y date.m date.d

  abbrev pub rolled : PaperTrader → ℕ → ℤ → PaperTrader
  rolled r now day = if eq_ℤ day r.day then record r { day_checked_at = now } else record r {
    day_checked_at = now;
    day = day;
    st = record r.st { day_realized = D.of_int (pos 0) };
  }

  abbrev pub is_checked : PaperTrader → ℕ → Bool
  is_checked r now =
      not (eq_ℤ r.day (pos 0))
      && leb r.day_checked_at now
      && ltb (now - r.day_checked_at) (60 * ns_per_sec)

  unfoldable pub roll_day : PaperTrader → ℕ → PaperTrader
  roll_day r now = if is_checked r now then r else rolled r now (eastern_day now)

  -- What the loop over the positions finds: a position on the symbol, or the first free slot.
  pub data Found : Type 0 where
    taken : Found
    slot : Option ℕ → Found

  abbrev pub next_slot : Found → Found
  next_slot taken = taken
  next_slot (slot none) = slot none
  next_slot (slot (some i)) = slot (some (suc i))

  abbrev pub here_first : Found → Found
  here_first taken = taken
  here_first (slot o) = slot (some 0)

  unfoldable pub find_slot : ℕ → List Pos → Found
  find_slot sym [] = slot none
  find_slot sym (p ∷ ps) =
      let rest = next_slot (find_slot sym ps) in
      if p.active && (p.t.sym == sym) then taken else if not p.active then here_first rest else rest

  -- The position that a signal opens.
  unfoldable pub pending : PaperConfig → Signal D → ℕ → Pos
  unfolding no_trade
  pending cfg s now = record {
    active = true;
    filled = false;
    eligible_ns = (now + span cfg.latency_ms ns_per_ms) % 2 ^ 64;
    t = record no_trade {
      sym = s.sym;
      tier = s.tier;
      catalyst = s.catalyst;
      score = s.score;
      news_id = s.news_id;
      signal_ns = now;
      signal_px = if D.lt (D.of_int (pos 0)) s.ask then s.ask else s.price;
      ticker = s.ticker;
    };
  }

  abbrev pub is_traded : PaperConfig → Tier → Bool
  is_traded cfg alert = cfg.trade_alert
  is_traded cfg high = cfg.trade_high
  is_traded cfg other = false

  abbrev pub placed : PaperTrader → Signal D → ℕ → Option ℕ → PaperTrader
  placed r s now none = record r {
    st = record r.st { rejected_capacity = (r.st.rejected_capacity + 1) % 2 ^ 64 };
  }
  placed r s now (some i) = record r { slots = set r.slots i (pending r.cfg s now) }

  -- Past the loop over the positions.
  abbrev pub admitted : PaperTrader → Signal D → ℕ → Found → PaperTrader
  admitted r s now taken = record r {
    st = record r.st { rejected_dup = (r.st.rejected_dup + 1) % 2 ^ 64 };
  }
  admitted r s now (slot o) =
      if D.le r.st.day_realized (D.neg r.cfg.max_daily_loss_usd)
      then record r { st = record r.st { rejected_risk = (r.st.rejected_risk + 1) % 2 ^ 64 } }
      else placed r s now o

  abbrev pub counted : PaperTrader → PaperTrader
  counted r = record r { st = record r.st { signals = (r.st.signals + 1) % 2 ^ 64 } }

  unfoldable pub on_signal : PaperTrader → Signal D → ℕ → PaperTrader
  unfolding roll_day find_slot pending
  on_signal r s now =
      if not (is_traded r.cfg s.tier)
      then r
      else (let r' = counted (roll_day r now) in admitted r' s now (find_slot s.sym r'.slots))
