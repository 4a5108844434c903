-- ===== src/Engine/Paper/Count.antt =====
-- What one position contributes to the counters of `PaperTrader::Stats`, and what a move of it keeps.
use stok.Base.{
  ℕ, ◌+◌, ◌%◌, ◌^◌, ◌<◌, ◌≤◌, ◌≡◌, refl, Bool, true, false, ◌&&◌, not, Option, none, some,
  if◌then◌else◌, ltb, ◌||◌, arith, branch,
}
use stok.Base.Int.{pos}
use stok.Util.Ascii.{Bytes}
use stok.Market.Board.{MarketHot, quote_valid, halted}
use stok.Engine.Double.{Double}
use stok.Engine.Signal.{PaperTrade}
use stok.Engine.Paper.{PaperConfig, Stats, Pos, ns_per_sec, sub_word, span}
use stok.Engine.Paper.Step.{
  check_exit, dollars, cheaper, dearer, number, signal_limit, booked, closed_trade, Moved, Exit,
  try_fill, filled_at, priced_at, finish, exited, step_pos, close_pos,
}

module _ (D : Double) where
  -- A position that has shares, one that waits for its fill, and either.
  abbrev pub held : Pos D → ℕ
  held p = if p.active then (if p.filled then 1 else 0) else 0

  abbrev pub waits : Pos D → ℕ
  waits p = if p.active then (if p.filled then 0 else 1) else 0

  abbrev pub works : Pos D → ℕ
  works p = if p.active then 1 else 0

  -- The signals that were turned down, and the entries that have ended.
  abbrev pub refused : Stats D → ℕ
  refused st = st.rejected_dup + st.rejected_risk + st.rejected_capacity

  abbrev pub ended : Stats D → ℕ
  ended st = st.opened + st.cancelled_chase + st.cancelled_timeout

  pub record Keeps (st : Stats D) (p : Pos D) (m : Moved D) : Type 0 where
    pub fills : m.st.opened + st.closed + held p ≡ st.opened + m.st.closed + held m.p
    pub results : m.st.wins + m.st.losses + st.closed ≡ st.wins + st.losses + m.st.closed
    pub entries : ended m.st + waits m.p ≤ ended st + waits p
    pub signals : m.st.signals ≡ st.signals
    pub refusals : refused m.st ≡ refused st
    pub frees : works m.p ≤ works p
    pub same_sym : m.p.t.sym ≡ p.t.sym

  -- The counters before a move: none of them is at its last value when the move needs the next.
  pub record Room (st : Stats D) (p : Pos D) : Type 0 where
    pub entries : ended st + waits p < 2 ^ 64
    pub fills : st.closed + held p ≤ st.opened
    pub results : st.wins + st.losses ≡ st.closed

  module _ (cfg : PaperConfig D) (st : Stats D) (p : Pos D) (room : Room st p) where
    still : Keeps st p (record { st = st; p = p; told = false })
    still = record {
      fills = omega arith;
      results = omega arith;
      entries = omega arith;
      signals = refl;
      refusals = refl;
      frees = omega arith;
      same_sym = refl;
    }

    filled_at-Keeps :
        (h : MarketHot) (now : ℕ) (quote : Bool) (fill shares : D.F)
        → p.active ≡ true
        → p.filled ≡ false
        → Keeps st p (filled_at D cfg st p h now quote fill shares)
    filled_at-Keeps h now quote fill shares a f =
        branch (Keeps st p) (D.lt shares (D.of_int (pos 1)))
          (λ _. record {
            fills = ground (arith, room.entries, room.fills, room.results);
            results = omega arith;
            entries = ground (arith, room.entries, room.fills, room.results);
            signals = refl;
            refusals = refl;
            frees = ground arith;
            same_sym = refl;
          })
          (λ _. record {
            fills = ground (arith, room.entries, room.fills, room.results);
            results = omega arith;
            entries = ground (arith, room.entries, room.fills, room.results);
            signals = refl;
            refusals = refl;
            frees = ground arith;
            same_sym = refl;
          })

    -- An entry that is given up.
    dropped :
        (st' : Stats D)
        → st'.opened ≡ st.opened
        → st'.closed ≡ st.closed
        → st'.wins ≡ st.wins
        → st'.losses ≡ st.losses
        → ended st' ≤ ended st + 1
        → st'.signals ≡ st.signals
        → refused st' ≡ refused st
        → p.active ≡ true
        → p.filled ≡ false
        → Keeps st p (record { st = st'; p = record p { active = false }; told = false })
    dropped st' o c w l e s r a f = record {
      fills = ground (arith, room.entries, room.fills, room.results);
      results = omega arith;
      entries = ground (arith, room.entries, room.fills, room.results);
      signals = s;
      refusals = r;
      frees = ground arith;
      same_sym = refl;
    }

    priced_at-Keeps :
        (h : MarketHot) (now : ℕ) (quote : Bool) (px : D.F)
        → p.active ≡ true
        → p.filled ≡ false
        → Keeps st p (priced_at D cfg st p h now quote px)
    priced_at-Keeps h now quote px a f =
        branch (Keeps st p) (halted h || D.le px (number D 0))
          (λ _.
            branch (Keeps st p)
              (ltb (span cfg.entry_timeout_s ns_per_sec) (sub_word now p.eligible_ns))
              (λ _.
                dropped (record st { cancelled_timeout = (st.cancelled_timeout + 1) % 2 ^ 64 }) refl
                  refl refl refl (omega arith) refl refl a f)
              (λ _. still))
          (λ _.
            branch (Keeps st p)
              (D.lt (number D 0) p.t.signal_px && D.lt (signal_limit D cfg p.t) px)
              (λ _.
                dropped (record st { cancelled_chase = (st.cancelled_chase + 1) % 2 ^ 64 }) refl
                  refl refl refl (omega arith) refl refl a f)
              (λ _.
                filled_at-Keeps h now quote (dearer D px cfg.slippage_bps)
                  (D.floor (D.div cfg.position_usd (dearer D px cfg.slippage_bps))) a f))

    try_fill-Keeps :
        (h : MarketHot) (now : ℕ)
        → p.active ≡ true
        → p.filled ≡ false
        → Keeps st p (try_fill D cfg st p h now)
    unfolding try_fill
    try_fill-Keeps h now a f =
        priced_at-Keeps h now (quote_valid h)
          (dollars D (if quote_valid h then h.ask_px else h.last_px)) a f

    -- A position that is closed, after a look at its price.
    finish-Keeps :
        (seen : PaperTrade D) (now : ℕ) (reason : Bytes) (px : D.F) (quote : Bool)
        → seen.sym ≡ p.t.sym
        → p.active ≡ true
        → p.filled ≡ true
        → Keeps st p (finish D cfg st (record p { t = seen }) now reason px quote)
    unfolding finish
    finish-Keeps seen now reason px quote s a f =
        branch
          (λ (q : Stats D). Keeps st p (record {
            st = booked D q t'.pnl_usd;
            p = record p { t = t'; active = false };
            told = true;
          }))
          (D.lt (number D 0) t'.pnl_usd)
          (λ _. record {
            fills = ground (arith, room.entries, room.fills, room.results);
            results = ground (arith, room.entries, room.fills, room.results);
            entries = ground (arith, room.entries, room.fills, room.results);
            signals = refl;
            refusals = refl;
            frees = ground arith;
            same_sym = s;
          })
          (λ _. record {
            fills = ground (arith, room.entries, room.fills, room.results);
            results = ground (arith, room.entries, room.fills, room.results);
            entries = ground (arith, room.entries, room.fills, room.results);
            signals = refl;
            refusals = refl;
            frees = ground arith;
            same_sym = s;
          })
      where
        t' : PaperTrade D
        t' = closed_trade D cfg seen now reason px quote

    exited-Keeps :
        (now : ℕ) (e : Exit D) (o : Option Bytes)
        → e.seen.sym ≡ p.t.sym
        → p.active ≡ true
        → p.filled ≡ true
        → Keeps st p (exited D cfg st p now e o)
    exited-Keeps now e none s a f = record {
      fills = omega arith;
      results = omega arith;
      entries = omega arith;
      signals = refl;
      refusals = refl;
      frees = omega arith;
      same_sym = s;
    }
    exited-Keeps now e (some reason) s a f = finish-Keeps e.seen now reason e.px e.quote s a f

    check_exit-sym : (h : MarketHot) (now : ℕ) → (check_exit D cfg p.t h now).seen.sym ≡ p.t.sym
    unfolding check_exit
    check_exit-sym h now =
        branch (λ (e : Exit D). e.seen.sym ≡ p.t.sym) (halted h) (λ _. refl)
          (λ _.
            branch (λ (e : Exit D). e.seen.sym ≡ p.t.sym) (D.le mark (number D 0)) (λ _. refl)
              (λ _. refl))
      where
        mark : D.F
        mark = dollars D (if quote_valid h then h.bid_px else h.last_px)

    pub step_pos-Keeps : (hot : ℕ → MarketHot) (now : ℕ) → Keeps st p (step_pos D cfg hot now st p)
    unfolding step_pos
    step_pos-Keeps hot now =
        branch (Keeps st p) (not p.active) (λ _. still)
          (λ a.
            branch (Keeps st p) (not p.filled)
              (λ f.
                branch (Keeps st p) (ltb now p.eligible_ns) (λ _. still)
                  (λ _. try_fill-Keeps (hot p.t.sym) now (ground arith) (ground arith)))
              (λ f.
                exited-Keeps now (check_exit D cfg p.t (hot p.t.sym) now)
                  (check_exit D cfg p.t (hot p.t.sym) now).reason (check_exit-sym (hot p.t.sym) now)
                  (ground arith) (ground arith)))

    pub close_pos-Keeps :
        (hot : ℕ → MarketHot) (now : ℕ) (reason : Bytes)
        → Keeps st p (close_pos D cfg hot now reason st p)
    unfolding close_pos
    close_pos-Keeps hot now reason =
        branch (Keeps st p) (not p.active) (λ _. still)
          (λ a.
            branch (Keeps st p) p.filled
              (λ f.
                finish-Keeps p.t now reason
                  (cheaper D
                    (dollars D (
                      if quote_valid (hot p.t.sym)
                      then (hot p.t.sym).bid_px
                      else (hot p.t.sym).last_px))
                    cfg.slippage_bps)
                  (quote_valid (hot p.t.sym)) refl (ground arith) f)
              (λ f. dropped st refl refl refl refl (omega arith) refl refl (ground arith) f))
