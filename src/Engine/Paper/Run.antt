-- ===== src/Engine/Paper/Run.antt =====
-- Any run of signals, steps and closings of `PaperTrader`.
use stok.Base.{
  ℕ, zero, suc, ◌+◌, ◌^◌, ◌<◌, ◌≤◌, ◌≡◌, refl, ◌∙◌, false, ◌&&◌, not, Option, none, some, List, [],
  ◌∷◌, ◌==◌, arith, branch, length, set, replicate, max, length-set,
}
use stok.Base.Int.{ℤ, pos_part}
use stok.Util.Ascii.{Bytes}
use stok.Market.Board.{MarketHot, eq_ℤ}
use stok.Engine.Double.{Double}
use stok.Engine.Signal.{Signal}
use stok.Engine.Paper.{
  PaperConfig, Pos, PaperTrader, Found, taken, slot, next_slot, here_first, placed, admitted,
  counted, is_traded, rolled, is_checked, eastern_day, make, no_pos, no_stats, open_positions,
  active_among, roll_day, find_slot, pending, on_signal,
}
use stok.Engine.Paper.Step.{step_pos, close_pos, step, close_all}
use stok.Engine.Paper.Count.{held, waits, step_pos-Keeps, close_pos-Keeps}
use stok.Engine.Paper.Ledger.{total, works_on, Books, sweep-Books, length-sweep}

module _ (D : Double) where
  -- What the search for a slot says: a slot is free, and nothing works on the symbol.
  record Free (sym : ℕ) (ps : List (Pos D)) (i : ℕ) : Type 0 where
    pub alone : total D (works_on D sym) ps ≡ 0
    pub put :
        (f : Pos D → ℕ) (q : Pos D)
        → ((p : Pos D) → p.active ≡ false → f p ≡ 0)
        → total D f (set ps i q) ≡ f q + total D f ps

  abbrev Finds : ℕ → List (Pos D) → Found D → Type 0
  Finds sym ps (taken) = 0 ≤ 1
  Finds sym ps (slot none) = total D (works_on D sym) ps ≡ 0
  Finds sym ps (slot (some i)) = Free sym ps i

  -- A position that is not on the symbol, before the others.
  passed :
      (sym : ℕ) (p : Pos D) (ps : List (Pos D)) (o : Found D)
      → works_on D sym p ≡ 0
      → Finds sym ps o
      → Finds sym (p ∷ ps) (next_slot D o)
  passed sym p ps taken h g = g
  passed sym p ps (slot none) h g = omega (arith, h, g)
  passed sym p ps (slot (some i)) h g = record {
    alone = omega (arith, h, g.alone);
    put = λ f q z. omega (arith, g.put f q z);
  }

  free_here :
      (sym : ℕ) (p : Pos D) (ps : List (Pos D)) (o : Found D)
      → p.active ≡ false
      → Finds sym ps o
      → Finds sym (p ∷ ps) (here_first D (next_slot D o))
  free_here sym p ps taken h g = g
  free_here sym p ps (slot none) h g = record {
    alone = ground (arith, h, g);
    put = λ f q z. omega (arith, z p h);
  }
  free_here sym p ps (slot (some i)) h g = record {
    alone = ground (arith, h, g.alone);
    put = λ f q z. omega (arith, z p h);
  }

  find_slot-Finds : (sym : ℕ) (ps : List (Pos D)) → Finds sym ps (find_slot D sym ps)
  unfolding find_slot
  find_slot-Finds sym [] = refl
  find_slot-Finds sym (p ∷ ps) =
      let ih = find_slot-Finds sym ps in
      branch (Finds sym (p ∷ ps)) (p.active && (p.t.sym == sym)) (λ _. omega arith)
        (λ e.
          branch (Finds sym (p ∷ ps)) (not p.active)
            (λ a. free_here sym p ps (find_slot D sym ps) (ground arith) ih)
            (λ a. passed sym p ps (find_slot D sym ps) (ground arith) ih))

  abbrev HasBooks : PaperTrader D → Type 0
  HasBooks r = Books D r.st r.slots

  -- Books over the same counters and slots.
  rolled-Books :
      (r : PaperTrader D) (now : ℕ) (day : ℤ) → HasBooks r → HasBooks (rolled D r now day)
  rolled-Books r now day b =
      branch HasBooks (eq_ℤ day r.day) (λ _. b)
        (λ _. record { fills = b.fills; results = b.results; entries = b.entries; apart = b.apart })

  roll_day-signals : (r : PaperTrader D) (now : ℕ) → (roll_day D r now).st.signals ≡ r.st.signals
  unfolding roll_day
  roll_day-signals r now =
      branch (λ (q : PaperTrader D). q.st.signals ≡ r.st.signals) (is_checked D r now) (λ _. refl)
        (λ _.
          branch (λ (q : PaperTrader D). q.st.signals ≡ r.st.signals)
            (eq_ℤ (eastern_day D now) r.day) (λ _. refl) (λ _. refl))

  -- A trader's books, and how many signals it has counted at most.
  abbrev Counts : ℕ → PaperTrader D → Type 0
  Counts n r = HasBooks r × (r.st.signals ≤ n)

  roll_day-Books : (r : PaperTrader D) (now : ℕ) → HasBooks r → HasBooks (roll_day D r now)
  unfolding roll_day
  roll_day-Books r now b =
      branch HasBooks (is_checked D r now) (λ _. b) (λ _. rolled-Books r now (eastern_day D now) b)

  placed-Books :
      (r : PaperTrader D) (s : Signal D) (now : ℕ) (o : Option ℕ)
      → HasBooks r
      → r.st.signals + 1 < 2 ^ 64
      → Finds s.sym r.slots (slot o)
      → Counts (r.st.signals + 1) (placed D (counted D r) s now o)
  unfolding pending
  placed-Books r s now none b few g = (
    record {
      fills = b.fills;
      results = b.results;
      entries = omega (arith, b.entries);
      apart = b.apart;
    },
    omega arith,
  )
  placed-Books r s now (some i) b few g =
      let q = pending D r.cfg s now in
      (
        record {
          fills = omega (arith, b.fills, g.put (held D) q (λ p e. ground arith));
          results = b.results;
          entries = omega (arith, b.entries, g.put (waits D) q (λ p e. ground arith));
          apart = λ sym.
              ground (arith, b.apart sym, g.put (works_on D sym) q (λ p e. ground arith), g.alone);
        },
        omega arith,
      )

  admitted-Books :
      (r : PaperTrader D) (s : Signal D) (now : ℕ) (o : Found D)
      → HasBooks r
      → r.st.signals + 1 < 2 ^ 64
      → Finds s.sym r.slots o
      → Counts (r.st.signals + 1) (admitted D (counted D r) s now o)
  admitted-Books r s now taken b few g = (
    record {
      fills = b.fills;
      results = b.results;
      entries = omega (arith, b.entries);
      apart = b.apart;
    },
    omega arith,
  )
  admitted-Books r s now (slot o) b few g =
      branch (Counts (r.st.signals + 1)) (D.le r.st.day_realized (D.neg r.cfg.max_daily_loss_usd))
        (λ _. (
          record {
            fills = b.fills;
            results = b.results;
            entries = omega (arith, b.entries);
            apart = b.apart;
          },
          omega arith,
        ))
        (λ _. placed-Books r s now o b few g)

  on_signal-Books :
      (r : PaperTrader D) (s : Signal D) (now : ℕ)
      → HasBooks r
      → r.st.signals + 1 < 2 ^ 64
      → Counts (r.st.signals + 1) (on_signal D r s now)
  unfolding on_signal
  on_signal-Books r s now b few =
      let same = roll_day-signals r now in
      branch (Counts (r.st.signals + 1)) (not (is_traded D r.cfg s.tier)) (λ _. (b, omega arith))
        (λ _.
          (let done =
              admitted-Books (roll_day D r now) s now (find_slot D s.sym (roll_day D r now).slots)
                (roll_day-Books r now b) (omega (arith, same))
                (find_slot-Finds s.sym (roll_day D r now).slots) in
            (done.0, omega (arith, same, done.1))))

  -- A call of the trader.
  pub data Call : Type 0 where
    signalled : Signal D → ℕ → Call
    stepped : (ℕ → MarketHot) → ℕ → Call
    closed_out : (ℕ → MarketHot) → ℕ → Bytes → Call

  unfoldable pub call : PaperTrader D → Call → PaperTrader D
  unfolding on_signal step close_all
  call r (signalled s now) = on_signal D r s now
  call r (stepped hot now) = (step D r hot now).0
  call r (closed_out hot now reason) = (close_all D r hot now reason).0

  unfoldable pub run : PaperTrader D → List Call → PaperTrader D
  unfolding call
  run r [] = r
  run r (c ∷ cs) = run (call r c) cs

  call-Books :
      (r : PaperTrader D) (c : Call)
      → HasBooks r
      → r.st.signals + 1 < 2 ^ 64
      → Counts (r.st.signals + 1) (call r c)
  unfolding call step close_all
  call-Books r (signalled s now) b few = on_signal-Books r s now b few
  call-Books r (stepped hot now) b few =
      let r' = roll_day D r now in
      let same = roll_day-signals r now in
      let done =
        sweep-Books D (step_pos D r'.cfg hot now) r'.st r'.slots
          (λ st p room. step_pos-Keeps D r'.cfg st p room hot now) (omega (arith, same))
          (roll_day-Books r now b) in
      (done.0, omega (arith, same, done.1))
  call-Books r (closed_out hot now reason) b few =
      let done =
        sweep-Books D (close_pos D r.cfg hot now reason) r.st r.slots
          (λ st p room. close_pos-Keeps D r.cfg st p room hot now reason) (omega arith) b in
      (done.0, omega (arith, done.1))

  run-HasBooks :
      (r : PaperTrader D) (cs : List Call)
      → HasBooks r
      → r.st.signals + length cs < 2 ^ 64
      → HasBooks (run r cs)
  unfolding run
  run-HasBooks r [] b few = b
  run-HasBooks r (c ∷ cs) b few =
      let (books, more) = call-Books r c b (omega arith) in
      run-HasBooks (call r c) cs books (omega arith)

  total-replicate :
      (f : Pos D → ℕ) (n : ℕ) → f (no_pos D) ≡ 0 → total D f (replicate n (no_pos D)) ≡ 0
  total-replicate f zero h = refl
  total-replicate f (suc n) h = omega (arith, h, total-replicate f n h)

  make-HasBooks : (cfg : PaperConfig D) → HasBooks (make D cfg)
  unfolding make no_pos
  make-HasBooks cfg =
      let n = max 1 (pos_part cfg.max_open) in
      record {
        fills = omega (arith, total-replicate (held D) n refl);
        results = refl;
        entries = omega (arith, total-replicate (waits D) n refl);
        apart = λ sym. omega (arith, total-replicate (works_on D sym) n refl);
      }

  -- After fewer than 2^64 calls of a new trader, whatever the arithmetic and the prices: the positions opened are
  -- those closed and those held, each that was closed is a win or a loss, and the signals that were turned down,
  -- the entries that ended and those that wait are at most the signals, and no symbol has two positions.
  pub run-Books :
      (cfg : PaperConfig D) (cs : List Call)
      → length cs < 2 ^ 64
      → Books D (run (make D cfg) cs).st (run (make D cfg) cs).slots
  unfolding make no_stats
  run-Books cfg cs few = run-HasBooks (make D cfg) cs (make-HasBooks cfg) (omega (arith, few))

  roll_day-length : (r : PaperTrader D) (now : ℕ) → length (roll_day D r now).slots ≡ length r.slots
  unfolding roll_day
  roll_day-length r now =
      branch (λ (q : PaperTrader D). length q.slots ≡ length r.slots) (is_checked D r now)
        (λ _. refl)
        (λ _.
          branch (λ (q : PaperTrader D). length q.slots ≡ length r.slots)
            (eq_ℤ (eastern_day D now) r.day) (λ _. refl) (λ _. refl))

  call-length : (r : PaperTrader D) (c : Call) → length (call r c).slots ≡ length r.slots
  unfolding call step close_all on_signal
  call-length r (signalled s now) =
      branch (λ (q : PaperTrader D). length q.slots ≡ length r.slots)
        (not (is_traded D r.cfg s.tier)) (λ _. refl)
        (λ _. found (find_slot D s.sym (roll_day D r now).slots))
    where
      rolled_length : length (roll_day D r now).slots ≡ length r.slots
      rolled_length = roll_day-length r now

      put :
          (o : Option ℕ)
          → length (placed D (counted D (roll_day D r now)) s now o).slots ≡ length r.slots
      put none = rolled_length
      put (some i) =
          length-set (roll_day D r now).slots i (pending D (roll_day D r now).cfg s now)
          ∙ rolled_length

      found :
          (o : Found D)
          → length (admitted D (counted D (roll_day D r now)) s now o).slots ≡ length r.slots
      found taken = rolled_length
      found (slot o) =
          branch (λ (q : PaperTrader D). length q.slots ≡ length r.slots)
            (D.le (roll_day D r now).st.day_realized
              (D.neg (roll_day D r now).cfg.max_daily_loss_usd))
            (λ _. rolled_length) (λ _. put o)
  call-length r (stepped hot now) =
      let r' = roll_day D r now in
      length-sweep D (step_pos D r'.cfg hot now) r'.st r'.slots ∙ roll_day-length r now
  call-length r (closed_out hot now reason) =
      length-sweep D (close_pos D r.cfg hot now reason) r.st r.slots

  run-length : (r : PaperTrader D) (cs : List Call) → length (run r cs).slots ≡ length r.slots
  unfolding run
  run-length r [] = refl
  run-length r (c ∷ cs) = run-length (call r c) cs ∙ call-length r c

  length-replicate : (n : ℕ) → length (replicate n (no_pos D)) ≡ n
  length-replicate zero = refl
  length-replicate (suc n) = omega (arith, length-replicate n)

  active_among-lt : (ps : List (Pos D)) → active_among D ps ≤ length ps
  active_among-lt [] = omega arith
  active_among-lt (p ∷ ps) = ground (arith, active_among-lt ps)

  -- After any calls of a new trader at most max(1, max_open) positions are open.
  pub run-open_positions :
      (cfg : PaperConfig D) (cs : List Call)
      → open_positions D (run (make D cfg) cs) ≤ max 1 (pos_part cfg.max_open)
  unfolding make open_positions
  run-open_positions cfg cs = omega (
    arith,
    active_among-lt (run (make D cfg) cs).slots,
    run-length (make D cfg) cs,
    length-replicate (max 1 (pos_part cfg.max_open)),
  )
