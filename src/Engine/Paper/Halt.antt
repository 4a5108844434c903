-- ===== src/Engine/Paper/Halt.antt =====
-- A halted stock in `PaperTrader::step`.
use stok.Base.{◌+◌, ◌%◌, ◌^◌, ◌&&◌, leb, ℕ, Bool, false, not, if◌then◌else◌, ltb}
use stok.Engine.Double.{Double}
use stok.Engine.Paper.{PaperConfig, Stats, Pos, ns_per_sec, sub_word, span}
use stok.Engine.Paper.Step.{Moved}

module _ (D : Double) (cfg : PaperConfig D) (st : Stats D) (p : Pos D) where
  -- An entry that waits for its fill, is due and has been due for longer than the timeout.
  unfoldable pub timed_out : ℕ → Bool
  timed_out now =
      ((p.active && not p.filled) && leb p.eligible_ns now)
      && ltb (span cfg.entry_timeout_s ns_per_sec) (sub_word now p.eligible_ns)

  -- What a halt leaves of a position: all of it and of the counters, or an entry that is given up.
  abbrev pub unchanged : Moved D
  unchanged = record { st = st; p = p; told = false }

  abbrev pub given_up : Moved D
  given_up = record {
    st = record st { cancelled_timeout = (st.cancelled_timeout + 1) % 2 ^ 64 };
    p = record p { active = false };
    told = false;
  }

  unfoldable pub waiting : ℕ → Moved D
  waiting now = if timed_out now then given_up else unchanged
