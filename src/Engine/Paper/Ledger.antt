-- ===== src/Engine/Paper/Ledger.antt =====
-- The books of `PaperTrader` over any run of signals, steps and closings.
use stok.Base.{
  ℕ, ◌+◌, ◌^◌, ◌<◌, ◌≤◌, ◌≡◌, refl, ◌&&◌, List, [], ◌∷◌, if◌then◌else◌, ◌==◌, arith, length,
}
use stok.Engine.Double.{Double}
use stok.Engine.Paper.{Stats, Pos}
use stok.Engine.Paper.Step.{Moved, Swept, sweep}
use stok.Engine.Paper.Count.{held, waits, refused, ended, Keeps, Room}

module _ (D : Double) where
  abbrev pub total : (Pos D → ℕ) → List (Pos D) → ℕ
  total f [] = 0
  total f (p ∷ ps) = f p + total f ps

  -- The active positions on a symbol.
  abbrev pub works_on : ℕ → Pos D → ℕ
  works_on sym p = if p.active && (p.t.sym == sym) then 1 else 0

  -- The books: every entry filled is closed or still held, every close is a win or a loss, every signal that is
  -- traded has been turned down, has ended or is still open, and no symbol has two positions.
  pub record Books (st : Stats D) (ps : List (Pos D)) : Type 0 where
    pub fills : st.opened ≡ st.closed + total (held D) ps
    pub results : st.wins + st.losses ≡ st.closed
    pub entries : refused D st + ended D st + total (waits D) ps ≤ st.signals
    pub apart : (sym : ℕ) → total (works_on sym) ps ≤ 1

  -- What a loop over the positions keeps.
  pub record Moves (st : Stats D) (ps : List (Pos D)) (s : Swept D) : Type 0 where
    pub fills :
        s.st.opened + st.closed + total (held D) ps
        ≡ st.opened + s.st.closed + total (held D) s.slots
    pub results : s.st.wins + s.st.losses + st.closed ≡ st.wins + st.losses + s.st.closed
    pub entries : ended D s.st + total (waits D) s.slots ≤ ended D st + total (waits D) ps
    pub signals : s.st.signals ≡ st.signals
    pub refusals : refused D s.st ≡ refused D st
    pub frees : (sym : ℕ) → total (works_on sym) s.slots ≤ total (works_on sym) ps

  frees_on :
      (st : Stats D) (p : Pos D) (m : Moved D)
      → Keeps D st p m
      → (sym : ℕ) → works_on sym m.p ≤ works_on sym p
  frees_on st p m k sym = ground (arith, k.frees, k.same_sym)

  -- The same of a loop over the positions as of one of them.
  pub record Rooms (st : Stats D) (ps : List (Pos D)) : Type 0 where
    pub entries : ended D st + total (waits D) ps < 2 ^ 64
    pub fills : st.closed + total (held D) ps ≤ st.opened
    pub results : st.wins + st.losses ≡ st.closed

  abbrev pub Keeping : (Stats D → Pos D → Moved D) → Type 0
  Keeping f = (st : Stats D) (p : Pos D) → Room D st p → Keeps D st p (f st p)

  first : (st : Stats D) (p : Pos D) (ps : List (Pos D)) → Rooms st (p ∷ ps) → Room D st p
  first st p ps r = record {
    entries = omega (arith, r.entries);
    fills = omega (arith, r.fills);
    results = r.results;
  }

  others :
      (st : Stats D) (p : Pos D) (ps : List (Pos D)) (m : Moved D)
      → Rooms st (p ∷ ps)
      → Keeps D st p m
      → Rooms m.st ps
  others st p ps m r k = record {
    entries = omega (arith, r.entries, k.entries);
    fills = omega (arith, r.fills, k.fills);
    results = omega (arith, r.results, k.results);
  }

  pub sweep-Moves :
      (f : Stats D → Pos D → Moved D) (st : Stats D) (ps : List (Pos D))
      → Keeping f
      → Rooms st ps
      → Moves st ps (sweep D f st ps)
  unfolding sweep
  sweep-Moves f st [] k room = record {
    fills = omega arith;
    results = omega arith;
    entries = omega arith;
    signals = refl;
    refusals = refl;
    frees = λ sym. omega arith;
  }
  sweep-Moves f st (p ∷ ps) k room =
      let m = k st p (first st p ps room) in
      let r = sweep-Moves f (f st p).st ps k (others st p ps (f st p) room m) in
      record {
        fills = omega (arith, m.fills, r.fills);
        results = omega (arith, m.results, r.results);
        entries = omega (arith, m.entries, r.entries);
        signals = omega (arith, m.signals, r.signals);
        refusals = omega (arith, m.refusals, r.refusals);
        frees = λ sym. omega (arith, frees_on st p (f st p) m sym, r.frees sym);
      }

  pub length-sweep :
      (f : Stats D → Pos D → Moved D) (st : Stats D) (ps : List (Pos D))
      → length (sweep D f st ps).slots ≡ length ps
  unfolding sweep
  length-sweep f st [] = refl
  length-sweep f st (p ∷ ps) = omega (arith, length-sweep f (f st p).st ps)

  pub sweep-Books :
      (f : Stats D → Pos D → Moved D) (st : Stats D) (ps : List (Pos D))
      → Keeping f
      → st.signals < 2 ^ 64
      → Books st ps
      → Books (sweep D f st ps).st (sweep D f st ps).slots
        × ((sweep D f st ps).st.signals ≡ st.signals)
  sweep-Books f st ps k few b =
      let r = sweep-Moves f st ps k (record {
        entries = omega (arith, b.entries);
        fills = omega (arith, b.fills);
        results = b.results;
      }) in
      (
        record {
          fills = omega (arith, r.fills, b.fills);
          results = omega (arith, r.results, b.results);
          entries = omega (arith, r.entries, r.signals, r.refusals, b.entries);
          apart = λ sym. omega (arith, r.frees sym, b.apart sym);
        },
        r.signals,
      )
