-- ===== src/Market/Board/Trades.antt =====
-- The board after any sequence of trade prints: what each symbol's day figures say of its prints.
use stok.Base.{
  ℕ, ◌+◌, ◌*◌, ◌^◌, ◌≤◌, ◌<◌, min, max, ◌≡◌, refl, ◌∙◌, Bool, true, false, ◌||◌, ◌&&◌, not, some,
  List, [], ◌∷◌, arith, ltb, ◌==◌, if◌then◌else◌, Bool-cases, inl, inr, length, get_elem?,
  get_elem?-set, Option-cases, get_elem?-replicate,
}
use mathlib.Core.Option
use stok.Base.Int.{ℤ, pos, ltb_ℤ, pos_part}
use stok.Market.Board.{
  MarketHot, MarketState, MarketBoard, make, new_state, hot_trade, apply_trade, on_state, on_trade,
  eq_ℤ,
}

-- A print, as the feed gives it.
pub record Trade : Type 0 where
  pub symbol : ℕ
  pub px : ℤ
  pub shares : ℕ
  pub ns : ℕ

-- The board after a feed; the newest print stands first.
unfoldable pub after : MarketBoard → List Trade → MarketBoard
after b [] = b
after b (t ∷ ts) = on_trade (after b ts) t.symbol t.px t.shares t.ns

-- Whether a print counts for a symbol: it names the symbol, with a positive price and size.
unfoldable pub counts : ℕ → Trade → Bool
counts i t = (t.symbol == i) && ltb_ℤ (pos 0) t.px && ltb 0 t.shares

unfoldable pub counted : ℕ → List Trade → List Trade
counted i [] = []
counted i (t ∷ ts) = let rest = counted i ts in if counts i t then t ∷ rest else rest

unfoldable pub volume : List Trade → ℕ
volume [] = 0
volume (t ∷ ts) = t.shares + volume ts

unfoldable pub notional : List Trade → ℕ
notional [] = 0
notional (t ∷ ts) = pos_part t.px * t.shares + notional ts

unfoldable pub highest : List Trade → ℕ
highest [] = 0
highest (t ∷ ts) = max (pos_part t.px) (highest ts)

unfoldable pub lowest : List Trade → ℕ
lowest [] = 0
lowest (t ∷ []) = pos_part t.px
lowest (t ∷ u ∷ ts) = min (pos_part t.px) (lowest (u ∷ ts))

unfoldable pub newest : List Trade → ℕ
newest [] = 0
newest (t ∷ ts) = pos_part t.px

-- The figures of the day against the prints.
pub record Summary (ts : List Trade) (h : MarketHot) : Type 0 where
  pub last_is : h.last_px ≡ pos (newest ts)
  pub high_is : h.high_px ≡ pos (highest ts)
  pub low_is : h.low_px ≡ pos (lowest ts)
  pub volume_is : h.day_volume ≡ volume ts
  pub notional_is : h.notional_e4 ≡ notional ts
  pub count_is : h.trades ≡ length ts

abbrev pub AllPositive : List Trade → Type 0
AllPositive [] = Unit {0}
AllPositive (t ∷ ts) =
    (0 < pos_part t.px) × (t.px ≡ pos (pos_part t.px)) × (0 < t.shares) × AllPositive ts

highest_pos : (t : Trade) (ts : List Trade) → AllPositive (t ∷ ts) → 0 < highest (t ∷ ts)
unfolding highest
highest_pos t ts h = omega arith

lowest_pos : (t : Trade) (ts : List Trade) → AllPositive (t ∷ ts) → 0 < lowest (t ∷ ts)
unfolding lowest
lowest_pos t [] h = h.0
lowest_pos t (u ∷ ts) h = omega (arith, lowest_pos u ts h.3)

-- Shares are no more than notional, so the volume fits where the notional does.
volume-le-notional : (ts : List Trade) → AllPositive ts → volume ts ≤ notional ts
unfolding volume notional
volume-le-notional [] h = omega arith
volume-le-notional (t ∷ ts) h = grind (arith, volume-le-notional ts h.3)

length-le-volume : (ts : List Trade) → AllPositive ts → length ts ≤ volume ts
unfolding volume
length-le-volume [] h = omega arith
length-le-volume (t ∷ ts) h = omega (arith, length-le-volume ts h.3)

raised :
    (hi p : ℕ)
    → (if eq_ℤ (pos hi) (pos 0) || ltb_ℤ (pos hi) (pos p) then pos p else pos hi) ≡ pos (max p hi)
raised hi p = ground arith

lowered :
    (lo p : ℕ)
    → 0 < lo
    → (if eq_ℤ (pos lo) (pos 0) || ltb_ℤ (pos p) (pos lo) then pos p else pos lo) ≡ pos (min p lo)
lowered lo p h = ground arith

lowest_step :
    (p : ℤ) (t : Trade) (ts : List Trade)
    → AllPositive (t ∷ ts)
    → (if eq_ℤ (pos (lowest ts)) (pos 0) || ltb_ℤ (pos (pos_part t.px)) (pos (lowest ts))
        then pos (pos_part t.px)
        else pos (lowest ts))
      ≡ pos (lowest (t ∷ ts))
unfolding lowest
lowest_step p t [] h = ground arith
lowest_step p t (u ∷ ts) h = lowered (lowest (u ∷ ts)) (pos_part t.px) (lowest_pos u ts h.3)

-- One more print, as long as the notional of the day fits a uint64_t.
hot_trade-Summary :
    (t : Trade) (ts : List Trade) (h : MarketHot) (midnight : ℤ)
    → AllPositive (t ∷ ts)
    → notional (t ∷ ts) < 2 ^ 64
    → Summary ts h
    → Summary (t ∷ ts) (hot_trade h midnight t.px t.shares t.ns)
unfolding hot_trade newest notional volume lowest
hot_trade-Summary t ts h midnight ok fits s = record {
  last_is = ok.1;
  high_is = rw (s.high_is, ok.1) (unfold highest in raised (highest ts) (pos_part t.px));
  low_is = rw (s.low_is, ok.1) (lowest_step t.px t ts ok);
  volume_is = omega (arith, s.volume_is, volume-le-notional (t ∷ ts) ok);
  notional_is = omega (arith, s.notional_is);
  count_is =
      omega (arith, s.count_is, volume-le-notional (t ∷ ts) ok, length-le-volume (t ∷ ts) ok);
}

-- A write to one symbol's state, read at any symbol.
pub get_elem?-on_state :
    (b : MarketBoard) (j i : ℕ) (f : MarketState → MarketState)
    → get_elem? (on_state b j f).states i
      ≡ (if j == i then Option.map f (get_elem? b.states i) else get_elem? b.states i)
unfolding on_state
get_elem?-on_state b j i f = elim (Option-cases (get_elem? b.states j)) [
  | inl e ↦
      rw (e, on_state)
        (elim (Bool-cases (j == i)) [
          | inl t ↦ let t' : j ≡ i = ground arith in rw t (rw (← t') (rw e refl))
          | inr t ↦ rw t
        ])
  | inr (s, e) ↦
      rw (e, on_state)
        (rw (get_elem?-set b.states i j (f s)) (elim (Bool-cases (j == i)) [
          | inl t ↦ let t' : j ≡ i = ground arith in rw t (rw (← t') (rw e refl))
          | inr t ↦ rw t
        ]))
]

pub counted-AllPositive : (i : ℕ) (ts : List Trade) → AllPositive (counted i ts)
unfolding counted counts
counted-AllPositive i [] = tt
counted-AllPositive i (t ∷ ts) = ground (arith, counted-AllPositive i ts)

-- A feed on a new board of `n` symbols: what each symbol's day figures say.
pub record Shows (b : MarketBoard) (i : ℕ) (ts : List Trade) : Type 0 where
  pub state : MarketState
  pub stands : get_elem? b.states i ≡ some state
  pub figures : Summary ts state.hot

counted-yes :
    (i : ℕ) (t : Trade) (ts : List Trade)
    → counts i t ≡ true
    → counted i (t ∷ ts) ≡ t ∷ counted i ts
unfolding counted
counted-yes i t ts c = rw c

counted-no :
    (i : ℕ) (t : Trade) (ts : List Trade) → counts i t ≡ false → counted i (t ∷ ts) ≡ counted i ts
unfolding counted
counted-no i t ts c = rw c

-- A print that counts is applied to the symbol's state.
get_elem?-on_trade_yes :
    (i : ℕ) (t : Trade) (b : MarketBoard) {s : MarketState}
    → counts i t ≡ true
    → get_elem? b.states i ≡ some s
    → get_elem? (on_trade b t.symbol t.px t.shares t.ns).states i
      ≡ some (apply_trade s b.midnight_ns t.px t.shares t.ns)
unfolding on_trade counts
get_elem?-on_trade_yes i t b c e =
    let guard : (not (ltb_ℤ (pos 0) t.px) || (t.shares == 0)) ≡ false = ground arith in
    let same : (t.symbol == i) ≡ true = ground arith in
    rw guard (rw (get_elem?-on_state b t.symbol i, same, e))

-- A print that does not count leaves the symbol's state alone.
get_elem?-on_trade_no :
    (i : ℕ) (t : Trade) (b : MarketBoard)
    → counts i t ≡ false
    → get_elem? (on_trade b t.symbol t.px t.shares t.ns).states i ≡ get_elem? b.states i
unfolding on_trade counts
get_elem?-on_trade_no i t b c = elim (Bool-cases (not (ltb_ℤ (pos 0) t.px) || (t.shares == 0))) [
  | inl rejected ↦ rw rejected
  | inr passed ↦
      let other : (t.symbol == i) ≡ false = ground arith in
      rw passed (rw (get_elem?-on_state b t.symbol i, other))
]

step-Shows :
    (i : ℕ) (t : Trade) (ts : List Trade) (b : MarketBoard)
    → notional (counted i (t ∷ ts)) < 2 ^ 64
    → Shows b i (counted i ts)
    → Shows (on_trade b t.symbol t.px t.shares t.ns) i (counted i (t ∷ ts))
step-Shows i t ts b fits s = elim (Bool-cases (counts i t)) [
  | inl c ↦
      let e = counted-yes i t ts c in
      let ok = rw e at (counted-AllPositive i (t ∷ ts)) in
      rw e record {
        state = apply_trade s.state b.midnight_ns t.px t.shares t.ns;
        stands = get_elem?-on_trade_yes i t b c s.stands;
        figures =
            unfold apply_trade in
            hot_trade-Summary t (counted i ts) s.state.hot b.midnight_ns ok (rw e at fits)
              s.figures;
      }
  | inr c ↦ rw (counted-no i t ts c) record {
    state = s.state;
    stands = get_elem?-on_trade_no i t b c ∙ s.stands;
    figures = s.figures;
  }
]

notional-counted_le :
    (i : ℕ) (t : Trade) (ts : List Trade) → notional (counted i ts) ≤ notional (counted i (t ∷ ts))
unfolding counted notional
notional-counted_le i t ts = ground arith

-- After any feed of prints to a new board, each symbol's last, high and low price, volume, notional
-- and number of trades are those of its own prints with positive price and size, whatever the other
-- prints are, as long as the notional of the symbol's day fits a uint64_t.
pub after-Shows :
    (n i : ℕ) (ts : List Trade)
    → i < n
    → notional (counted i ts) < 2 ^ 64
    → Shows (after (make n) ts) i (counted i ts)
unfolding after
after-Shows n i [] lt fits =
    unfold make counted notional volume highest lowest newest in
    record {
      state = new_state;
      stands = get_elem?-replicate n i new_state lt;
      figures = record {
        last_is = refl;
        high_is = refl;
        low_is = refl;
        volume_is = refl;
        notional_is = refl;
        count_is = refl;
      };
    }
after-Shows n i (t ∷ ts) lt fits =
    step-Shows i t ts (after (make n) ts) fits
      (after-Shows n i ts lt (omega (arith, notional-counted_le i t ts)))
