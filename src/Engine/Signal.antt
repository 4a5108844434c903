-- ===== src/Engine/Signal.antt =====
-- `Tier`, `Catalyst`, `Signal` and `PaperTrade` of src/engine/signals.hpp and scorer.hpp. A text in an array of
-- chars is the bytes before its NUL.
use stok.Base.{ℕ, Bool}
use stok.Base.Int.{ℤ}
use stok.Util.Ascii.{Bytes}
use stok.Engine.Double.{Double}

pub data Tier : Type 0 where
  untiered watch alert high halt mover info : Tier

pub data Catalyst : Type 0 where
  uncaused fda_approval clinical_data contract mna_target mna_acquirer earnings uplisting
        partnership :
      Catalyst
  product buyback crypto_ai legal_win offering reverse_split distress other_cause : Catalyst

-- The members of a signal that the paper trader reads.
pub record Signal (D : Double) : Type 0 where
  pub sym : ℕ
  pub tier : Tier
  pub catalyst : Catalyst
  pub score : ℤ
  pub news_id : ℕ
  pub price : D.F
  pub ask : D.F
  pub ticker : Bytes

pub record PaperTrade (D : Double) : Type 0 where
  pub sym : ℕ
  pub tier : Tier
  pub catalyst : Catalyst
  pub closed : Bool
  pub quote_entry : Bool
  pub quote_exit : Bool
  pub size_over_touch : Bool
  pub score : ℤ
  pub news_id : ℕ
  pub signal_ns : ℕ
  pub entry_ns : ℕ
  pub exit_ns : ℕ
  pub signal_px : D.F
  pub entry_px : D.F
  pub exit_px : D.F
  pub shares : D.F
  pub fees : D.F
  pub pnl_usd : D.F
  pub pnl_pct : D.F
  pub mfe_pct : D.F
  pub mae_pct : D.F
  pub ticker : Bytes
  pub exit_reason : Bytes
