-- ===== src/Engine/Double.antt =====
-- The arithmetic of `double` that the paper trader uses, as a parameter: its results are not described.
use stok.Base.{Bool, if◌then◌else◌}
use stok.Base.Int.{ℤ}

pub record Double : Type 1 where
  pub F : Type 0
  pub of_int : ℤ → F
  pub add : F → F → F
  pub sub : F → F → F
  pub mul : F → F → F
  pub div : F → F → F
  pub neg : F → F
  pub floor : F → F
  pub lt : F → F → Bool
  pub le : F → F → Bool

-- `std::max`, `std::min` and the conversion of a whole number.
module _ (D : Double) where
  abbrev pub maximum : D.F → D.F → D.F
  maximum a b = if D.lt a b then b else a

  abbrev pub minimum : D.F → D.F → D.F
  minimum a b = if D.lt b a then b else a
