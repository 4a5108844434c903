-- ===== src/Market/Ladder/Tests.antt =====
-- Runs of `SideLadder` on a bid side with two levels.
use stok.Base.{ℕ, ◌+◌, ◌-◌, ◌<◌, ◌≡◌, refl, true, false, [], ◌∷◌, arith, ◌==◌, if◌then◌else◌}
use stok.Market.Ladder.{
  SideLadder, worse, add, remove, best_price, best_qty, back, position, add_found, insert_at,
  remove_back, pop_back, erase_at,
}
use stok.Market.Ladder.Sorted.{IsValid}
use stok.Market.Ladder.Refine.{level_qty, qty_at, add_refines, remove_refines, best_lem}

abbrev bids : SideLadder
bids = record {
  lv = record { price = 100; qty = 5 } ∷ record { price = 102; qty = 7 } ∷ [];
  bid = true;
}

bids-IsValid : IsValid bids
unfolding worse
bids-IsValid = record {
  sorted = ((refl, tt), (tt, tt));
  filled = (omega arith, omega arith, (omega arith, omega arith, tt));
}

-- A new level between the two.
add-bids : add bids 101 3 ≡ record {
  lv =
      record { price = 100; qty = 5 }
      ∷ record { price = 101; qty = 3 }
      ∷ record { price = 102; qty = 7 }
      ∷ [];
  bid = true;
}
unfolding add add_found position worse insert_at
add-bids = refl

remove-bids : remove bids 102 9 ≡ record { lv = record { price = 100; qty = 5 } ∷ []; bid = true }
unfolding remove remove_back back pop_back erase_at
remove-bids = refl

add_refines_example :
    IsValid (add bids 101 3)
    × ((p : ℕ)
        → qty_at (add bids 101 3) p ≡ (if p == 101 then qty_at bids 101 + 3 else qty_at bids p))
unfolding level_qty
add_refines_example = add_refines {s = bids} 101 3 bids-IsValid (omega arith)

remove_refines_example :
    IsValid (remove bids 102 9)
    × ((p : ℕ)
        → qty_at (remove bids 102 9) p ≡ (if p == 102 then qty_at bids 102 - 9 else qty_at bids p))
remove_refines_example = remove_refines {s = bids} 102 9 bids-IsValid

best_lem_example :
    (best_qty bids ≡ qty_at bids (best_price bids))
    × ((p : ℕ) → 0 < qty_at bids p → (0 < best_qty bids) × (worse true (best_price bids) p ≡ false))
best_lem_example = best_lem {s = bids} bids-IsValid
