-- ===== src/Market/Ladder.antt =====
-- `SideLadder` and `LevelBook` of src/market/level_book.hpp: one side of a price-level book, a vector
-- of levels ordered from the worst price to the best. `std::lower_bound` is read by what it
-- promises on such a vector: the first position at which the comparator fails.
pub mod Spec
pub mod Sorted
pub mod Refine
mod Tests
use stok.Base.{
  ℕ, zero, suc, ◌+◌, ◌-◌, ◌%◌, ◌^◌, Bool, true, false, ◌||◌, not, Option, none, some, List, [], ◌∷◌,
  ltb, leb, ◌==◌, if◌then◌else◌, length, get_elem?, set,
}

-- `Level`; `pad` is never read.
pub record Level : Type 0 where
  pub price : ℕ
  pub qty : ℕ

abbrev pub level : ℕ → ℕ → Level
level p q = record { price = p; qty = q }

-- `lv_` and `bid_`.
pub record SideLadder : Type 0 where
  pub lv : List Level
  pub bid : Bool

-- uint64_t addition
abbrev pub add64 : ℕ → ℕ → ℕ
add64 a b = (a + b) % 2 ^ 64

-- the vector's `insert`, `erase` and `pop_back`
unfoldable pub insert_at : List Level → ℕ → Level → List Level
insert_at ls zero v = v ∷ ls
insert_at [] (suc i) v = []
insert_at (l ∷ ls) (suc i) v = l ∷ insert_at ls i v

unfoldable pub erase_at : List Level → ℕ → List Level
erase_at [] i = []
erase_at (l ∷ ls) zero = ls
erase_at (l ∷ ls) (suc i) = l ∷ erase_at ls i

-- `lv_.back()`, if there is one
unfoldable pub back : List Level → Option Level
back ls = if length ls == 0 then none else get_elem? ls (length ls - 1)

unfoldable pub pop_back : List Level → List Level
pop_back ls = erase_at ls (length ls - 1)

-- The two comparators of `position`: a level of price `a` is worse than price `p`.
unfoldable pub worse : Bool → ℕ → ℕ → Bool
worse bid a p = if bid then ltb a p else ltb p a

unfoldable pub position : Bool → List Level → ℕ → ℕ
position bid [] p = 0
position bid (l ∷ ls) p =
    let rest = position bid ls p in if worse bid l.price p then suc rest else 0

-- The body of `add` behind the guard, at the level that `it` points to.
unfoldable pub add_found : List Level → ℕ → ℕ → ℕ → Option Level → List Level
add_found ls i price qty none = insert_at ls i (level price qty)
add_found ls i price qty (some l) =
    if l.price == price
    then set ls i (record l { qty = add64 l.qty qty })
    else insert_at ls i (level price qty)

unfoldable pub add : SideLadder → ℕ → ℕ → SideLadder
unfolding add_found
add s price qty =
    let i = position s.bid s.lv price in
    if qty == 0 then s else record s { lv = add_found s.lv i price qty (get_elem? s.lv i) }

-- The search path of `remove`, at the level that `it` points to.
unfoldable pub remove_found : List Level → ℕ → ℕ → ℕ → Option Level → List Level
remove_found ls i price qty none = ls
remove_found ls i price qty (some l) =
    if not (l.price == price)
    then ls
    else if leb l.qty qty
    then erase_at ls i
    else set ls i (record l { qty = l.qty - qty })

-- `remove` on a vector whose last level is known: the touch first, then the search.
unfoldable pub remove_back : Bool → List Level → ℕ → ℕ → Option Level → List Level
remove_back bid ls price qty none = ls
remove_back bid ls price qty (some l) =
    let i = position bid ls price in
    if l.price == price
    then (if leb l.qty qty
        then pop_back ls
        else set ls (length ls - 1) (record l { qty = l.qty - qty }))
    else remove_found ls i price qty (get_elem? ls i)

unfoldable pub remove : SideLadder → ℕ → ℕ → SideLadder
unfolding remove_found remove_back
remove s price qty =
    if qty == 0 then s else record s { lv = remove_back s.bid s.lv price qty (back s.lv) }

abbrev price_of : Option Level → ℕ
price_of none = 0
price_of (some l) = l.price

abbrev qty_of : Option Level → ℕ
qty_of none = 0
qty_of (some l) = l.qty

unfoldable pub best_price : SideLadder → ℕ
best_price s = price_of (back s.lv)

unfoldable pub best_qty : SideLadder → ℕ
best_qty s = qty_of (back s.lv)

pub depth : SideLadder → ℕ
depth s = length s.lv

pub clear : SideLadder → SideLadder
clear s = record s { lv = [] }

-- `LevelBook`, with the top of book that was last published.
pub record LevelBook : Type 0 where
  pub bids : SideLadder
  pub asks : SideLadder
  pub pub_bid : ℕ
  pub pub_ask : ℕ
  pub pub_bid_q : ℕ
  pub pub_ask_q : ℕ

abbrev pub empty_side : Bool → SideLadder
empty_side b = record { lv = []; bid = b }

abbrev pub empty_book : LevelBook
empty_book = record {
  bids = empty_side true;
  asks = empty_side false;
  pub_bid = 0;
  pub_ask = 0;
  pub_bid_q = 0;
  pub_ask_q = 0;
}
