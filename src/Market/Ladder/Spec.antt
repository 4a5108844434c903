-- ===== src/Market/Ladder/Spec.antt =====
-- What a ladder promises: a quantity for each price. Two recursive functions on the levels serve as
-- the reference for `add` and `remove`, which work by positions.
use stok.Base.{
  ℕ, suc, ◌-◌, ◌≡◌, refl, Bool, not, Option, none, some, List, [], ◌∷◌, leb, ◌==◌, if◌then◌else◌,
  get_elem?, arith, Bool-cases, inl, inr,
}
use stok.Market.Ladder.{
  Level, level, add64, insert_at, erase_at, worse, position, add_found, remove_found,
}

-- Walk to the first level that is not worse; raise it or stand before it.
unfoldable pub raise : Bool → ℕ → ℕ → List Level → List Level
raise bid price qty [] = level price qty ∷ []
raise bid price qty (l ∷ ls) =
    let rest = raise bid price qty ls in
    if worse bid l.price price
    then l ∷ rest
    else if l.price == price
    then record l { qty = add64 l.qty qty } ∷ ls
    else level price qty ∷ l ∷ ls

-- Walk to the first level that is not worse; lower it or drop it if it has the price.
unfoldable pub lower : Bool → ℕ → ℕ → List Level → List Level
lower bid price qty [] = []
lower bid price qty (l ∷ ls) =
    let rest = lower bid price qty ls in
    if worse bid l.price price
    then l ∷ rest
    else if not (l.price == price)
    then l ∷ ls
    else if leb l.qty qty
    then ls
    else record l { qty = l.qty - qty } ∷ ls

add_found_cons :
    (l : Level) (ls : List Level) (i price qty : ℕ) (o : Option Level)
    → add_found (l ∷ ls) (suc i) price qty o ≡ l ∷ add_found ls i price qty o
unfolding add_found insert_at
add_found_cons l ls i price qty none = refl
add_found_cons l ls i price qty (some k) = ground arith

remove_found_cons :
    (l : Level) (ls : List Level) (i price qty : ℕ) (o : Option Level)
    → remove_found (l ∷ ls) (suc i) price qty o ≡ l ∷ remove_found ls i price qty o
unfolding remove_found erase_at
remove_found_cons l ls i price qty none = refl
remove_found_cons l ls i price qty (some k) = ground arith

pub add_found-eq-raise :
    (bid : Bool) (price qty : ℕ) (ls : List Level)
    → let i = position bid ls price in
      add_found ls i price qty (get_elem? ls i) ≡ raise bid price qty ls
unfolding position raise
add_found-eq-raise bid price qty [] = unfold add_found insert_at in refl
add_found-eq-raise bid price qty (l ∷ ls) = elim (Bool-cases (worse bid l.price price)) [
  | inl w ↦
      let i = position bid ls price in
      rw w
        (rw (add_found_cons l ls i price qty (get_elem? ls i), add_found-eq-raise bid price qty ls))
  | inr w ↦ rw w (unfold add_found insert_at in ground arith)
]

pub remove_found-eq-lower :
    (bid : Bool) (price qty : ℕ) (ls : List Level)
    → let i = position bid ls price in
      remove_found ls i price qty (get_elem? ls i) ≡ lower bid price qty ls
unfolding position lower
remove_found-eq-lower bid price qty [] = unfold remove_found in refl
remove_found-eq-lower bid price qty (l ∷ ls) = elim (Bool-cases (worse bid l.price price)) [
  | inl w ↦
      let i = position bid ls price in
      rw w (
        rw (
          remove_found_cons l ls i price qty (get_elem? ls i),
          remove_found-eq-lower bid price qty ls,
        ))
  | inr w ↦ rw w (unfold remove_found erase_at in ground arith)
]
