-- ===== src/Market/Orders.antt =====
-- What `ItchBook` asks of its order map, `FlatMap64<Order>` (src/core/flat_hash.hpp): the resting
-- orders by reference, with a sum over them that stands for their enumeration. The key that marks a free
-- slot of such a map is not asked about.
pub mod Sums
pub mod Flat
pub mod Slots
use stok.Base.{ℕ, ◌+◌, ◌-◌, ◌^◌, ◌≤◌, ◌<◌, ◌≡◌, ◌≢◌, Option, none, some, ◌==◌, if◌then◌else◌}
use stok.Core.Flat.{empty_key}

-- `ItchBook::Order`; `side` is the character 'B' or 'S'.
pub record Order : Type 0 where
  pub price : ℕ
  pub shares : ℕ
  pub locate : ℕ
  pub side : ℕ

pub record OrderTable : Type 1 where
  pub Table : Type 0
  pub find : Table → ℕ → Option Order
  -- `*orders_.try_emplace(ref).first = order`, and a write through a pointer that `find` returned
  pub assign : Table → ℕ → Order → Table
  pub erase : Table → ℕ → Table
  pub size : Table → ℕ
  pub total : (Order → ℕ) → Table → ℕ
  pub total-assign_new :
      (f : Order → ℕ) (t : Table) (k : ℕ) (o : Order)
      → k ≢ empty_key
      → find t k ≡ none
      → total f (assign t k o) ≡ total f t + f o
  pub total-assign_old :
      (f : Order → ℕ) (t : Table) (k : ℕ) (o u : Order)
      → k ≢ empty_key
      → find t k ≡ some u
      → total f (assign t k o) + f u ≡ total f t + f o
  pub total-erase :
      (f : Order → ℕ) (t : Table) (k : ℕ) (u : Order)
      → k ≢ empty_key
      → find t k ≡ some u
      → total f (erase t k) + f u ≡ total f t
  pub total_mono : (f g : Order → ℕ) (t : Table) → ((o : Order) → f o ≤ g o) → total f t ≤ total g t
  pub find-assign :
      (t : Table) (k j : ℕ) (o : Order)
      → k ≢ empty_key
      → j ≢ empty_key
      → find (assign t k o) j ≡ (if k == j then some o else find t j)
  pub find-erase :
      (t : Table) (k j : ℕ)
      → k ≢ empty_key
      → j ≢ empty_key
      → find (erase t k) j ≡ (if k == j then none else find t j)
