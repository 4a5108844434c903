-- ===== src/Core/Flat.antt =====
-- `FlatMap64` and `FlatSet64` of src/core/flat_hash.hpp. A pointer to a value is the index of its
-- slot. A loop runs on fuel, one round for each slot, and an operation is `none` when the fuel runs
-- out, which is where the C++ loop would not end.
pub mod Cycle
pub mod Slots
pub mod Probing
pub mod Placed
pub mod Holed
pub mod Shifting
pub mod Refilling
pub mod Methods
pub mod Inserting
pub mod Erasing
pub mod Running
pub mod Entries
mod Tests
use Prim.Native.Nat.{bit_and}
use stok.Base.{
  ℕ, zero, suc, ◌+◌, ◌-◌, ◌*◌, ◌^◌, Bool, true, false, Option, none, some, List, [], ◌∷◌, ltb, leb,
  ◌==◌, ◌&&◌, ◌||◌, if◌then◌else◌, ◌>>=◌, set, get_or, length, replicate,
}
use stok.Core.Hash.{mix64}
use stok.Core.Spsc.{next_pow2}

-- `kEmpty`, the key that marks a free slot
abbrev pub empty_key : ℕ
empty_key = 2 ^ 64 - 1

pub record Slot {ℓ} (V : Type ℓ) : Type ℓ where
  pub key : ℕ
  pub value : V

-- `grow_at` of a capacity is `static_cast<std::size_t>(static_cast<double>(capacity) * max_load_)`,
-- and stands in the place of `max_load_`; `size_` and the capacity count slots in memory, so that
-- neither wraps.
pub record FlatMap64 {ℓ} (V : Type ℓ) : Type ℓ where
  pub slots : List (Slot V)
  pub mask : ℕ
  pub size : ℕ
  pub grow_at : ℕ

-- Where a probe ends: at the slot of the key, or at a free one.
pub data Probe : Type 0 where
  hit : ℕ → Probe
  vacant : ℕ → Probe

unfoldable pub index : ℕ → ℕ → ℕ
index key mask = bit_and (mix64 key) mask

unfoldable pub next : ℕ → ℕ → ℕ
next i mask = bit_and (i + 1) mask

-- `ideal` is cyclically outside (hole, j].
unfoldable pub movable : ℕ → ℕ → ℕ → Bool
movable hole j ideal =
    if leb hole j then leb ideal hole || ltb j ideal else leb ideal hole && ltb j ideal

abbrev pub is_some {ℓ} : {A : Type ℓ} → Option A → Bool
is_some none = false
is_some (some a) = true

unfoldable pub pointer : Probe → Option ℕ
pointer (hit i) = some i
pointer (vacant i) = none

module _ {ℓ} {V : Type ℓ} (blank : V) where
  abbrev pub free : Slot V
  free = record { key = empty_key; value = blank }

  abbrev pub slot_at : List (Slot V) → ℕ → Slot V
  slot_at s i = get_or s i free

  abbrev pub key_at : List (Slot V) → ℕ → ℕ
  key_at s i = (slot_at s i).key

  -- The loop of `find` and of `try_emplace`: the key is looked at first.
  unfoldable pub probe : ℕ → List (Slot V) → ℕ → ℕ → ℕ → Option Probe
  unfolding next
  probe zero s mask key i = none
  probe (suc fuel) s mask key i =
      let rest = probe fuel s mask key (next i mask) in
      if key_at s i == key
      then some (hit i)
      else if key_at s i == empty_key
      then some (vacant i)
      else rest

  -- The first loop of `erase`: the empty marker is looked at first.
  unfoldable pub locate : ℕ → List (Slot V) → ℕ → ℕ → ℕ → Option Probe
  unfolding next
  locate zero s mask key i = none
  locate (suc fuel) s mask key i =
      let rest = locate fuel s mask key (next i mask) in
      if key_at s i == empty_key
      then some (vacant i)
      else if key_at s i == key
      then some (hit i)
      else rest

  -- The second loop of `erase`, which ends with the slots and the place of the hole.
  unfoldable pub shift : ℕ → List (Slot V) → ℕ → ℕ → ℕ → Option (List (Slot V) × ℕ)
  unfolding next index movable
  shift zero s mask hole j = none
  shift (suc fuel) s mask hole j0 =
      let j = next j0 mask in
      let moves = movable hole j (index (key_at s j) mask) in
      let rest =
        shift fuel (if moves then set s hole (slot_at s j) else s) mask (if moves then j else hole)
          j in
      if key_at s j == empty_key then some (s, hole) else rest

  -- `while (slots_[i].key != kEmpty) i = (i + 1) & mask_;`
  unfoldable pub vacancy : ℕ → List (Slot V) → ℕ → ℕ → Option ℕ
  unfolding next
  vacancy zero s mask i = none
  vacancy (suc fuel) s mask i =
      let rest = vacancy fuel s mask (next i mask) in
      if key_at s i == empty_key then some i else rest

  -- The loop of `rehash` over the old slots.
  unfoldable pub refill : List (Slot V) → ℕ → List (Slot V) → ℕ → Option (List (Slot V) × ℕ)
  unfolding vacancy index
  refill [] mask s size = some (s, size)
  refill (o ∷ os) mask s size = elim (o.key == empty_key) [
    | true ↦ refill os mask s size
    | false ↦ do
      i ← vacancy (length s) s mask (index o.key mask)
      refill os mask (set s i o) (size + 1)
  ]

  -- `load` gives `grow_at` for a capacity.
  unfoldable pub rehash : (ℕ → ℕ) → FlatMap64 V → ℕ → Option (FlatMap64 V)
  unfolding refill
  rehash load m new_cap = do
    (s, size) ← refill m.slots (new_cap - 1) (replicate new_cap free) 0
    some (record { slots = s; mask = new_cap - 1; size = size; grow_at = load new_cap })

  -- The constructor: `rehash` of a map that holds nothing yet.
  unfoldable pub make : (ℕ → ℕ) → ℕ → Option (FlatMap64 V)
  unfolding rehash
  make load initial_capacity = do
    cap ← next_pow2 (if ltb initial_capacity 8 then 8 else initial_capacity)
    rehash load (record { slots = []; mask = 0; size = 0; grow_at = 0 }) cap

  unfoldable pub find : FlatMap64 V → ℕ → Option (Option ℕ)
  unfolding probe index pointer
  find m key = do p ← probe (length m.slots) m.slots m.mask key (index key m.mask); some (pointer p)

  unfoldable pub contains : FlatMap64 V → ℕ → Option Bool
  unfolding find
  contains m key = do p ← find m key; some (is_some p)

  -- `if (size_ + 1 > grow_at_) rehash(slots_.size() * 2);`
  unfoldable pub make_room : (ℕ → ℕ) → FlatMap64 V → Option (FlatMap64 V)
  unfolding rehash
  make_room load m =
      if ltb m.grow_at (m.size + 1) then rehash load m (length m.slots * 2) else some m

  unfoldable pub emplace_at : FlatMap64 V → ℕ → Probe → FlatMap64 V × ℕ × Bool
  emplace_at m key (hit i) = (m, i, false)
  emplace_at m key (vacant i) = (
    record m { slots = set m.slots i (record { key = key; value = blank }); size = m.size + 1 },
    i,
    true,
  )

  -- The map, the pointer to the value, and whether the key was inserted.
  unfoldable pub try_emplace : (ℕ → ℕ) → FlatMap64 V → ℕ → Option (FlatMap64 V × ℕ × Bool)
  unfolding make_room probe index emplace_at
  try_emplace load m key = do
    r ← make_room load m
    p ← probe (length r.slots) r.slots r.mask key (index key r.mask)
    some (emplace_at r key p)

  -- `*p = v`
  unfoldable pub write : FlatMap64 V → ℕ → V → FlatMap64 V
  write m i v = record m { slots = set m.slots i (record { key = key_at m.slots i; value = v }) }

  unfoldable pub insert_or_assign : (ℕ → ℕ) → FlatMap64 V → ℕ → V → Option (FlatMap64 V × ℕ)
  unfolding try_emplace write
  insert_or_assign load m key v = do
    (r, i, inserted) ← try_emplace load m key
    some (write r i v, i)

  -- What follows the first loop of `erase`.
  unfoldable pub erase_at : FlatMap64 V → Probe → Option (FlatMap64 V × Bool)
  unfolding shift
  erase_at m (vacant i) = some (m, false)
  erase_at m (hit i) = do
    (s, hole) ← shift (length m.slots) m.slots m.mask i i
    some (
      record m {
        slots = set s hole (record { key = empty_key; value = (slot_at s hole).value });
        size = m.size - 1;
      },
      true,
    )

  unfoldable pub erase : FlatMap64 V → ℕ → Option (FlatMap64 V × Bool)
  unfolding locate index erase_at
  erase m key = do p ← locate (length m.slots) m.slots m.mask key (index key m.mask); erase_at m p

  unfoldable pub cleared : List (Slot V) → List (Slot V)
  cleared [] = []
  cleared (x ∷ xs) = record { key = empty_key; value = x.value } ∷ cleared xs

  unfoldable pub clear : FlatMap64 V → FlatMap64 V
  unfolding cleared
  clear m = record m { slots = cleared m.slots; size = 0 }

  -- `wanted` is `static_cast<std::size_t>(static_cast<double>(n) / max_load_)`.
  unfoldable pub reserve : (ℕ → ℕ) → (ℕ → ℕ) → FlatMap64 V → ℕ → Option (FlatMap64 V)
  unfolding rehash
  reserve load wanted m n = do
    want ← next_pow2 (wanted n + 1)
    if ltb (length m.slots) want then rehash load m want else some m

  -- The pairs that `for_each` hands to its callback, in order.
  unfoldable pub for_each : List (Slot V) → List (ℕ × V)
  for_each [] = []
  for_each (x ∷ xs) = if x.key == empty_key then for_each xs else (x.key, x.value) ∷ for_each xs

-- `FlatSet64`, a map to the empty `Unit`.
abbrev pub FlatSet64 : Type 0
FlatSet64 = FlatMap64 (Unit {0})

unfoldable pub insert_key : (ℕ → ℕ) → FlatSet64 → ℕ → Option (FlatSet64 × Bool)
unfolding try_emplace
insert_key load s k = do (r, i, inserted) ← try_emplace tt load s k; some (r, inserted)
