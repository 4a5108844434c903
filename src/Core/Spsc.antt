-- ===== src/Core/Spsc.antt =====
-- `SpscQueue` of src/core/spsc_queue.hpp and `next_pow2` of src/core/common.hpp. A pointer to a slot
-- is its index. Each member reads or writes at most one index that the other thread owns, so a member
-- is one step of an interleaving.
pub mod Pow2
pub mod Window
pub mod Valid
pub mod Contents
pub mod Threads
pub mod Safety
mod Tests
use Prim.Native.Nat.{bit_and}
use stok.Base.{
  ℕ, zero, suc, ◌+◌, ◌-◌, ◌*◌, ◌%◌, ◌^◌, Bool, true, false, Option, none, some, List, ltb, leb,
  ◌==◌, if◌then◌else◌, set, replicate,
}

-- size_t arithmetic
abbrev pub add_size : ℕ → ℕ → ℕ
add_size a b = (a + b) % 2 ^ 64

abbrev pub sub_size : ℕ → ℕ → ℕ
sub_size a b = (a + 2 ^ 64 - b) % 2 ^ 64

-- The loop of `next_pow2`, `none` when the fuel runs out: above 2^63 the C++ loop does not end,
-- since `p <<= 1` reaches 0.
unfoldable pub next_pow2_loop : ℕ → ℕ → ℕ → Option ℕ
next_pow2_loop zero p v = none
next_pow2_loop (suc fuel) p v =
    let rest = next_pow2_loop fuel (p * 2 % 2 ^ 64) v in if ltb p v then rest else some p

unfoldable pub next_pow2 : ℕ → Option ℕ
unfolding next_pow2_loop
next_pow2 v = next_pow2_loop 64 1 v

-- `head_` and `tail_` are the atomics; a cached index is private to one thread.
pub record SpscQueue {ℓ} (A : Type ℓ) : Type ℓ where
  pub cap : ℕ
  pub mask : ℕ
  pub slots : List A
  pub head : ℕ
  pub cached_tail : ℕ
  pub tail : ℕ
  pub cached_head : ℕ

module _ {ℓ} {A : Type ℓ} where
  abbrev of_cap : A → ℕ → SpscQueue A
  of_cap d c = record {
    cap = c;
    mask = c - 1;
    slots = replicate c d;
    head = 0;
    cached_tail = 0;
    tail = 0;
    cached_head = 0;
  }

  abbrev built : A → Option ℕ → Option (SpscQueue A)
  built d none = none
  built d (some c) = some (of_cap d c)

  -- The constructor; `d` is `T()`.
  pub make : A → ℕ → Option (SpscQueue A)
  unfolding next_pow2
  make d capacity = built d (next_pow2 (if ltb capacity 2 then 2 else capacity))

  pub try_claim : SpscQueue A → Option ℕ × SpscQueue A
  try_claim q =
      let q' = record q { cached_head = q.head } in
      let slot = bit_and q.tail q.mask in
      if leb q.cap (sub_size q.tail q.cached_head)
      then (if leb q.cap (sub_size q.tail q.head) then (none, q') else (some slot, q'))
      else (some slot, q)

  -- The write through the claimed pointer.
  pub fill : SpscQueue A → ℕ → A → SpscQueue A
  fill q i v = record q { slots = set q.slots i v }

  pub publish : SpscQueue A → SpscQueue A
  publish q = record q { tail = add_size q.tail 1 }

  pub try_push : SpscQueue A → A → Bool × SpscQueue A
  unfolding try_claim fill publish
  try_push q v =
      let (slot, q') = try_claim q in
      elim slot [ none ↦ (false, q') | some i ↦ (true, publish (fill q' i v)) ]

  pub front : SpscQueue A → Option ℕ × SpscQueue A
  front q =
      let q' = record q { cached_tail = q.tail } in
      let slot = bit_and q.head q.mask in
      if q.head == q.cached_tail
      then (if q.head == q.tail then (none, q') else (some slot, q'))
      else (some slot, q)

  pub pop : SpscQueue A → SpscQueue A
  pop q = record q { head = add_size q.head 1 }

  pub empty : SpscQueue A → Bool
  empty q = q.head == q.tail

  pub size_approx : SpscQueue A → ℕ
  size_approx q = sub_size q.tail q.head
