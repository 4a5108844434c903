-- ===== src/Core/Mpsc.antt =====
-- `MpscQueue` of src/core/mpsc_queue.hpp: producers and one consumer, one access of the shared memory a
-- step. The positions and the sequence numbers are words of 64 bits that wrap around; intptr_t has 64 bits.
pub mod Window
pub mod Inv
pub mod Producer
pub mod Consumer
pub mod Safety
mod Tests
use Prim.Native.Nat.{bit_and}
use stok.Base.{
  ℕ, ◌+◌, ◌-◌, ◌%◌, ◌^◌, ◌≡◌, Bool, true, false, Option, some, List, [], ◌∷◌, ◌++◌, ltb, ◌==◌,
  if◌then◌else◌, ◌>>=◌,
}
use stok.Base.Int.{zero_ℤ, ◌-ℤ◌, ltb_ℤ, to_i64, eq_ℤ}
use stok.Core.Spsc.{next_pow2}

-- The cells by index: their sequence numbers and their contents.
pub record MpscQueue : Type 0 where
  pub cap : ℕ
  pub mask : ℕ
  pub seq : ℕ → ℕ
  pub contents : ℕ → ℕ
  pub enqueue_pos : ℕ
  pub dequeue_pos : ℕ

abbrev pub write : (ℕ → ℕ) → ℕ → ℕ → ℕ → ℕ
write f i x j = if j == i then x else f j

unfoldable pub cell : MpscQueue → ℕ → ℕ
cell q pos = bit_and pos q.mask

-- The constructor's cells.
abbrev pub made : ℕ → MpscQueue
made cap = record {
  cap = cap;
  mask = cap - 1;
  seq = λ i. i;
  contents = λ i. 0;
  enqueue_pos = 0;
  dequeue_pos = 0;
}

-- The constructor rounds the capacity up; `none` where `next_pow2` does not return.
unfoldable pub make : ℕ → Option MpscQueue
make capacity = do cap ← next_pow2 (if ltb capacity 2 then 2 else capacity); some (made cap)

-- Where a producer is in `try_push_with`, with the value and the position that it has.
pub data Pc : Type 0 where
  idle : Pc
  loaded : ℕ → ℕ → Pc
  matched : ℕ → ℕ → Pc
  claimed : ℕ → ℕ → Pc
  filled : ℕ → ℕ → Pc

-- The three outcomes of the load of a cell's sequence number.
unfoldable pub look : MpscQueue → ℕ → ℕ → Pc
unfolding cell
look q v pos =
    let seq = q.seq (cell q pos) in
    let diff = to_i64 seq -ℤ to_i64 pos in
    if eq_ℤ diff (zero_ℤ)
    then matched v pos
    else if ltb_ℤ diff (zero_ℤ)
    then idle
    else loaded v q.enqueue_pos

-- `compare_exchange_weak` that succeeds.
abbrev pub advanced : MpscQueue → MpscQueue
advanced q = record q { enqueue_pos = (q.enqueue_pos + 1) % 2 ^ 64 }

unfoldable pub fill : MpscQueue → ℕ → ℕ → MpscQueue
unfolding cell
fill q v pos = record q { contents = write q.contents (cell q pos) v }

unfoldable pub commit : MpscQueue → ℕ → MpscQueue
unfolding cell
commit q pos = record q { seq = write q.seq (cell q pos) ((q.seq (cell q pos) + 1) % 2 ^ 64) }

-- `front` returns a cell.
unfoldable pub ready : MpscQueue → Bool
unfolding cell
ready q =
    let diff = to_i64 (q.seq (cell q q.dequeue_pos)) -ℤ to_i64 ((q.dequeue_pos + 1) % 2 ^ 64) in
    if ltb_ℤ diff (zero_ℤ) then false else true

unfoldable pub front_value : MpscQueue → ℕ
unfolding cell
front_value q = q.contents (cell q q.dequeue_pos)

unfoldable pub pop : MpscQueue → MpscQueue
unfolding cell
pop q = record q {
  seq = write q.seq (cell q q.dequeue_pos) ((q.dequeue_pos + q.cap) % 2 ^ 64);
  dequeue_pos = (q.dequeue_pos + 1) % 2 ^ 64;
}

-- `claims` are the values in the order of their claims, and `received` what the consumer took.
-- `holding` is set between a `front` that returned a cell and its `pop`.
pub record System : Type 0 where
  pub queue : MpscQueue
  pub pc : ℕ → Pc
  pub holding : Bool
  pub claims : List ℕ
  pub received : List ℕ

abbrev pub update : (ℕ → Pc) → ℕ → Pc → ℕ → Pc
update f i p j = if j == i then p else f j

abbrev pub init : ℕ → System
init cap = record { queue = made cap; pc = λ i. idle; holding = false; claims = []; received = [] }

abbrev pub at : System → ℕ → Pc → System
at s i p = record s { pc = update s.pc i p }

pub data Step (s : System) : System → Type 0 where
  call : (i v : ℕ) → s.pc i ≡ idle → Step s (at s i (loaded v s.queue.enqueue_pos))
  read_seq : (i v pos : ℕ) → s.pc i ≡ loaded v pos → Step s (at s i (look s.queue v pos))
  retry : (i v pos : ℕ) → s.pc i ≡ matched v pos → Step s (at s i (loaded v s.queue.enqueue_pos))
  claim :
      (i v pos : ℕ)
      → s.pc i ≡ matched v pos
      → s.queue.enqueue_pos ≡ pos
      → Step s (record s {
        queue = advanced s.queue;
        pc = update s.pc i (claimed v pos);
        claims = s.claims ++ (v ∷ []);
      })
  put :
      (i v pos : ℕ)
      → s.pc i ≡ claimed v pos
      → Step s (record s { queue = fill s.queue v pos; pc = update s.pc i (filled v pos) })
  publish :
      (i v pos : ℕ)
      → s.pc i ≡ filled v pos
      → Step s (record s { queue = commit s.queue pos; pc = update s.pc i idle })
  front : s.holding ≡ false → ready s.queue ≡ true → Step s (record s { holding = true })
  take_one :
      s.holding ≡ true
      → Step s (record s {
        queue = pop s.queue;
        holding = false;
        received = s.received ++ (front_value s.queue ∷ []);
      })

pub data Reach (cap : ℕ) : System → Type 0 where
  start : Reach cap (init cap)
  later : {s t : System} → Reach cap s → Step s t → Reach cap t
