-- ===== src/Core/Spsc/Safety.antt =====
-- The queue is first in, first out for every interleaving of its two threads, and the threads never
-- touch the same slot.
use native.Mathlib.Nat.{mod-lt}
use stok.Base.{
  ℕ, ◌%◌, ◌≤◌, ◌<◌, ◌≡◌, ◌≢◌, ◌^◌, ◌⊎◌, inl, inr, sym, ap, ◌∙◌, none, some, List, [], ◌∷◌, ◌++◌,
  arith, get_or, length,
}
use mathlib.Core.List.{append_assoc}
use mathlib.Core.Path.{subst}
use stok.Core.Spsc.{SpscQueue, sub_size, make, try_claim, fill, publish, front, pop}
use stok.Core.Spsc.Window.{slot_ne, length-stored, get_or-set_self}
use stok.Core.Spsc.Valid.{
  IsValid, count, head_slot, contents, cap_pos, tail_slot, Claims, try_claim-Claims, Fronts,
  front-Fronts, publish-IsValid, pop-IsValid,
}
use stok.Core.Spsc.Contents.{contents-publish, contents-pop, contents-fill, fill-IsValid, make-Made}
use stok.Core.Spsc.Threads.{
  Producer, idle, claimed, filled, Consumer, waiting, holding, System, Step, claim, claim_full,
  write, commit, look, look_empty, take, Reach, here, next,
}

module _ {A : Type 0} (d : A) where
  -- What holds between the steps of each thread, over the fields that the thread relies on.
  abbrev ProducerOk : ℕ → ℕ → ℕ → List A → Producer A → Type 0
  ProducerOk cap tail cached slots idle = Unit {0}
  ProducerOk cap tail cached slots (claimed i) = (i ≡ tail % cap) × (sub_size tail cached < cap)
  ProducerOk cap tail cached slots (filled i x) =
      (i ≡ tail % cap) × (sub_size tail cached < cap) × (get_or slots i d ≡ x)

  abbrev ConsumerOk : ℕ → ℕ → ℕ → Consumer → Type 0
  ConsumerOk cap head cached waiting = Unit {0}
  ConsumerOk cap head cached (holding i) = (i ≡ head % cap) × (head ≢ cached)

  abbrev ProducerSafe : SpscQueue A → Producer A → Type 0
  ProducerSafe q p = ProducerOk q.cap q.tail q.cached_head q.slots p

  abbrev ConsumerSafe : SpscQueue A → Consumer → Type 0
  ConsumerSafe q c = ConsumerOk q.cap q.head q.cached_tail c

  pub record Inv (s : System A) : Type 0 where
    pub valid : IsValid s.queue
    pub producer_ok : ProducerSafe s.queue s.producer
    pub consumer_ok : ConsumerSafe s.queue s.consumer
    pub fifo : s.sent ≡ s.received ++ contents d s.queue

  -- A fresh view of the consumer's index never takes a claim back.
  module _ (s : System A) (v : Inv s) where
    claim-Inv :
        {i : ℕ} {q' : SpscQueue A}
        → s.producer ≡ idle
        → try_claim s.queue ≡ (some i, q')
        → Inv (record s { queue = q'; producer = claimed i })
    claim-Inv {i} {q'} p e =
        let (ok, same, slot, free) = subst (Claims s.queue) e (try_claim-Claims s.queue v.valid) in
        record {
          valid = ok;
          producer_ok =
              subst (λ r. (i ≡ r.tail % r.cap) × (sub_size q'.tail q'.cached_head < r.cap))
                (sym same) (slot, free);
          consumer_ok = subst (λ r. ConsumerSafe r s.consumer) (sym same) v.consumer_ok;
          fifo = subst (λ r. s.sent ≡ s.received ++ contents d r) (sym same) v.fifo;
        }

    claim_full-Inv :
        {q' : SpscQueue A}
        → s.producer ≡ idle
        → try_claim s.queue ≡ (none, q')
        → Inv (record s { queue = q' })
    claim_full-Inv {q'} p e =
        let (ok, same, full) = subst (Claims s.queue) e (try_claim-Claims s.queue v.valid) in
        record {
          valid = ok;
          producer_ok = rw p tt;
          consumer_ok = subst (λ r. ConsumerSafe r s.consumer) (sym same) v.consumer_ok;
          fifo = subst (λ r. s.sent ≡ s.received ++ contents d r) (sym same) v.fifo;
        }

    write-Inv :
        {i : ℕ} (x : A)
        → s.producer ≡ claimed i
        → Inv (record s { queue = fill s.queue i x; producer = filled i x })
    write-Inv {i} x p =
        let (slot, free) = subst (ProducerSafe s.queue) p v.producer_ok in
        let room : count s.queue < s.queue.cap = omega (arith, v.valid.lag_head) in
        let inside : i < length s.queue.slots =
          rw (slot, v.valid.room) (mod-lt s.queue.tail (cap_pos v.valid)) in
        record {
          valid = fill-IsValid d v.valid i x;
          producer_ok = unfold fill in (slot, free, get_or-set_self d s.queue.slots i x inside);
          consumer_ok = unfold fill in v.consumer_ok;
          fifo =
              v.fifo ∙ ap (λ r. s.received ++ r) (sym (rw slot (contents-fill d v.valid room x)));
        }

    commit-Inv :
        {i : ℕ} {x : A}
        → s.producer ≡ filled i x
        → Inv (record s { queue = publish s.queue; producer = idle; sent = s.sent ++ (x ∷ []) })
    commit-Inv {i} {x} p =
        let (slot, free, stands) = subst (ProducerSafe s.queue) p v.producer_ok in
        let last : get_or s.queue.slots (s.queue.tail % s.queue.cap) d ≡ x = rw (← slot) stands in
        record {
          valid = publish-IsValid v.valid free;
          producer_ok = tt;
          consumer_ok = unfold publish in v.consumer_ok;
          fifo = rw (contents-publish d v.valid free, last, v.fifo, append_assoc);
        }

    look-Inv :
        {i : ℕ} {q' : SpscQueue A}
        → s.consumer ≡ waiting
        → front s.queue ≡ (some i, q')
        → Inv (record s { queue = q'; consumer = holding i })
    look-Inv {i} {q'} p e =
        let (ok, same, slot, more) = subst (Fronts s.queue) e (front-Fronts s.queue v.valid) in
        record {
          valid = ok;
          producer_ok = subst (λ r. ProducerSafe r s.producer) (sym same) v.producer_ok;
          consumer_ok = (subst (λ r. i ≡ r.head % r.cap) (sym same) slot, more);
          fifo = subst (λ r. s.sent ≡ s.received ++ contents d r) (sym same) v.fifo;
        }

    look_empty-Inv :
        {q' : SpscQueue A}
        → s.consumer ≡ waiting
        → front s.queue ≡ (none, q')
        → Inv (record s { queue = q' })
    look_empty-Inv {q'} p e =
        let (ok, same, none_left) = subst (Fronts s.queue) e (front-Fronts s.queue v.valid) in
        record {
          valid = ok;
          producer_ok = subst (λ r. ProducerSafe r s.producer) (sym same) v.producer_ok;
          consumer_ok = rw p tt;
          fifo = subst (λ r. s.sent ≡ s.received ++ contents d r) (sym same) v.fifo;
        }

    take-Inv :
        {i : ℕ}
        → s.consumer ≡ holding i
        → Inv (record s {
          queue = pop s.queue;
          consumer = waiting;
          received = s.received ++ (get_or s.queue.slots i d ∷ []);
        })
    take-Inv {i} p =
        let (slot, more) = subst (ConsumerSafe s.queue) p v.consumer_ok in
        record {
          valid = pop-IsValid v.valid more;
          producer_ok = unfold pop in v.producer_ok;
          consumer_ok = tt;
          fifo =
              rw (slot, append_assoc)
                (v.fifo ∙ ap (λ r. s.received ++ r) (contents-pop d v.valid more));
        }

  Step-Inv : {s t : System A} → Step d s t → Inv s → Inv t
  Step-Inv (claim s p e) v = claim-Inv s v p e
  Step-Inv (claim_full s p e) v = claim_full-Inv s v p e
  Step-Inv (write s x p) v = write-Inv s v x p
  Step-Inv (commit s p) v = commit-Inv s v p
  Step-Inv (look s p e) v = look-Inv s v p e
  Step-Inv (look_empty s p e) v = look_empty-Inv s v p e
  Step-Inv (take s p) v = take-Inv s v p

  Reach-Inv : {s t : System A} → Inv s → Reach d s t → Inv t
  Reach-Inv h here = h
  Reach-Inv h (next r st) = Step-Inv st (Reach-Inv h r)

  abbrev pub fresh : SpscQueue A → System A
  fresh q = record { queue = q; producer = idle; consumer = waiting; sent = []; received = [] }

  fresh-Inv : (q : SpscQueue A) → IsValid q → contents d q ≡ [] → Inv (fresh q)
  fresh-Inv q v e = record { valid = v; producer_ok = tt; consumer_ok = tt; fifo = sym e }

  made-IsValid :
      (capacity : ℕ) (q : SpscQueue A)
      → capacity ≤ 2 ^ 63
      → make d capacity ≡ some q
      → IsValid q × (contents d q ≡ [])
  made-IsValid capacity q h e =
      let m = make-Made d capacity h in
      let same : m.queue ≡ q = cc (m.returns) in
      (subst (λ r. IsValid r) same m.valid, subst (λ r. contents d r ≡ []) same m.empty)

  -- Every state that the two threads reach from a new queue, in any interleaving of their steps and
  -- for any number of wraps of the indices: what was published is what was received, in that order,
  -- followed by what the ring still holds, which is at most its capacity.
  pub Reach-fifo :
      (capacity : ℕ) (q : SpscQueue A) {t : System A}
      → capacity ≤ 2 ^ 63
      → make d capacity ≡ some q
      → Reach d (fresh q) t
      → (t.sent ≡ t.received ++ contents d t.queue) × (length (contents d t.queue) ≤ t.queue.cap)
  Reach-fifo capacity q {t} h e r =
      let (v, c) = made-IsValid capacity q h e in
      let i = Reach-Inv (fresh-Inv q v c) r in
      (
        i.fifo,
        rw (length-stored d t.queue.slots t.queue.cap (head_slot t.queue) (count t.queue))
            (omega (arith, i.valid.lag_head, i.valid.fits)),
      )

  -- In every reachable state, the slot that the producer has claimed or filled is not the slot that
  -- the consumer is reading.
  pub Reach-disjoint :
      (capacity : ℕ) (q : SpscQueue A) {t : System A} (i j : ℕ)
      → capacity ≤ 2 ^ 63
      → make d capacity ≡ some q
      → Reach d (fresh q) t
      → (t.producer ≡ claimed i) ⊎ ((x : A) × (t.producer ≡ filled i x))
      → t.consumer ≡ holding j
      → i ≢ j
  Reach-disjoint capacity q {t} i j h e r p c =
      let (v, n) = made-IsValid capacity q h e in
      let inv = Reach-Inv (fresh-Inv q v n) r in
      let (hs, more) = subst (ConsumerSafe t.queue) c inv.consumer_ok in
      let (ts, free) = producing t.queue t.producer i inv.producer_ok p in
      let some_left : 0 < count t.queue =
        omega (arith, inv.valid.lag_tail, inv.valid.head_in, inv.valid.cached_tail_in) in
      let room : count t.queue < t.queue.cap = omega (arith, inv.valid.lag_head) in
      rw (ts, hs, tail_slot inv.valid)
        (slot_ne t.queue.cap (count t.queue) (head_slot t.queue) some_left room
          (mod-lt t.queue.head (cap_pos inv.valid)))
    where
      producing :
          (q : SpscQueue A) (p : Producer A) (i : ℕ)
          → ProducerSafe q p
          → (p ≡ claimed i) ⊎ ((x : A) × (p ≡ filled i x))
          → (i ≡ q.tail % q.cap) × (sub_size q.tail q.cached_head < q.cap)
      producing q p i o (inl e) = subst (ProducerSafe q) e o
      producing q p i o (inr (x, e)) = let (a, b, c) = subst (ProducerSafe q) e o in (a, b)
