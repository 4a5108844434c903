-- ===== src/Core/Spsc/Tests.antt =====
-- Runs of `SpscQueue` on small queues.
use stok.Base.{ℕ, ◌≤◌, ◌≡◌, ◌≢◌, refl, some, [], ◌∷◌, ◌++◌, arith, length, inl}
use stok.Core.Spsc.{SpscQueue, make, next_pow2, try_claim, front, publish, fill}
use stok.Core.Spsc.Pow2.{IsPow2Above, next_pow2-IsPow2Above}
use stok.Core.Spsc.Contents.{Made, make-Made}
use stok.Core.Spsc.Valid.{contents}
use stok.Core.Spsc.Threads.{
  System, Reach, here, next, claim, write, commit, look, idle, claimed, waiting, holding,
}
use stok.Core.Spsc.Safety.{Reach-fifo, Reach-disjoint, fresh}

abbrev two : SpscQueue ℕ
two = record {
  cap = 2;
  mask = 1;
  slots = 0 ∷ 0 ∷ [];
  head = 0;
  cached_tail = 0;
  tail = 0;
  cached_head = 0;
}

made_two : make 0 2 ≡ some two
unfolding make
made_two = refl

next_pow2-IsPow2Above_example : IsPow2Above 5 (next_pow2 5)
next_pow2-IsPow2Above_example = next_pow2-IsPow2Above 5 (omega arith) (omega arith)

make-Made_example : Made {A = ℕ} 0 5 (make 0 5)
make-Made_example = make-Made 0 5 (omega arith)

-- One element is published; then the producer claims again while the consumer holds the first slot.
abbrev after_push : SpscQueue ℕ
after_push = record two { slots = 7 ∷ 0 ∷ []; tail = 1 }

abbrev both : System ℕ
both = record {
  queue = record after_push { cached_tail = 1 };
  producer = claimed 1;
  consumer = holding 0;
  sent = 7 ∷ [];
  received = [];
}

pushed : Reach {A = ℕ} 0 (fresh 0 two) (record {
  queue = after_push;
  producer = idle;
  consumer = waiting;
  sent = 7 ∷ [];
  received = [];
})
unfolding try_claim publish fill
pushed = next (next (next here (claim (fresh 0 two) refl refl)) (write _ 7 refl)) (commit _ refl)

both_reached : Reach {A = ℕ} 0 (fresh 0 two) both
unfolding try_claim front
both_reached = next (next pushed (look _ refl refl)) (claim _ refl refl)

Reach-disjoint_example : ◌≢◌ {A = ℕ} 1 0
Reach-disjoint_example =
    Reach-disjoint 0 2 two {t = both} 1 0 (omega arith) made_two both_reached (inl refl) refl

Reach-fifo_example :
    (both.sent ≡ both.received ++ contents 0 both.queue) × (length (contents 0 both.queue) ≤ 2)
Reach-fifo_example = Reach-fifo 0 2 two {t = both} (omega arith) made_two both_reached
