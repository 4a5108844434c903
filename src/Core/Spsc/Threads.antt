-- ===== src/Core/Spsc/Threads.antt =====
-- The two threads of a queue, step by step. The producer claims a slot, fills it and publishes it;
-- the consumer looks at the front, reads the slot in place and pops it. The steps of the two
-- interleave in any order.
use stok.Base.{ℕ, ◌≡◌, none, some, List, [], ◌∷◌, ◌++◌, get_or}
use stok.Core.Spsc.{SpscQueue, try_claim, fill, publish, front, pop}

pub data Producer (A : Type 0) : Type 0 where
  idle : Producer A
  claimed : ℕ → Producer A
  filled : ℕ → A → Producer A

pub data Consumer : Type 0 where
  waiting : Consumer
  holding : ℕ → Consumer

-- `sent` and `received` record what was published and what was read at each pop.
pub record System (A : Type 0) : Type 0 where
  pub queue : SpscQueue A
  pub producer : Producer A
  pub consumer : Consumer
  pub sent : List A
  pub received : List A

module _ {A : Type 0} (d : A) where
  pub data Step : System A → System A → Type 0 where
    claim :
        (s : System A) {i : ℕ} {q' : SpscQueue A}
        → s.producer ≡ idle
        → try_claim s.queue ≡ (some i, q')
        → Step s (record s { queue = q'; producer = claimed i })
    claim_full :
        (s : System A) {q' : SpscQueue A}
        → s.producer ≡ idle
        → try_claim s.queue ≡ (none, q')
        → Step s (record s { queue = q' })
    write :
        (s : System A) {i : ℕ} (x : A)
        → s.producer ≡ claimed i
        → Step s (record s { queue = fill s.queue i x; producer = filled i x })
    commit :
        (s : System A) {i : ℕ} {x : A}
        → s.producer ≡ filled i x
        → Step s (record s { queue = publish s.queue; producer = idle; sent = s.sent ++ (x ∷ []) })
    look :
        (s : System A) {i : ℕ} {q' : SpscQueue A}
        → s.consumer ≡ waiting
        → front s.queue ≡ (some i, q')
        → Step s (record s { queue = q'; consumer = holding i })
    look_empty :
        (s : System A) {q' : SpscQueue A}
        → s.consumer ≡ waiting
        → front s.queue ≡ (none, q')
        → Step s (record s { queue = q' })
    take :
        (s : System A) {i : ℕ}
        → s.consumer ≡ holding i
        → Step s (record s {
          queue = pop s.queue;
          consumer = waiting;
          received = s.received ++ (get_or s.queue.slots i d ∷ []);
        })

  pub data Reach (s : System A) : System A → Type 0 where
    here : Reach s s
    next : {t u : System A} → Reach s t → Step t u → Reach s u
