-- ===== src/Core/Mpsc/Tests.antt =====
-- Two producers and the consumer on a queue of two cells.
use stok.Base.Int.{◌-ℤ◌}
use stok.Base.{
  ℕ, ◌+◌, ◌≡◌, ◌≤◌, ◌^◌, ◌<◌, ◌%◌, ◌⊎◌, some, get_elem?, refl, true, false, [], ◌∷◌, ◌++◌, length,
  drop, arith,
}
use stok.Core.Mpsc.{
  idle, loaded, matched, claimed, filled, look, fill, commit, ready, front_value, pop, System, init,
  at, update, call, read_seq, retry, claim, put, publish, front, take_one, Reach, start, later,
}
use stok.Core.Mpsc.Safety.{Reach-claims}

-- Producer 0 loads the position first, and loses it to producer 1.
abbrev raced : System
raced =
    let s1 = at (init (2 ^ 1)) 0 (loaded 70 0) in
    let s2 = at s1 1 (loaded 81 0) in
    let s3 = at s2 0 (matched 70 0) in
    let s4 = at s3 1 (matched 81 0) in
    let s5 : System = record s4 {
      queue = record s4.queue { enqueue_pos = 1 };
      pc = update s4.pc 1 (claimed 81 0);
      claims = 81 ∷ [];
    } in
    let s6 = at s5 0 (loaded 70 1) in
    let s7 : System = record s6 { queue = fill s6.queue 81 0; pc = update s6.pc 1 (filled 81 0) } in
    let s8 : System = record s7 { queue = commit s7.queue 0; pc = update s7.pc 1 idle } in
    let s9 : System = record s8 { holding = true } in
    record s9 {
      queue = pop s9.queue;
      holding = false;
      received = s9.received ++ (front_value s9.queue ∷ []);
    }

abbrev raced_Reach : Reach (2 ^ 1) raced
unfolding look fill commit ready pop front_value ◌-ℤ◌
raced_Reach =
    later
      (later
        (later
          (later
            (later
              (later
                (later
                  (later (later (later start (call 0 70 refl)) (call 1 81 refl))
                    (read_seq 0 70 0 refl))
                  (read_seq 1 81 0 refl))
                (claim 1 81 0 refl refl))
              (retry 0 70 0 refl))
            (put 1 81 0 refl))
          (publish 1 81 0 refl))
        (front refl refl))
      (take_one refl)

raced_received : raced.received ≡ 81 ∷ []
unfolding fill commit pop front_value
raced_received = refl

Reach-claims_example :
    (raced.received ++ drop raced.queue.dequeue_pos raced.claims ≡ raced.claims)
    × (length raced.received ≡ raced.queue.dequeue_pos)
    × (length raced.claims ≡ raced.queue.enqueue_pos)
    × (length raced.claims ≤ length raced.received + 2 ^ 1)
    × ((p : ℕ)
        → raced.queue.dequeue_pos ≤ p
        → p < raced.queue.enqueue_pos
        → (raced.queue.seq (p % 2 ^ 1) ≡ p)
          ⊎ ((raced.queue.seq (p % 2 ^ 1) ≡ p + 1)
              × (get_elem? raced.claims p ≡ some (raced.queue.contents (p % 2 ^ 1)))))
Reach-claims_example = Reach-claims 1 (omega arith) raced_Reach (omega arith)
