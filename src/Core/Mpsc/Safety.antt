-- ===== src/Core/Mpsc/Safety.antt =====
-- What every interleaving of the producers and the consumer keeps.
use native.Mathlib.Nat.{mod-eq_of_lt, mod-lt}
use stok.Base.Bits.{pow_pos}
use stok.Base.Int.{zero_ℤ, ◌-ℤ◌, ltb_ℤ, to_i64, diff_negative}
use stok.Base.{
  ℕ, ◌<◌, ◌⊎◌, Bool, false, [], ◌∷◌, get_elem?, length-append, ◌+◌, ◌%◌, ◌^◌, ◌≤◌, ◌≡◌, ◌∙◌, ap,
  true, List, ◌++◌, arith, length, drop, length-take, take-append-drop, some, ltb, if◌then◌else◌,
  refl,
}
use stok.Core.Spsc.Pow2.{next_pow2-IsPow2Above}
use stok.Core.Mpsc.{
  make, made, write, cell, advanced, loaded, fill, commit, ready, front_value, pop, System, Step,
  call, read_seq, retry, claim, put, publish, front, take_one, Reach, start, later,
}
use stok.Core.Mpsc.Inv.{Inv, cell-mod, init-Inv, moved-Inv, look-Inv}
use stok.Core.Mpsc.Producer.{claim-Inv, put-Inv, publish-Inv}
use stok.Core.Mpsc.Consumer.{front-Inv, take-Inv}

-- A capacity of at most 2^63 is rounded up to a power of two of at least 2.
pub make-made :
    (capacity : ℕ)
    → capacity ≤ 2 ^ 63
    → (k : ℕ) × (make capacity ≡ some (made (2 ^ k))) × (2 ≤ 2 ^ k) × (capacity ≤ 2 ^ k)
unfolding make
make-made capacity small =
    let wanted = if ltb capacity 2 then 2 else capacity in
    let p = next_pow2-IsPow2Above wanted (ground arith) (ground arith) in
    (p.exponent, rw p.returns refl, ground (arith, p.above), ground (arith, p.above))

not_before :
    {a b : ℕ} (seq next : ℕ) (test : Bool)
    → test ≡ ltb seq next
    → (if test then false else true) ≡ true
    → seq ≡ a
    → next ≡ b
    → b ≤ a
not_before seq next test h e x y = ground arith

module _ (k : ℕ) where
  module _ (s : System) (inv : Inv k s) where
    fill_eq :
        (v pos : ℕ)
        → fill s.queue v pos ≡ record s.queue { contents = write s.queue.contents (pos % 2 ^ k) v }
    unfolding fill
    fill_eq v pos =
        ap (λ (c : ℕ). record s.queue { contents = write s.queue.contents c v })
          (cell-mod k s inv pos)

    seq_le : (pos : ℕ) → s.queue.seq (pos % 2 ^ k) ≤ s.queue.enqueue_pos + 2 ^ k
    seq_le pos = inv.small (pos % 2 ^ k) (mod-lt pos (pow_pos k))

    module _ (fits : s.queue.enqueue_pos + 2 ^ k < 2 ^ 63) where
      commit_eq :
          (pos : ℕ)
          → commit s.queue pos ≡ record s.queue {
            seq = write s.queue.seq (pos % 2 ^ k) (s.queue.seq (pos % 2 ^ k) + 1);
          }
      unfolding commit
      commit_eq pos =
          let next : (s.queue.seq (pos % 2 ^ k) + 1) % 2 ^ 64 ≡ s.queue.seq (pos % 2 ^ k) + 1 =
            mod-eq_of_lt (omega (arith, seq_le pos)) in
          ap
            (λ (c : ℕ). record s.queue { seq = write s.queue.seq c ((s.queue.seq c + 1) % 2 ^ 64) })
            (cell-mod k s inv pos)
          ∙ ap (λ (n : ℕ). record s.queue { seq = write s.queue.seq (pos % 2 ^ k) n }) next

      pop_eq : pop s.queue ≡ record s.queue {
        seq = write s.queue.seq (s.queue.dequeue_pos % 2 ^ k) (s.queue.dequeue_pos + 2 ^ k);
        dequeue_pos = s.queue.dequeue_pos + 1;
      }
      unfolding pop
      pop_eq =
          let d = s.queue.dequeue_pos in
          let there : (d + s.queue.cap) % 2 ^ 64 ≡ d + 2 ^ k =
            mod-eq_of_lt (omega (arith, inv.width, inv.low)) ∙ omega (arith, inv.width) in
          let next : (d + 1) % 2 ^ 64 ≡ d + 1 = mod-eq_of_lt (omega (arith, inv.low, pow_pos k)) in
          ap
            (λ (c : ℕ). record s.queue {
              seq = write s.queue.seq c ((d + s.queue.cap) % 2 ^ 64);
              dequeue_pos = (d + 1) % 2 ^ 64;
            })
            (cell-mod k s inv d)
          ∙ ap
              (λ (w : ℕ). record s.queue {
                seq = write s.queue.seq (d % 2 ^ k) w;
                dequeue_pos = (d + 1) % 2 ^ 64;
              })
              there
          ∙ ap
              (λ (n : ℕ). record s.queue {
                seq = write s.queue.seq (d % 2 ^ k) (d + 2 ^ k);
                dequeue_pos = n;
              })
              next

      advanced_eq : advanced s.queue ≡ record s.queue { enqueue_pos = s.queue.enqueue_pos + 1 }
      advanced_eq =
          ap (λ (n : ℕ). record s.queue { enqueue_pos = n })
            (mod-eq_of_lt (omega (arith, pow_pos k)))

      ready_lem :
          ready s.queue ≡ true → s.queue.dequeue_pos + 1 ≤ s.queue.seq (s.queue.dequeue_pos % 2 ^ k)
      unfolding ready
      ready_lem e =
          let d = s.queue.dequeue_pos in
          let here = ap s.queue.seq (cell-mod k s inv d) in
          let next : (d + 1) % 2 ^ 64 ≡ d + 1 = mod-eq_of_lt (omega (arith, inv.low, pow_pos k)) in
          let diff =
            diff_negative (s.queue.seq (cell s.queue d)) ((d + 1) % 2 ^ 64)
              (omega (arith, here, seq_le d)) (omega (arith, next, inv.low, pow_pos k)) in
          not_before (s.queue.seq (cell s.queue d)) ((d + 1) % 2 ^ 64)
            (ltb_ℤ (to_i64 (s.queue.seq (cell s.queue d)) -ℤ to_i64 ((d + 1) % 2 ^ 64)) zero_ℤ) diff
            e here next

    front_value_eq : front_value s.queue ≡ s.queue.contents (s.queue.dequeue_pos % 2 ^ k)
    unfolding front_value
    front_value_eq = ap s.queue.contents (cell-mod k s inv s.queue.dequeue_pos)

  -- The values claimed only grow in number.
  claims_grow : {s t : System} → Step s t → length s.claims ≤ length t.claims
  claims_grow (call i v e) = omega arith
  claims_grow (read_seq i v pos e) = omega arith
  claims_grow (retry i v pos e) = omega arith
  claims_grow {s} (claim i v pos e next) = omega (arith, length-append s.claims (v ∷ []))
  claims_grow (put i v pos e) = omega arith
  claims_grow (publish i v pos e) = omega arith
  claims_grow (front unheld some_cell) = omega arith
  claims_grow (take_one h) = omega arith

  step-Inv :
      {s t : System}
      → 2 ≤ 2 ^ k
      → s.queue.enqueue_pos + 2 ^ k < 2 ^ 63
      → Inv k s
      → Step s t
      → Inv k t
  step-Inv {s} wide fits inv (call i v e) =
      moved-Inv k s i (loaded v s.queue.enqueue_pos) inv (omega arith) (λ q a. a)
  step-Inv {s} wide fits inv (read_seq i v pos e) = look-Inv k s i v pos inv wide fits e
  step-Inv {s} wide fits inv (retry i v pos e) =
      moved-Inv k s i (loaded v s.queue.enqueue_pos) inv (omega arith) (λ q a. a)
  step-Inv {s} wide fits inv (claim i v pos e next) =
      rw (advanced_eq s inv fits) (claim-Inv k s inv i v pos e next)
  step-Inv {s} wide fits inv (put i v pos e) = rw (fill_eq s inv v pos) (put-Inv k s inv i v pos e)
  step-Inv {s} wide fits inv (publish i v pos e) =
      rw (commit_eq s inv fits pos) (publish-Inv k s inv i v pos e)
  step-Inv {s} wide fits inv (front unheld some_cell) =
      front-Inv k s inv (ready_lem s inv fits some_cell)
  step-Inv {s} wide fits inv (take_one h) =
      rw (pop_eq s inv fits, front_value_eq s inv) (take-Inv k s inv h)

  reach-Inv :
      {s : System} → 2 ≤ 2 ^ k → Reach (2 ^ k) s → length s.claims + 2 ^ k < 2 ^ 63 → Inv k s
  reach-Inv wide start fits = init-Inv k
  reach-Inv wide (later r st) fits =
      let inv = reach-Inv wide r (omega (arith, claims_grow st)) in
      step-Inv wide (omega (arith, claims_grow st, inv.recorded)) inv st

  -- In every state that any number of producers and the consumer reach, in any interleaving, from a
  -- new queue whose capacity is a power of two and at least 2, while the places claimed and the capacity
  -- are together below 2^63: the values received are the first of the values in the order in which their
  -- places were claimed, as many as the consumer's position says; the places claimed are as many as the
  -- producers' position says, and at most the capacity more; and the cell of each place between the two
  -- positions is not committed yet, or has the sequence number of a committed cell and holds the value
  -- that claimed the place.
  pub Reach-claims :
      {s : System}
      → 2 ≤ 2 ^ k
      → Reach (2 ^ k) s
      → length s.claims + 2 ^ k < 2 ^ 63
      → (s.received ++ drop s.queue.dequeue_pos s.claims ≡ s.claims)
        × (length s.received ≡ s.queue.dequeue_pos)
        × (length s.claims ≡ s.queue.enqueue_pos)
        × (length s.claims ≤ length s.received + 2 ^ k)
        × ((p : ℕ)
            → s.queue.dequeue_pos ≤ p
            → p < s.queue.enqueue_pos
            → (s.queue.seq (p % 2 ^ k) ≡ p)
              ⊎ ((s.queue.seq (p % 2 ^ k) ≡ p + 1)
                  × (get_elem? s.claims p ≡ some (s.queue.contents (p % 2 ^ k)))))
  Reach-claims {s} wide r fits =
      let inv = reach-Inv wide r fits in
      let d = s.queue.dequeue_pos in
      let taken_count : length s.received ≡ d =
        ap (λ (l : List ℕ). length l) inv.got
        ∙ omega (arith, length-take d s.claims, inv.low, inv.recorded) in
      (
        ap (λ (l : List ℕ). l ++ drop d s.claims) inv.got ∙ take-append-drop d s.claims,
        taken_count,
        inv.recorded,
        omega (arith, inv.high, inv.recorded),
        inv.in_use,
      )
