-- ===== src/Core/Mpsc/Consumer.antt =====
-- The steps of the consumer.
use native.Mathlib.Decide.{ℕ_discrete, dec_lt}
use stok.Base.{
  ℕ, ◌+◌, ◌%◌, ◌^◌, ◌<◌, ◌≤◌, ◌≡◌, ◌≢◌, inl, inr, sym, ◌∙◌, ap, true, false, some, List, [], ◌∷◌,
  ◌++◌, arith, get_elem?, branch, ◌==◌,
}
use stok.Base.Bits.{pow_pos}
use stok.Core.Mpsc.{write, Pc, idle, loaded, matched, claimed, filled, System}
use stok.Core.Mpsc.Window.{take_next, write_eq, write_ne, mod_cap, distinct_cells}
use stok.Core.Mpsc.Inv.{IsSound, Inv}

module _ (k : ℕ) where
  module _ (s : System) (inv : Inv k s) where
    abbrev pub d : ℕ
    d = s.queue.dequeue_pos

    -- A sequence number past the consumer's position tells of a committed push.
    committed :
        d + 1 ≤ s.queue.seq (d % 2 ^ k)
        → (d < s.queue.enqueue_pos)
          × (s.queue.seq (d % 2 ^ k) ≡ d + 1)
          × (get_elem? s.claims d ≡ some (s.queue.contents (d % 2 ^ k)))
    committed seen = elim (dec_lt d s.queue.enqueue_pos) [
      | no ge ↦
          let unused = inv.free d (omega arith) (omega (arith, pow_pos k)) in absurd (omega arith)
      | yes lt ↦ elim (inv.in_use d (omega arith) lt) [
        | inl x ↦ absurd (omega arith)
        | inr x ↦ (lt, x.0, x.1)
      ]
    ]

    abbrev pub fronted : System
    fronted = record s { holding = true }

    pub front-Inv : d + 1 ≤ s.queue.seq (d % 2 ^ k) → Inv k fronted
    front-Inv seen =
        let c = committed seen in
        record {
          width = inv.width;
          ones = inv.ones;
          low = inv.low;
          high = inv.high;
          recorded = inv.recorded;
          got = inv.got;
          small = inv.small;
          free = inv.free;
          in_use = inv.in_use;
          sound = inv.sound;
          unshared = inv.unshared;
          held = λ h. (c.0, c.1);
        }

    abbrev pub taken : System
    taken = record s {
      queue = record s.queue {
        seq = write s.queue.seq (d % 2 ^ k) (d + 2 ^ k);
        dequeue_pos = d + 1;
      };
      holding = false;
      received = s.received ++ (s.queue.contents (d % 2 ^ k) ∷ []);
    }

    pub take-Inv : s.holding ≡ true → Inv k taken
    take-Inv h =
        let x = inv.held h in
        let c = committed (omega (arith, x.1)) in
        let kept : (p : ℕ)
            → d ≤ p
            → p < d + 2 ^ k
            → p ≢ d
            → taken.queue.seq (p % 2 ^ k) ≡ s.queue.seq (p % 2 ^ k) =
          λ p lo hi ne.
            (write_ne s.queue.seq (d % 2 ^ k) (d + 2 ^ k) (p % 2 ^ k)
              (distinct_cells k d p d lo hi (omega arith) (omega (arith, pow_pos k)) ne)) in
        record {
          width = inv.width;
          ones = inv.ones;
          low = omega (arith, x.0);
          high = omega (arith, inv.high);
          recorded = inv.recorded;
          got =
              ap (λ (l : List ℕ). l ++ (s.queue.contents (d % 2 ^ k) ∷ [])) inv.got
              ∙ take_next d s.claims (s.queue.contents (d % 2 ^ k)) c.2;
          small = λ c lt.
              branch (λ (n : ℕ). n ≤ s.queue.enqueue_pos + 2 ^ k) (c == d % 2 ^ k)
                (λ _. (omega (arith, inv.low))) (λ _. inv.small c lt);
          free = λ p lo hi. elim (ℕ_discrete p (d + 2 ^ k)) [
            | yes same ↦
                write_eq s.queue.seq (d % 2 ^ k) (d + 2 ^ k) (p % 2 ^ k)
                  (ap (λ (n : ℕ). n % 2 ^ k) same ∙ mod_cap k d)
                ∙ sym same
            | no ne ↦
                kept p (omega (arith, inv.low)) (omega arith) (λ b. (omega (arith, x.0)))
                ∙ inv.free p lo (omega arith)
          ];
          in_use = λ p lo hi.
              (let same = kept p (omega arith) (omega (arith, inv.high)) (λ b. (omega arith)) in
                elim (inv.in_use p (omega arith) hi) [
                  | inl y ↦ inl (same ∙ y)
                  | inr y ↦ inr (same ∙ y.0, y.1)
                ]);
          sound = λ j. take-IsSound kept x.1 (s.pc j) (inv.sound j);
          unshared = inv.unshared;
          held = λ e. absurd (cc);
        }
      where
        past :
            (q : ℕ) → s.queue.seq (d % 2 ^ k) ≡ d + 1 → d ≤ q → s.queue.seq (q % 2 ^ k) ≡ q → q ≢ d
        past q seen lo own b = omega (arith, ap (λ (n : ℕ). s.queue.seq (n % 2 ^ k)) b)

        take-IsSound :
            ((p : ℕ)
              → d ≤ p
              → p < d + 2 ^ k
              → p ≢ d
              → taken.queue.seq (p % 2 ^ k) ≡ s.queue.seq (p % 2 ^ k))
            → s.queue.seq (d % 2 ^ k) ≡ d + 1
            → (p : Pc) → IsSound k s p
            → IsSound k taken p
        take-IsSound kept seen idle ok = tt
        take-IsSound kept seen (loaded u q) ok = ok
        take-IsSound kept seen (matched u q) ok = (ok.0, omega (arith, ok.1))
        take-IsSound kept seen (claimed u q) ok =
            let ne = past q seen ok.0 ok.2 in
            (omega (arith, ok.0), ok.1, kept q ok.0 (omega (arith, ok.1, inv.high)) ne ∙ ok.2, ok.3)
        take-IsSound kept seen (filled u q) ok =
            let ne = past q seen ok.0 ok.2 in
            (
              omega (arith, ok.0),
              ok.1,
              kept q ok.0 (omega (arith, ok.1, inv.high)) ne ∙ ok.2,
              ok.3,
              ok.4,
            )
