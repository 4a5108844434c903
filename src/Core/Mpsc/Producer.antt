-- ===== src/Core/Mpsc/Producer.antt =====
-- The steps of a producer that claim, fill and publish a cell.
use native.Mathlib.Decide.{ℕ_discrete}
use stok.Base.{
  ℕ, ◌+◌, ◌%◌, ◌^◌, ◌<◌, ◌≤◌, ◌≡◌, ◌≢◌, inl, inr, refl, sym, ◌∙◌, ap, some, [], ◌∷◌, ◌++◌, arith,
  ◌==◌, branch, get_elem?, length-append, take-append,
}
use stok.Core.Mpsc.{write, Pc, idle, loaded, matched, claimed, filled, System, update}
use stok.Core.Mpsc.Window.{get_elem?-append, get_elem?-last, write_eq, write_ne, distinct_cells}
use stok.Core.Mpsc.Inv.{Owns, IsSound, Inv, update_eq, update_ne, still-Unshared, owned}

module _ (k : ℕ) where
  module _ (s : System) (inv : Inv k s) (i v pos : ℕ) where
    abbrev pub claimed_by : System
    claimed_by = record s {
      queue = record s.queue { enqueue_pos = s.queue.enqueue_pos + 1 };
      pc = update s.pc i (claimed v pos);
      claims = s.claims ++ (v ∷ []);
    }

    claimed-IsSound : (p : Pc) → IsSound k s p → IsSound k claimed_by p
    claimed-IsSound idle ok = tt
    claimed-IsSound (loaded u q) ok = omega arith
    claimed-IsSound (matched u q) ok = (omega (arith, ok.0), ok.1)
    claimed-IsSound (claimed u q) ok =
        (ok.0, omega (arith, ok.1), ok.2, get_elem?-append q s.claims (v ∷ []) u ok.3)
    claimed-IsSound (filled u q) ok =
        (ok.0, omega (arith, ok.1), ok.2, get_elem?-append q s.claims (v ∷ []) u ok.3, ok.4)

    pub claim-Inv : s.pc i ≡ matched v pos → s.queue.enqueue_pos ≡ pos → Inv k claimed_by
    claim-Inv e next =
        let known : IsSound k s (matched v pos) = rw e at (inv.sound i) in
        let seen = inv.free pos (omega arith) known.1 in
        record {
          width = inv.width;
          ones = inv.ones;
          low = omega (arith, inv.low);
          high = omega (arith, known.1);
          recorded = omega (arith, length-append s.claims (v ∷ []), inv.recorded);
          got =
              inv.got
              ∙ sym (
                  take-append s.queue.dequeue_pos s.claims (v ∷ [])
                    (omega (arith, inv.low, inv.recorded)));
          small = λ c lt. (omega (arith, inv.small c lt));
          free = λ p lo hi. inv.free p (omega arith) hi;
          in_use = λ p lo hi. elim (ℕ_discrete p pos) [
            | yes same ↦ inl (rw same seen)
            | no ne ↦ elim (inv.in_use p lo (omega arith)) [
              | inl x ↦ inl x
              | inr x ↦ inr (x.0, get_elem?-append p s.claims (v ∷ []) _ x.1)
            ]
          ];
          sound = λ j.
              branch (IsSound k claimed_by) (j == i)
                (λ _. (
                  omega (arith, inv.low),
                  omega arith,
                  seen,
                  ap (get_elem? (s.claims ++ (v ∷ []))) (sym (inv.recorded ∙ next))
                      ∙ get_elem?-last s.claims v,
                ))
                (λ _. claimed-IsSound (s.pc j) (inv.sound j));
          unshared = still-Unshared s.pc i (claimed v pos) inv.unshared (λ j q ne a b.
              (let o = owned k s (s.pc j) q (inv.sound j) b in let lt = o.below in omega arith));
          held = λ h. (let x = inv.held h in (omega (arith, x.0), x.1));
        }

    abbrev pub put_by : System
    put_by = record s {
      queue = record s.queue { contents = write s.queue.contents (pos % 2 ^ k) v };
      pc = update s.pc i (filled v pos);
    }

    pub put-Inv : s.pc i ≡ claimed v pos → Inv k put_by
    put-Inv e =
        let known : IsSound k s (claimed v pos) = rw e at (inv.sound i) in
        let kept : (p : ℕ)
            → s.queue.dequeue_pos ≤ p
            → p < s.queue.enqueue_pos
            → p ≢ pos
            → put_by.queue.contents (p % 2 ^ k) ≡ s.queue.contents (p % 2 ^ k) =
          λ p lo hi ne.
            (write_ne s.queue.contents (pos % 2 ^ k) v (p % 2 ^ k) (
              distinct_cells k s.queue.dequeue_pos p pos lo (omega (arith, inv.high)) known.0
                (omega (arith, inv.high, known.1)) ne)) in
        let mine : Owns (s.pc i) pos = rw e refl in
        record {
          width = inv.width;
          ones = inv.ones;
          low = inv.low;
          high = inv.high;
          recorded = inv.recorded;
          got = inv.got;
          small = inv.small;
          free = inv.free;
          in_use = λ p lo hi. elim (inv.in_use p lo hi) [
            | inl x ↦ inl x
            | inr x ↦
                let ne : p ≢ pos =
                  λ b. (omega (arith, x.0, known.2, ap (λ (n : ℕ). s.queue.seq (n % 2 ^ k)) b)) in
                inr (x.0, x.1 ∙ ap (λ (c : ℕ). some c) (sym (kept p lo hi ne)))
          ];
          sound = λ j. elim (ℕ_discrete j i) [
            | yes same ↦ rw (update_eq s.pc i j (filled v pos) same) (
              known.0,
              known.1,
              known.2,
              known.3,
              write_eq s.queue.contents (pos % 2 ^ k) v (pos % 2 ^ k) refl,
            )
            | no ne ↦
                rw (update_ne s.pc i j (filled v pos) ne)
                  (put-IsSound kept (s.pc j) (λ b. inv.unshared j i pos ne b mine) (inv.sound j))
          ];
          unshared =
              still-Unshared s.pc i (filled v pos) inv.unshared
                (λ j q ne a b. inv.unshared j i q ne b (rw a at mine));
          held = inv.held;
        }
      where
        put-IsSound :
            ((p : ℕ)
              → s.queue.dequeue_pos ≤ p
              → p < s.queue.enqueue_pos
              → p ≢ pos
              → put_by.queue.contents (p % 2 ^ k) ≡ s.queue.contents (p % 2 ^ k))
            → (p : Pc) → (Owns p pos → ⊥)
            → IsSound k s p
            → IsSound k put_by p
        put-IsSound kept idle away ok = tt
        put-IsSound kept (loaded u q) away ok = ok
        put-IsSound kept (matched u q) away ok = ok
        put-IsSound kept (claimed u q) away ok = ok
        put-IsSound kept (filled u q) away ok =
            (ok.0, ok.1, ok.2, ok.3, kept q ok.0 ok.1 away ∙ ok.4)

    abbrev pub published_by : System
    published_by = record s {
      queue = record s.queue {
        seq = write s.queue.seq (pos % 2 ^ k) (s.queue.seq (pos % 2 ^ k) + 1);
      };
      pc = update s.pc i idle;
    }

    pub publish-Inv : s.pc i ≡ filled v pos → Inv k published_by
    publish-Inv e =
        let known : IsSound k s (filled v pos) = rw e at (inv.sound i) in
        let mine : Owns (s.pc i) pos = rw e refl in
        let kept : (p : ℕ)
            → s.queue.dequeue_pos ≤ p
            → p < s.queue.dequeue_pos + 2 ^ k
            → p ≢ pos
            → published_by.queue.seq (p % 2 ^ k) ≡ s.queue.seq (p % 2 ^ k) =
          λ p lo hi ne.
            (write_ne s.queue.seq (pos % 2 ^ k) (s.queue.seq (pos % 2 ^ k) + 1) (p % 2 ^ k) (
              distinct_cells k s.queue.dequeue_pos p pos lo hi known.0
                (omega (arith, inv.high, known.1)) ne)) in
        let raised : published_by.queue.seq (pos % 2 ^ k) ≡ pos + 1 =
          write_eq s.queue.seq (pos % 2 ^ k) (s.queue.seq (pos % 2 ^ k) + 1) (pos % 2 ^ k) refl
          ∙ omega (arith, known.2) in
        record {
          width = inv.width;
          ones = inv.ones;
          low = inv.low;
          high = inv.high;
          recorded = inv.recorded;
          got = inv.got;
          small = λ c lt.
              branch (λ (n : ℕ). n ≤ s.queue.enqueue_pos + 2 ^ k) (c == pos % 2 ^ k)
                (λ _. (omega (arith, known.1, known.2))) (λ _. inv.small c lt);
          free = λ p lo hi.
              (kept p (omega (arith, inv.low)) hi (λ b. (omega (arith, known.1)))
                ∙ inv.free p lo hi);
          in_use = λ p lo hi. elim (ℕ_discrete p pos) [
            | yes same ↦ rw same (inr (raised, known.3 ∙ ap (λ (c : ℕ). some c) (sym known.4)))
            | no ne ↦
                let same = kept p lo (omega (arith, inv.high)) ne in
                elim (inv.in_use p lo hi) [ inl x ↦ inl (same ∙ x) | inr x ↦ inr (same ∙ x.0, x.1) ]
          ];
          sound = λ j. elim (ℕ_discrete j i) [
            | yes same ↦ rw (update_eq s.pc i j idle same) tt
            | no ne ↦
                rw (update_ne s.pc i j idle ne) (
                  publish-IsSound kept (s.pc j) (λ b. inv.unshared j i pos ne b mine) (inv.sound j))
          ];
          unshared = still-Unshared s.pc i idle inv.unshared (λ j q ne a b. a);
          held = λ h.
              (let x = inv.held h in
                let ne : s.queue.dequeue_pos ≢ pos =
                  λ b. (omega (arith, x.1, known.2, ap (λ (n : ℕ). s.queue.seq (n % 2 ^ k)) b)) in
                (
                  x.0,
                  kept s.queue.dequeue_pos (omega arith) (omega (arith, x.0, inv.high)) ne ∙ x.1,
                ));
        }
      where
        publish-IsSound :
            ((p : ℕ)
              → s.queue.dequeue_pos ≤ p
              → p < s.queue.dequeue_pos + 2 ^ k
              → p ≢ pos
              → published_by.queue.seq (p % 2 ^ k) ≡ s.queue.seq (p % 2 ^ k))
            → (p : Pc) → (Owns p pos → ⊥)
            → IsSound k s p
            → IsSound k published_by p
        publish-IsSound kept idle away ok = tt
        publish-IsSound kept (loaded u q) away ok = ok
        publish-IsSound kept (matched u q) away ok = ok
        publish-IsSound kept (claimed u q) away ok =
            (ok.0, ok.1, kept q ok.0 (omega (arith, ok.1, inv.high)) away ∙ ok.2, ok.3)
        publish-IsSound kept (filled u q) away ok =
            (ok.0, ok.1, kept q ok.0 (omega (arith, ok.1, inv.high)) away ∙ ok.2, ok.3, ok.4)
