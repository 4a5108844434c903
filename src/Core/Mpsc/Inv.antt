-- ===== src/Core/Mpsc/Inv.antt =====
-- What holds between steps, and the steps that only move a producer.
use native.Mathlib.Nat.{mod-eq_of_lt, mod-lt}
use native.Mathlib.Decide.{ℕ_discrete, dec_lt}
use stok.Base.{
  ℕ, ◌+◌, ◌-◌, ◌%◌, ◌^◌, ◌<◌, ◌≤◌, ◌≡◌, ◌≢◌, ◌⊎◌, inl, inr, refl, sym, ◌∙◌, ap, true, false, some,
  arith, ◌==◌, branch, length, take, get_elem?,
}
use stok.Base.Bits.{bit_and-mask, pow_pos}
use stok.Base.Int.{zero_ℤ, ◌-ℤ◌, ltb_ℤ, to_i64, eq_ℤ, diff_zero}
use stok.Core.Mpsc.{
  cell, Pc, idle, loaded, matched, claimed, filled, look, System, init, at, update,
}
use stok.Core.Mpsc.Window.{mod_cap}

-- A position that is claimed and not yet committed, by where its producer is.
abbrev pub Owns : Pc → ℕ → Type 0
Owns idle p = ⊥
Owns (loaded v pos) p = ⊥
Owns (matched v pos) p = ⊥
Owns (claimed v pos) p = pos ≡ p
Owns (filled v pos) p = pos ≡ p

pub update_eq : (pc : ℕ → Pc) (i j : ℕ) (p : Pc) → j ≡ i → update pc i p j ≡ p
update_eq pc i j p e = let same : (j == i) ≡ true = ground arith in rw same refl

pub update_ne : (pc : ℕ → Pc) (i j : ℕ) (p : Pc) → j ≢ i → update pc i p j ≡ pc j
update_ne pc i j p ne = let other : (j == i) ≡ false = ground arith in rw other refl

abbrev pub Unshared : (ℕ → Pc) → Type 0
Unshared pc = (i j p : ℕ) → i ≢ j → Owns (pc i) p → Owns (pc j) p → ⊥

-- Producer `i` moves to `p`, which owns nothing that another owns.
pub still-Unshared :
    (pc : ℕ → Pc) (i : ℕ) (p : Pc)
    → Unshared pc
    → ((j q : ℕ) → j ≢ i → Owns p q → Owns (pc j) q → ⊥)
    → Unshared (update pc i p)
still-Unshared pc i p before own a b q ne x y = elim (ℕ_discrete a i) [
  | yes e ↦
      let b_ne : b ≢ i = λ z. ne (e ∙ sym z) in
      own b q b_ne (rw (update_eq pc i a p e) at x) (rw (update_ne pc i b p b_ne) at y)
  | no a_ne ↦ elim (ℕ_discrete b i) [
    | yes e ↦ own a q a_ne (rw (update_eq pc i b p e) at y) (rw (update_ne pc i a p a_ne) at x)
    | no b_ne ↦
        before a b q ne (rw (update_ne pc i a p a_ne) at x) (rw (update_ne pc i b p b_ne) at y)
  ]
]

beq_eq : (a b : ℕ) → (a == b) ≡ true → a ≡ b
beq_eq a b e = ground arith

module _ (k : ℕ) where
  abbrev pub IsSound : System → Pc → Type 0
  IsSound s idle = Unit
  IsSound s (loaded v pos) = pos ≤ s.queue.enqueue_pos
  IsSound s (matched v pos) = (pos ≤ s.queue.enqueue_pos) × (pos < s.queue.dequeue_pos + 2 ^ k)
  IsSound s (claimed v pos) =
      (s.queue.dequeue_pos ≤ pos)
      × (pos < s.queue.enqueue_pos)
      × (s.queue.seq (pos % 2 ^ k) ≡ pos)
      × (get_elem? s.claims pos ≡ some v)
  IsSound s (filled v pos) =
      (s.queue.dequeue_pos ≤ pos)
      × (pos < s.queue.enqueue_pos)
      × (s.queue.seq (pos % 2 ^ k) ≡ pos)
      × (get_elem? s.claims pos ≡ some v)
      × (s.queue.contents (pos % 2 ^ k) ≡ v)

  pub record Inv (s : System) : Type 0 where
    pub width : s.queue.cap ≡ 2 ^ k
    pub ones : s.queue.mask ≡ 2 ^ k - 1
    pub low : s.queue.dequeue_pos ≤ s.queue.enqueue_pos
    pub high : s.queue.enqueue_pos ≤ s.queue.dequeue_pos + 2 ^ k
    pub recorded : length s.claims ≡ s.queue.enqueue_pos
    pub got : s.received ≡ take s.queue.dequeue_pos s.claims
    pub small : (c : ℕ) → c < 2 ^ k → s.queue.seq c ≤ s.queue.enqueue_pos + 2 ^ k
    pub free :
        (p : ℕ)
        → s.queue.enqueue_pos ≤ p
        → p < s.queue.dequeue_pos + 2 ^ k
        → s.queue.seq (p % 2 ^ k) ≡ p
    pub in_use :
        (p : ℕ)
        → s.queue.dequeue_pos ≤ p
        → p < s.queue.enqueue_pos
        → (s.queue.seq (p % 2 ^ k) ≡ p)
          ⊎ ((s.queue.seq (p % 2 ^ k) ≡ p + 1)
              × (get_elem? s.claims p ≡ some (s.queue.contents (p % 2 ^ k))))
    pub sound : (i : ℕ) → IsSound s (s.pc i)
    pub unshared : (i j p : ℕ) → i ≢ j → Owns (s.pc i) p → Owns (s.pc j) p → ⊥
    pub held :
        s.holding ≡ true
        → (s.queue.dequeue_pos < s.queue.enqueue_pos)
          × (s.queue.seq (s.queue.dequeue_pos % 2 ^ k) ≡ s.queue.dequeue_pos + 1)

  pub cell-mod : (s : System) → Inv s → (pos : ℕ) → cell s.queue pos ≡ pos % 2 ^ k
  unfolding cell
  cell-mod s inv pos = rw inv.ones (bit_and-mask pos k)

  pub init-Inv : Inv (init (2 ^ k))
  init-Inv = record {
    width = refl;
    ones = refl;
    low = omega arith;
    high = omega arith;
    recorded = refl;
    got = refl;
    small = λ c lt. (omega arith);
    free = λ p lo hi. (let below : p < 2 ^ k = omega arith in mod-eq_of_lt below);
    in_use = λ p lo hi. absurd (omega arith);
    sound = λ i. tt;
    unshared = λ i j p ne a b. a;
    held = λ e. absurd (cc);
  }

  -- A step that only moves producer `i`, to where it owns nothing.
  pub moved-Inv :
      (s : System) (i : ℕ) (p : Pc)
      → Inv s
      → IsSound s p
      → ((q : ℕ) → Owns p q → ⊥)
      → Inv (at s i p)
  moved-Inv s i p inv ok owns_none = record {
    width = inv.width;
    ones = inv.ones;
    low = inv.low;
    high = inv.high;
    recorded = inv.recorded;
    got = inv.got;
    small = inv.small;
    free = inv.free;
    in_use = inv.in_use;
    sound = λ j. branch (IsSound s) (j == i) (λ _. ok) (λ _. inv.sound j);
    unshared = still-Unshared s.pc i p inv.unshared (λ j q ne a b. absurd (owns_none q a));
    held = inv.held;
  }

  -- A sequence number that is the position's own is seen only while the ring has room for it.
  not_full :
      (s : System)
      → Inv s
      → (pos : ℕ) → 2 ≤ 2 ^ k
      → pos ≤ s.queue.enqueue_pos
      → s.queue.seq (pos % 2 ^ k) ≡ pos
      → pos < s.queue.dequeue_pos + 2 ^ k
  not_full s inv pos wide le seen = elim (dec_lt pos (s.queue.dequeue_pos + 2 ^ k)) [
    | yes lt ↦ lt
    | no ge ↦
        let d = s.queue.dequeue_pos in
        let full : pos ≡ d + 2 ^ k = omega (arith, inv.high) in
        let wrapped : pos % 2 ^ k ≡ d % 2 ^ k = ap (λ (x : ℕ). x % 2 ^ k) full ∙ mod_cap k d in
        let there = ap s.queue.seq wrapped in
        elim (inv.in_use d (omega arith) (omega (arith, inv.high))) [
          | inl x ↦ absurd (omega arith)
          | inr x ↦ absurd (omega (arith, x.0))
        ]
  ]

  pub look-Inv :
      (s : System) (i v pos : ℕ)
      → Inv s
      → 2 ≤ 2 ^ k
      → s.queue.enqueue_pos + 2 ^ k < 2 ^ 63
      → s.pc i ≡ loaded v pos
      → Inv (at s i (look s.queue v pos))
  unfolding look
  look-Inv s i v pos inv wide fits e =
      let known : IsSound s (loaded v pos) = rw e at (inv.sound i) in
      let here = cell-mod s inv pos in
      let seq_fits : s.queue.seq (cell s.queue pos) < 2 ^ 63 =
        omega (arith, ap s.queue.seq here, inv.small (pos % 2 ^ k) (mod-lt pos (pow_pos k))) in
      let diff = to_i64 (s.queue.seq (cell s.queue pos)) -ℤ to_i64 pos in
      branch (λ (p : Pc). Inv (at s i p)) (eq_ℤ diff zero_ℤ)
        (λ same.
          (let own =
              sym (diff_zero (s.queue.seq (cell s.queue pos)) pos seq_fits (omega arith)) ∙ same in
            let seen : s.queue.seq (pos % 2 ^ k) ≡ pos =
              omega (arith, beq_eq (s.queue.seq (cell s.queue pos)) pos own, ap s.queue.seq here) in
            moved-Inv s i (matched v pos) inv (known, not_full s inv pos wide known seen)
              (λ q a. a)))
        (λ _.
          branch (λ (p : Pc). Inv (at s i p)) (ltb_ℤ diff zero_ℤ)
            (λ _. moved-Inv s i idle inv tt (λ q a. a))
            (λ _. moved-Inv s i (loaded v s.queue.enqueue_pos) inv (omega arith) (λ q a. a)))

  -- What a producer that owns a position knows of it.
  pub record Owned (s : System) (p : ℕ) : Type 0 where
    pub from : s.queue.dequeue_pos ≤ p
    pub below : p < s.queue.enqueue_pos
    pub own_seq : s.queue.seq (p % 2 ^ k) ≡ p

  pub owned : (s : System) (pc : Pc) (p : ℕ) → IsSound s pc → Owns pc p → Owned s p
  owned s idle p ok o = absurd o
  owned s (loaded v pos) p ok o = absurd o
  owned s (matched v pos) p ok o = absurd o
  owned s (claimed v pos) p ok o = record {
    from = rw (← o) ok.0;
    below = rw (← o) ok.1;
    own_seq = rw (← o) ok.2;
  }
  owned s (filled v pos) p ok o = record {
    from = rw (← o) ok.0;
    below = rw (← o) ok.1;
    own_seq = rw (← o) ok.2;
  }
