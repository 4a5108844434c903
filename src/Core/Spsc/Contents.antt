-- ===== src/Core/Spsc/Contents.antt =====
-- What each member does to the sequence of elements that the ring holds.
use native.Mathlib.Nat.{mod-lt}
use stok.Base.{
  ℕ, suc, ◌%◌, ◌^◌, ◌≤◌, ◌<◌, ◌≡◌, ◌≢◌, refl, Option, some, [], ◌∷◌, ◌++◌, arith, ltb, Bool-cases,
  inl, inr, get_or, set, length-replicate, length-set,
}
use stok.Core.Spsc.{
  SpscQueue, add_size, sub_size, next_pow2, of_cap, built, make, fill, publish, pop,
}
use stok.Core.Spsc.Pow2.{next_pow2-IsPow2Above}
use stok.Core.Spsc.Window.{stored_snoc, stored-set}
use stok.Core.Spsc.Valid.{
  IsValid, count, head_slot, contents, cap_pos, cap_small, next_slot, tail_slot, same_shape,
}

module _ {ℓ} {A : Type ℓ} (d : A) where
  pub contents-publish :
      {q : SpscQueue A}
      → IsValid q
      → sub_size q.tail q.cached_head < q.cap
      → contents d (publish q) ≡ contents d q ++ (get_or q.slots (q.tail % q.cap) d ∷ [])
  unfolding publish
  contents-publish {q} v free =
      let more : sub_size (add_size q.tail 1) q.head ≡ suc (count q) =
        omega (arith, v.head_in, v.tail_in, v.lag_head, cap_small v) in
      rw (more, tail_slot v)
        (stored_snoc d q.slots q.cap (head_slot q) (count q) (mod-lt q.head (cap_pos v)))

  pub contents-pop :
      {q : SpscQueue A}
      → IsValid q
      → q.head ≢ q.cached_tail
      → contents d q ≡ get_or q.slots (head_slot q) d ∷ contents d (pop q)
  unfolding pop
  contents-pop {q} v more =
      let fewer : count q ≡ suc (sub_size q.tail (add_size q.head 1)) =
        omega (arith, v.head_in, v.tail_in, v.cached_tail_in, v.lag_tail) in
      rw (fewer, next_slot v q.head)

  pub contents-fill :
      {q : SpscQueue A}
      → IsValid q
      → count q < q.cap
      → (x : A) → contents d (fill q (q.tail % q.cap) x) ≡ contents d q
  unfolding fill
  contents-fill {q} v free x =
      stored-set d q.slots q.cap (head_slot q) (count q) (q.tail % q.cap) x
        (mod-lt q.head (cap_pos v)) free (tail_slot v)

  pub fill-IsValid : {q : SpscQueue A} → IsValid q → (i : ℕ) (x : A) → IsValid (fill q i x)
  unfolding fill
  fill-IsValid {q} v i x =
      same_shape v (record q { slots = set q.slots i x }) refl refl (length-set q.slots i x)
        (v.head_in, v.tail_in, v.cached_tail_in, v.cached_head_in) v.lag_head v.fits v.lag_tail

  -- What the constructor returns.
  pub record Made (capacity : ℕ) (r : Option (SpscQueue A)) : Type ℓ where
    pub queue : SpscQueue A
    pub returns : r ≡ some queue
    pub valid : IsValid queue
    pub large : capacity ≤ queue.cap
    pub empty : contents d queue ≡ []

  of_cap-IsValid : (k : ℕ) → k ≤ 63 → IsValid (of_cap d (2 ^ k))
  of_cap-IsValid k h = record {
    k = k;
    k_le = h;
    cap_is = refl;
    mask_is = refl;
    room = length-replicate (2 ^ k) d;
    head_in = omega arith;
    tail_in = omega arith;
    cached_tail_in = omega arith;
    cached_head_in = omega arith;
    lag_head = omega arith;
    fits = omega arith;
    lag_tail = omega arith;
  }

  -- The constructor returns a valid empty ring of at least the capacity asked for, up to 2^63.
  pub make-Made : (capacity : ℕ) → capacity ≤ 2 ^ 63 → Made capacity (make d capacity)
  unfolding make
  make-Made capacity h = elim (Bool-cases (ltb capacity 2)) [
    | inl small ↦ rw (small, make) (go 2 (omega arith) (ground arith) (omega arith))
    | inr big ↦ rw (big, make) (go capacity (ground arith) (omega arith) h)
  ]
    where
      go : (c : ℕ) → 1 ≤ c → capacity ≤ c → c ≤ 2 ^ 63 → Made capacity (built d (next_pow2 c))
      go c lo le hi =
          let p = next_pow2-IsPow2Above c lo hi in
          rw p.returns record {
            queue = of_cap d (2 ^ p.exponent);
            returns = refl;
            valid = of_cap-IsValid p.exponent p.bounded;
            large = omega (arith, p.above);
            empty = refl;
          }
