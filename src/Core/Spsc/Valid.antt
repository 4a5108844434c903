-- ===== src/Core/Spsc/Valid.antt =====
-- The representation invariant of the ring, with indices that wrap round at 2^64.
use Prim.Native.Nat.{bit_and}
use native.Mathlib.Nat.{mod-add-mod, pow-le-pow_right}
use stok.Base.{
  ℕ, ◌+◌, ◌-◌, ◌%◌, ◌^◌, ◌≤◌, ◌<◌, ◌≡◌, refl, sym, ap, ◌∙◌, Option, none, some, List, arith, leb,
  leb→le, ◌==◌, ◌≢◌, Bool-cases, inl, inr, length,
}
use stok.Base.Bits.{bit_and-mask, mod-mod_pow, pow_pos}
use stok.Core.Spsc.{SpscQueue, add_size, sub_size, try_claim, publish, front, pop}
use stok.Core.Spsc.Window.{stored}

module _ {ℓ} {A : Type ℓ} where
  pub record IsValid (q : SpscQueue A) : Type ℓ where
    pub k : ℕ
    pub k_le : k ≤ 63
    pub cap_is : q.cap ≡ 2 ^ k
    pub mask_is : q.mask ≡ 2 ^ k - 1
    pub room : length q.slots ≡ q.cap
    pub head_in : q.head < 2 ^ 64
    pub tail_in : q.tail < 2 ^ 64
    pub cached_tail_in : q.cached_tail < 2 ^ 64
    pub cached_head_in : q.cached_head < 2 ^ 64
    -- the producer knows of no pop that did not happen, and counts at most `cap` elements
    pub lag_head : sub_size q.tail q.head ≤ sub_size q.tail q.cached_head
    pub fits : sub_size q.tail q.cached_head ≤ q.cap
    -- the consumer knows of no push that did not happen
    pub lag_tail : sub_size q.cached_tail q.head ≤ sub_size q.tail q.head

  -- The number of elements published and not popped.
  abbrev pub count : SpscQueue A → ℕ
  count q = sub_size q.tail q.head

  abbrev pub head_slot : SpscQueue A → ℕ
  head_slot q = q.head % q.cap

  abbrev pub contents : A → SpscQueue A → List A
  contents d q = stored d q.slots q.cap (head_slot q) (count q)

  pub cap_pos : {q : SpscQueue A} → IsValid q → 0 < q.cap
  cap_pos v = rw v.cap_is (pow_pos v.k)

  pub cap_small : {q : SpscQueue A} → IsValid q → q.cap ≤ 2 ^ 63
  cap_small v = rw v.cap_is (pow-le-pow_right (omega arith) v.k_le)

  pub mask-slot : {q : SpscQueue A} → IsValid q → (i : ℕ) → bit_and i q.mask ≡ i % q.cap
  mask-slot v i = rw (v.mask_is, v.cap_is) (bit_and-mask i v.k)

  -- One step of an index is one step round the slots, also where the index wraps.
  pub next_slot :
      {q : SpscQueue A} → IsValid q → (i : ℕ) → add_size i 1 % q.cap ≡ (i % q.cap + 1) % q.cap
  next_slot v i =
      rw v.cap_is
        (mod-mod_pow (i + 1) v.k 64 (omega (arith, v.k_le)) ∙ sym (mod-add-mod i (2 ^ v.k) 1))

  -- The producer's slot is `count` places after the consumer's.
  pub tail_slot : {q : SpscQueue A} → IsValid q → q.tail % q.cap ≡ (head_slot q + count q) % q.cap
  tail_slot {q} v =
      let e : (q.head + count q) % 2 ^ 64 ≡ q.tail = omega (arith, v.head_in, v.tail_in) in
      let s : (q.head + count q) % 2 ^ v.k ≡ q.tail % 2 ^ v.k =
        sym (mod-mod_pow (q.head + count q) v.k 64 (omega (arith, v.k_le)))
        ∙ ap (λ x. x % 2 ^ v.k) e in
      rw v.cap_is (sym s ∙ sym (mod-add-mod q.head (2 ^ v.k) (count q)))

  -- The fields that say nothing of the indices.
  pub same_shape :
      {q : SpscQueue A} (v : IsValid q) (q' : SpscQueue A)
      → q'.cap ≡ q.cap
      → q'.mask ≡ q.mask
      → length q'.slots ≡ length q.slots
      → (q'.head < 2 ^ 64)
        × (q'.tail < 2 ^ 64)
        × (q'.cached_tail < 2 ^ 64)
        × (q'.cached_head < 2 ^ 64)
      → sub_size q'.tail q'.head ≤ sub_size q'.tail q'.cached_head
      → sub_size q'.tail q'.cached_head ≤ q.cap
      → sub_size q'.cached_tail q'.head ≤ sub_size q'.tail q'.head
      → IsValid q'
  same_shape v q' c m s i lh f lt = record {
    k = v.k;
    k_le = v.k_le;
    cap_is = c ∙ v.cap_is;
    mask_is = m ∙ v.mask_is;
    room = s ∙ v.room ∙ sym c;
    head_in = i.0;
    tail_in = i.1;
    cached_tail_in = i.2;
    cached_head_in = i.3;
    lag_head = lh;
    fits = rw c f;
    lag_tail = lt;
  }

  -- What `try_claim` promises: the slot after the last element, and only if one is free.
  abbrev pub Claims : SpscQueue A → Option ℕ × SpscQueue A → Type ℓ
  Claims q (none, q') = IsValid q' × (q' ≡ record q { cached_head = q.head }) × (count q ≡ q.cap)
  Claims q (some i, q') =
      IsValid q'
      × (q' ≡ record q { cached_head = q'.cached_head })
      × (i ≡ q.tail % q.cap)
      × (sub_size q'.tail q'.cached_head < q.cap)

  pub try_claim-Claims : (q : SpscQueue A) → IsValid q → Claims q (try_claim q)
  unfolding try_claim
  try_claim-Claims q v = elim (Bool-cases (leb q.cap (sub_size q.tail q.cached_head))) [
    | inr free ↦ rw free (v, refl, mask-slot v q.tail, ground arith)
    | inl stale ↦ elim (Bool-cases (leb q.cap (sub_size q.tail q.head))) [
      | inr free ↦ rw (stale, free) (refreshed, refl, mask-slot v q.tail, ground arith)
      | inl full ↦
          rw (stale, full) (refreshed, refl, omega (arith, v.fits, v.lag_head, leb→le _ _ full))
    ]
  ]
    where
      refreshed : IsValid (record q { cached_head = q.head })
      refreshed =
          same_shape v (record q { cached_head = q.head }) refl refl refl
            (v.head_in, v.tail_in, v.cached_tail_in, v.head_in) (omega arith)
            (omega (arith, v.fits, v.lag_head)) v.lag_tail

  -- What `front` promises: the slot of the oldest element, and none only if there is none.
  abbrev pub Fronts : SpscQueue A → Option ℕ × SpscQueue A → Type ℓ
  Fronts q (none, q') = IsValid q' × (q' ≡ record q { cached_tail = q.tail }) × (count q ≡ 0)
  Fronts q (some i, q') =
      IsValid q'
      × (q' ≡ record q { cached_tail = q'.cached_tail })
      × (i ≡ head_slot q)
      × (q'.head ≢ q'.cached_tail)

  pub front-Fronts : (q : SpscQueue A) → IsValid q → Fronts q (front q)
  unfolding front
  front-Fronts q v = elim (Bool-cases (q.head == q.cached_tail)) [
    | inr more ↦ rw more (v, refl, mask-slot v q.head, ground arith)
    | inl stale ↦ elim (Bool-cases (q.head == q.tail)) [
      | inr more ↦ rw (stale, more) (refreshed, refl, mask-slot v q.head, ground arith)
      | inl none_left ↦ rw (stale, none_left) (refreshed, refl, ground arith)
    ]
  ]
    where
      refreshed : IsValid (record q { cached_tail = q.tail })
      refreshed =
          same_shape v (record q { cached_tail = q.tail }) refl refl refl
            (v.head_in, v.tail_in, v.tail_in, v.cached_head_in) v.lag_head v.fits (omega arith)

  pub publish-IsValid :
      {q : SpscQueue A} → IsValid q → sub_size q.tail q.cached_head < q.cap → IsValid (publish q)
  unfolding publish
  publish-IsValid {q} v free =
      same_shape v (record q { tail = add_size q.tail 1 }) refl refl refl
        (v.head_in, omega arith, v.cached_tail_in, v.cached_head_in)
        (omega (arith, v.head_in, v.tail_in, v.cached_head_in, v.lag_head, v.fits, cap_small v))
        (omega (arith, v.head_in, v.tail_in, v.cached_head_in, v.lag_head, v.fits, cap_small v))
        (omega (
          arith,
          v.head_in,
          v.tail_in,
          v.cached_head_in,
          v.cached_tail_in,
          v.lag_head,
          v.lag_tail,
          cap_small v,
        ))

  pub pop-IsValid : {q : SpscQueue A} → IsValid q → q.head ≢ q.cached_tail → IsValid (pop q)
  unfolding pop
  pop-IsValid {q} v more =
      same_shape v (record q { head = add_size q.head 1 }) refl refl refl
        (omega arith, v.tail_in, v.cached_tail_in, v.cached_head_in)
        (omega (
          arith,
          v.head_in,
          v.tail_in,
          v.cached_head_in,
          v.cached_tail_in,
          v.lag_head,
          v.lag_tail,
          v.fits,
          cap_small v,
        ))
        v.fits
        (omega (
          arith,
          v.head_in,
          v.tail_in,
          v.cached_head_in,
          v.cached_tail_in,
          v.lag_head,
          v.lag_tail,
          v.fits,
          cap_small v,
        ))
