-- ===== src/Market/Ladder/Refine.antt =====
-- A ladder refines a table of quantities by price.
use stok.Base.{
  ℕ, ◌+◌, ◌-◌, ◌<◌, ◌^◌, ◌≡◌, refl, sym, ◌∙◌, Bool, true, false, none, some, List, [], ◌∷◌, ◌==◌,
  if◌then◌else◌, arith, Bool-cases, Option-cases, inl, inr,
}
use stok.Market.Ladder.{Level, SideLadder, back, worse, add, remove, best_price, best_qty}
use stok.Market.Ladder.Spec.{raise, lower, add_found-eq-raise}
use stok.Market.Ladder.Sorted.{
  AllBetter, IsSorted, AllFilled, IsValid, worse_irrefl, worse_trans, not_worse, AllBetter-trans,
  remove_back-eq-lower, raise-IsSorted, lower-IsSorted, lower-AllFilled, back-cons, back-AllBetter,
}

-- The quantity that the levels hold at a price.
unfoldable pub level_qty : List Level → ℕ → ℕ
level_qty [] p = 0
level_qty (l ∷ ls) p = let rest = level_qty ls p in if l.price == p then l.qty else rest

abbrev pub qty_at : SideLadder → ℕ → ℕ
qty_at s p = level_qty s.lv p

-- Nothing stands at a price that all levels beat.
level_qty-AllBetter :
    (bid : Bool) (p : ℕ) (ls : List Level) → AllBetter bid p ls → level_qty ls p ≡ 0
unfolding level_qty
level_qty-AllBetter bid p [] h = refl
level_qty-AllBetter bid p (l ∷ ls) h =
    ground (arith, worse_irrefl bid p, level_qty-AllBetter bid p ls h.1)

level_qty-raise :
    (bid : Bool) (price qty p : ℕ) (ls : List Level)
    → IsSorted bid ls
    → level_qty ls price + qty < 2 ^ 64
    → level_qty (raise bid price qty ls) p
      ≡ (if p == price then level_qty ls price + qty else level_qty ls p)
unfolding level_qty raise
level_qty-raise bid price qty p [] s h = ground arith
level_qty-raise bid price qty p (l ∷ ls) s h = ground (
  arith,
  level_qty-raise bid price qty p ls s.1,
  worse_irrefl bid price,
  not_worse bid l.price price,
  AllBetter-trans bid price l.price ls,
  level_qty-AllBetter bid price ls,
)

level_qty-lower :
    (bid : Bool) (price qty p : ℕ) (ls : List Level)
    → IsSorted bid ls
    → level_qty (lower bid price qty ls) p
      ≡ (if p == price then level_qty ls price - qty else level_qty ls p)
unfolding level_qty lower
level_qty-lower bid price qty p [] s = ground arith
level_qty-lower bid price qty p (l ∷ ls) s = ground (
  arith,
  level_qty-lower bid price qty p ls s.1,
  worse_irrefl bid price,
  not_worse bid l.price price,
  AllBetter-trans bid price l.price ls,
  level_qty-AllBetter bid price ls,
)

raise-AllFilled :
    (bid : Bool) (price qty : ℕ) (ls : List Level)
    → 0 < qty
    → level_qty ls price + qty < 2 ^ 64
    → AllFilled ls
    → AllFilled (raise bid price qty ls)
unfolding level_qty raise
raise-AllFilled bid price qty [] q h f = (q, omega arith, tt)
raise-AllFilled bid price qty (l ∷ ls) q h f =
    ground (arith, raise-AllFilled bid price qty ls q, worse_irrefl bid price)

-- `add` keeps the invariant, and raises exactly the quantity at its price, if that fits a uint64_t.
pub add_refines :
    {s : SideLadder} (price qty : ℕ)
    → IsValid s
    → qty_at s price + qty < 2 ^ 64
    → IsValid (add s price qty)
      × ((p : ℕ)
          → qty_at (add s price qty) p ≡ (if p == price then qty_at s price + qty else qty_at s p))
unfolding add
add_refines {s} price qty v h = elim (Bool-cases (qty == 0)) [
  | inl z ↦ rw z (v, λ p. ground arith)
  | inr z ↦ rw z (
    rw (add_found-eq-raise s.bid price qty s.lv) record {
      sorted = raise-IsSorted s.bid price qty s.lv v.sorted;
      filled = raise-AllFilled s.bid price qty s.lv (ground arith) h v.filled;
    },
    λ p.
        rw (add_found-eq-raise s.bid price qty s.lv)
          (level_qty-raise s.bid price qty p s.lv v.sorted h),
  )
]

-- `remove` keeps the invariant, and lowers exactly the quantity at its price, to no less than 0.
pub remove_refines :
    {s : SideLadder} (price qty : ℕ)
    → IsValid s
    → IsValid (remove s price qty)
      × ((p : ℕ)
          → qty_at (remove s price qty) p
            ≡ (if p == price then qty_at s price - qty else qty_at s p))
unfolding remove
remove_refines {s} price qty v = elim (Bool-cases (qty == 0)) [
  | inl z ↦ rw z (v, λ p. ground arith)
  | inr z ↦
      let e = remove_back-eq-lower s.bid price qty s.lv v.sorted in
      rw z (
        rw e record {
          sorted = lower-IsSorted s.bid price qty s.lv v.sorted;
          filled = lower-AllFilled s.bid price qty s.lv v.filled;
        },
        λ p. rw e (level_qty-lower s.bid price qty p s.lv v.sorted),
      )
]

worse_asym : (bid : Bool) (a b : ℕ) → worse bid a b ≡ true → worse bid b a ≡ false
worse_asym bid a b h = elim (Bool-cases (worse bid b a)) [
  | inl t ↦ ground (arith, worse_trans bid a b a h t, worse_irrefl bid a)
  | inr f ↦ f
]

skip_level :
    (k : Level) (ls : List Level) (p : ℕ)
    → (k.price == p) ≡ false
    → level_qty (k ∷ ls) p ≡ level_qty ls p
unfolding level_qty
skip_level k ls p e = rw e

back-eq-none : (ls : List Level) → back ls ≡ none → ls ≡ []
unfolding back
back-eq-none [] e = refl
back-eq-none (k ∷ []) e = cc
back-eq-none (k ∷ m ∷ ms) e = cc (back-eq-none (m ∷ ms) (sym (back-cons k m ms) ∙ e))

top_levels :
    (bid : Bool) (ls : List Level)
    → IsSorted bid ls
    → AllFilled ls
    → {l : Level} → back ls ≡ some l
    → (level_qty ls l.price ≡ l.qty)
      × (0 < l.qty)
      × ((p : ℕ) → 0 < level_qty ls p → worse bid l.price p ≡ false)
unfolding level_qty
top_levels bid [] s f e = unfold back in cc
top_levels bid (k ∷ []) s f {l} e =
    let e' : k ≡ l = unfold back in ground arith in
    (rw e' (ground arith), rw (← e') f.0, λ p h. rw (← e') (ground (arith, worse_irrefl bid p)))
top_levels bid (k ∷ m ∷ ms) s f {l} e =
    let e' : back (m ∷ ms) ≡ some l = sym (back-cons k m ms) ∙ e in
    let (q, pos, best) = top_levels bid (m ∷ ms) s.1 f.2 e' in
    let w : worse bid k.price l.price ≡ true = back-AllBetter bid k.price (m ∷ ms) s.0 e' in
    (
      ground (arith, worse_irrefl bid k.price),
      pos,
      λ p h. elim (Bool-cases (k.price == p)) [
        | inl t ↦ worse_asym bid p l.price (let t' : k.price ≡ p = ground arith in rw (← t') w)
        | inr t ↦ best p (rw (← skip_level k (m ∷ ms) p t) h)
      ],
    )

-- The top of a valid ladder: `best_qty` is the quantity at `best_price`, and if anything stands at a
-- price, the top is not empty and no worse than it.
pub best_lem :
    {s : SideLadder}
    → IsValid s
    → (best_qty s ≡ qty_at s (best_price s))
      × ((p : ℕ) → 0 < qty_at s p → (0 < best_qty s) × (worse s.bid (best_price s) p ≡ false))
unfolding best_price best_qty
best_lem {s} v = elim (Option-cases (back s.lv)) [
  | inl e ↦
      let n : s.lv ≡ [] = back-eq-none s.lv e in
      rw (e, n) (unfold level_qty in (refl, λ p h. absurd (omega arith)))
  | inr (l, e) ↦
      let (q, pos, best) = top_levels s.bid s.lv v.sorted v.filled e in
      rw e (sym q, λ p h. (pos, best p h))
]

pub bid-add : (s : SideLadder) (price qty : ℕ) → (add s price qty).bid ≡ s.bid
unfolding add
bid-add s price qty = ground arith

pub bid-remove : (s : SideLadder) (price qty : ℕ) → (remove s price qty).bid ≡ s.bid
unfolding remove
bid-remove s price qty = ground arith
