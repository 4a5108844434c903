-- ===== src/Market/Book/Handlers.antt =====
-- Every order message keeps the ladders in agreement with the resting orders.
use stok.Base.{
  ℕ, ◌+◌, ◌-◌, ◌≤◌, ◌≡◌, ◌≢◌, refl, Bool, true, false, ◌&&◌, not, some, arith, ltb, leb, ◌==◌,
  if◌then◌else◌, Bool-cases, inl, inr, length,
}
use stok.Core.Flat.{empty_key}
use stok.Market.Ladder.{SideLadder, remove}
use stok.Market.Orders.{Order, OrderTable}
use stok.Market.Book.{
  ItchBook, invalid, quoted, on_level, on_side, publish_top, side_remove, reduce,
}
use stok.Market.Book.Sides.{ladder, is_side, ladder-on_side, length-on_level}
use stok.Market.Book.Agreement.{
  Agrees, Alike, Alike-Agrees, publish_top-Alike, Moves, lowered-Agrees, weight, matches,
  all_shares,
}

module _ (M : OrderTable) where
  open M use {
    find, assign, erase, total, total-assign_new, total-assign_old, total-erase, find-erase,
  }

  -- A change to one side, and none where the symbol is not quoted.
  pub side-Moves :
      (b : ItchBook M) (j side : ℕ) (f : SideLadder → SideLadder)
      → quoted M b j ≡ true
      → Moves M b (record b { books = on_level b.books j (on_side side f) }) j side f
  side-Moves b j side f q = record {
    same_length = length-on_level b.books j (on_side side f);
    moved = λ i c h. rw q (ladder-on_side b.books j side i c f h);
    same_quoted = λ i. unfold quoted in refl;
    same_locate = refl;
  }

  still-Moves :
      (b : ItchBook M) (j side : ℕ) (f : SideLadder → SideLadder)
      → quoted M b j ≡ false
      → Moves M b b j side f
  still-Moves b j side f q = record {
    same_length = refl;
    moved = λ i c h. rw q;
    same_quoted = λ i. refl;
    same_locate = refl;
  }

  -- The invalid symbol is past every book.
  invalid-Moves :
      (b : ItchBook M) (j side : ℕ) (f : SideLadder → SideLadder)
      → length b.books ≤ invalid
      → (j == invalid) ≡ true
      → Moves M b b j side f
  invalid-Moves b j side f small e = record {
    same_length = refl;
    moved = λ i c h. let other : (j == i) ≡ false = ground arith in rw other (no_move i c);
    same_quoted = λ i. refl;
    same_locate = refl;
  }
    where
      no_move :
          (i : ℕ) (c : Bool)
          → ladder b.books i c ≡ (
              if quoted M b j && false && is_side side c
              then f (ladder b.books i c)
              else ladder b.books i c)
      no_move i c = ground arith

  -- What the table holds after shares left the order that stands at `ref`.
  module _ (b : ItchBook M) (o : Order) (ref shares : ℕ) (real : ref ≢ empty_key)
      (here : find b.orders ref ≡ some o) where
    abbrev taken : ℕ
    taken = if ltb shares o.shares then shares else o.shares

    abbrev left : M.Table
    left =
        if leb o.shares shares
        then erase b.orders ref
        else assign b.orders ref (record o { shares = o.shares - shares })

    left-weight :
        (i : ℕ) (c : Bool) (p : ℕ)
        → total (weight b.locate_to_sym i c p) left
            + (if matches b.locate_to_sym i c p o then taken else 0)
          ≡ total (weight b.locate_to_sym i c p) b.orders
    unfolding weight
    left-weight i c p = ground (
      arith,
      total-erase (weight b.locate_to_sym i c p) b.orders ref o real here,
      total-assign_old (weight b.locate_to_sym i c p) b.orders ref
          (record o { shares = o.shares - shares }) o real here,
    )

    left-shares : total all_shares left ≤ total all_shares b.orders
    left-shares = ground (
      arith,
      total-erase all_shares b.orders ref o real here,
      total-assign_old all_shares b.orders ref (record o { shares = o.shares - shares }) o real
          here,
    )

  pub with_orders-Alike :
      {b b' : ItchBook M} (t : M.Table)
      → Alike M b b'
      → Alike M (record b { orders = t }) (record b' { orders = t })
  with_orders-Alike t a = record {
    same_length = a.same_length;
    same_ladder = a.same_ladder;
    same_quoted = λ i. unfold quoted in (unfold quoted in a.same_quoted i);
    same_orders = refl;
    same_locate = a.same_locate;
  }

  -- The orders change after the ladders, which is as if they changed with them.
  pub with_orders-Moves :
      {b b' : ItchBook M} {j side : ℕ} {f : SideLadder → SideLadder} (t : M.Table)
      → Moves M b b' j side f
      → Moves M b (record b' { orders = t }) j side f
  with_orders-Moves t m = record {
    same_length = m.same_length;
    moved = m.moved;
    same_quoted = λ i. unfold quoted in (unfold quoted in m.same_quoted i);
    same_locate = m.same_locate;
  }

  -- A symbol that is not to be quoted takes no part.
  pub unquoted-Moves :
      (b : ItchBook M) (j side : ℕ) (f : SideLadder → SideLadder)
      → length b.books ≤ invalid
      → (not (j == invalid) && quoted M b j) ≡ false
      → Moves M b b j side f
  unquoted-Moves b j side f small n = elim (Bool-cases (j == invalid)) [
    | inl e ↦ invalid-Moves b j side f small e
    | inr e ↦ still-Moves b j side f (ground arith)
  ]

  pub reduce-Agrees :
      (b : ItchBook M) (o : Order) (ref shares ts : ℕ)
      → ref ≢ empty_key
      → find b.orders ref ≡ some o
      → Agrees M b
      → Agrees M (reduce M b o ref shares ts)
  unfolding reduce side_remove
  reduce-Agrees b o ref shares ts real here v =
      elim (Bool-cases (not (j == invalid) && quoted M b j)) [
        | inl q ↦ rw q (
            rw published.same_orders (
              Alike-Agrees M (with_orders-Alike rest published)
                (lower side (with_orders-Moves rest (side-Moves b j o.side f (ground arith))))))
        | inr off ↦
            rw off (lower b (with_orders-Moves rest (unquoted-Moves b j o.side f v.small off)))
      ]
    where
      j : ℕ
      j = b.locate_to_sym o.locate

      n : ℕ
      n = taken b o ref shares real here

      f : SideLadder → SideLadder
      f = λ s. remove s o.price n

      rest : M.Table
      rest = left b o ref shares real here

      side : ItchBook M
      side = side_remove M b j o.side o.price n

      published : Alike M side (publish_top M side j ts)
      published = publish_top-Alike M side j ts

      lower :
          (b' : ItchBook M)
          → Moves M b (record b' { orders = rest }) j o.side f
          → Agrees M (record b' { orders = rest })
      lower b' m =
          lowered-Agrees M b (record b' { orders = rest }) o n m
            (left-weight b o ref shares real here) (left-shares b o ref shares real here) v
