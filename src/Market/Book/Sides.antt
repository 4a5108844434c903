-- ===== src/Market/Book/Sides.antt =====
-- How a write to one ladder of one symbol shows at every other.
use stok.Base.{
  ℕ, ◌<◌, ◌≡◌, refl, ◌∙◌, Bool, true, false, ◌&&◌, not, Option, none, some, List, arith, ◌==◌,
  if◌then◌else◌, Bool-cases, inl, inr, length, get_elem?, set, get_elem?-set, get_elem?-some,
  length-set, Option-cases,
}
use stok.Market.Ladder.{SideLadder, LevelBook, empty_side}
use stok.Market.Book.{on_level, on_side, with_top}

-- The two ladders of a symbol; `true` is the bid side. Past the end stands an empty book.
abbrev of_level : Option LevelBook → Bool → SideLadder
of_level none c = empty_side c
of_level (some l) true = l.bids
of_level (some l) false = l.asks

unfoldable pub ladder : List LevelBook → ℕ → Bool → SideLadder
ladder bs i c = of_level (get_elem? bs i) c

-- Whether a side character names this side.
unfoldable pub is_side : ℕ → Bool → Bool
is_side side true = side == b'B'
is_side side false = not (side == b'B')

get_elem?-on_level :
    (bs : List LevelBook) (i j : ℕ) (f : LevelBook → LevelBook) {l : LevelBook}
    → get_elem? bs i ≡ some l
    → get_elem? (on_level bs j f) i ≡ some (if j == i then f l else l)
unfolding on_level
get_elem?-on_level bs i j f {l} e = elim (Bool-cases (j == i)) [
  | inl t ↦
      let t' : j ≡ i = ground arith in rw t (rw (t', e) (get_elem?-set bs i i (f l) ∙ ground arith))
  | inr t ↦ rw t (elim (Option-cases (get_elem? bs j)) [
    | inl n ↦ rw n e
    | inr (k, n) ↦ rw n (get_elem?-set bs i j (f k) ∙ ground arith)
  ])
]

pub length-on_level :
    (bs : List LevelBook) (j : ℕ) (f : LevelBook → LevelBook) → length (on_level bs j f) ≡ length bs
unfolding on_level
length-on_level bs j f = elim (Option-cases (get_elem? bs j)) [
  | inl n ↦ rw n
  | inr (k, n) ↦ rw n (length-set bs j (f k))
]

-- A change by `f` to the side that a message names, read at any ladder of the board.
pub ladder-on_side :
    (bs : List LevelBook) (j side i : ℕ) (c : Bool) (f : SideLadder → SideLadder)
    → i < length bs
    → ladder (on_level bs j (on_side side f)) i c
      ≡ (if (j == i) && is_side side c then f (ladder bs i c) else ladder bs i c)
unfolding ladder is_side
ladder-on_side bs j side i c f h =
    let (l, e) = get_elem?-some bs i h in
    rw (get_elem?-on_level bs i j (on_side side f) e, e) (named l c)
  where
    named :
        (l : LevelBook) (c : Bool)
        → of_level (some (if j == i then on_side side f l else l)) c
          ≡ (if (j == i) && is_side side c then f (of_level (some l) c) else of_level (some l) c)
    named l true = ground arith
    named l false = ground arith

-- The record of the published top is no part of the ladders.
pub ladder-with_top :
    (bs : List LevelBook) (j i : ℕ) (c : Bool) {l : LevelBook}
    → get_elem? bs j ≡ some l
    → ladder (set bs j (with_top l)) i c ≡ ladder bs i c
unfolding ladder with_top
ladder-with_top bs j i c {l} e =
    rw (get_elem?-set bs i j (with_top l)) (elim (Bool-cases (j == i)) [
      | inl t ↦ let t' : j ≡ i = ground arith in rw t (rw (← t', e) (same c))
      | inr t ↦ rw t
    ])
  where
    same : (c : Bool) → of_level (some (with_top l)) c ≡ of_level (some l) c
    same true = refl
    same false = refl
