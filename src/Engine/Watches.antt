-- ===== src/Engine/Watches.antt =====
-- The watched stories of src/engine/engine.cpp and engine.hpp: a pool of slots, the slots in use and
-- the free ones, and the index from a symbol to its slot. The index is a `FlatMap64`, taken as the
-- function that such a map holds; its keys are 32-bit symbols, so that none is the map's marker. A
-- vector has its back at the end of the list.
pub mod Vectors
pub mod Valid
pub mod Evict
pub mod Cooldown
pub mod Reference
mod Tests
use stok.Base.{
  ℕ, zero, suc, ◌+◌, ◌-◌, ◌*◌, ◌^◌, Bool, true, false, Option, none, some, List, [], ◌∷◌, ◌++◌, ltb,
  ◌==◌, if◌then◌else◌, length, set, get_or, replicate,
}
use stok.Base.Int.{ℤ, pos}
use stok.Util.Ascii.{Bytes}
use stok.Engine.Double.{Double}
use stok.Engine.Signal.{Tier, untiered, watch, alert, high, halt, mover, info, Catalyst, uncaused}
use stok.Engine.Paper.{sub_word, ns_per_sec}

-- The map that `watch_by_sym_` and its kin stand for.
abbrev pub Map : Type 0 → Type 0
Map V = ℕ → Option V

abbrev pub with_key : {V : Type 0} → Map V → ℕ → V → Map V
with_key f k v q = if q == k then some v else f q

abbrev pub without_key : {V : Type 0} → Map V → ℕ → Map V
without_key f k q = if q == k then none else f q

abbrev pub back : List ℕ → ℕ
back [] = 0
back (x ∷ []) = x
back (x ∷ y ∷ xs) = back (y ∷ xs)

abbrev pub pop_back : List ℕ → List ℕ
pop_back [] = []
pop_back (x ∷ []) = []
pop_back (x ∷ y ∷ xs) = x ∷ pop_back (y ∷ xs)

-- `for (i = watch_.size(); i-- > 0;) free_.push_back(i);`
abbrev pub all_slots : ℕ → List ℕ
all_slots zero = []
all_slots (suc n) = n ∷ all_slots n

module _ (D : Double) where
  pub record Watch : Type 0 where
    pub active : Bool
    pub tier : Tier
    pub sym : ℕ
    pub source : ℕ
    pub score : ℤ
    pub catalyst : Catalyst
    pub score_flags : ℕ
    pub dilution_flags : ℕ
    pub news_id : ℕ
    pub t_news : ℕ
    pub published_ns : ℤ
    pub ref_px : ℤ
    pub vol_at_news : ℕ
    pub notional_at_news : ℕ
    pub max_move : D.F
    pub min_move : D.F
    pub amount_usd : D.F
    pub materiality : D.F
    pub market_cap : D.F
    pub horizons_done : ℕ
    pub last_emit_ns : List ℕ
    pub why : Bytes
    pub title : Bytes
    pub link : Bytes

  -- `Watch{}`
  unfoldable pub no_watch : Watch
  no_watch =
      let nought = D.of_int (pos 0) in
      record {
        active = false;
        tier = untiered;
        sym = 0;
        source = 0;
        score = pos 0;
        catalyst = uncaused;
        score_flags = 0;
        dilution_flags = 0;
        news_id = 0;
        t_news = 0;
        published_ns = pos 0;
        ref_px = pos 0;
        vol_at_news = 0;
        notional_at_news = 0;
        max_move = nought;
        min_move = nought;
        amount_usd = nought;
        materiality = nought;
        market_cap = nought;
        horizons_done = 0;
        last_emit_ns = replicate 8 0;
        why = [];
        title = [];
        link = [];
      }

  pub record Pool : Type 0 where
    pub slots : List Watch
    pub active : List ℕ
    pub free : List ℕ
    pub by_sym : Map ℕ

  abbrev pub slot : Pool → ℕ → Watch
  slot p i = get_or p.slots i no_watch

  -- The constructor's part, with the 1024 of the source as `n`.
  unfoldable pub make : ℕ → Pool
  unfolding no_watch
  make n = record {
    slots = replicate n no_watch;
    active = [];
    free = all_slots n;
    by_sym = λ s. none;
  }

  -- A pointer to a watch is the index of its slot.
  unfoldable pub find_watch : Pool → ℕ → Option ℕ
  find_watch p sym = p.by_sym sym

  unfoldable pub deactivate_watch : Pool → ℕ → Pool
  unfolding no_watch
  deactivate_watch p k =
      let idx = get_or p.active k 0 in
      let w = slot p idx in
      record {
        slots = set p.slots idx (record w { active = false });
        active = pop_back (set p.active k (back p.active));
        free = p.free ++ (idx ∷ []);
        by_sym = without_key p.by_sym w.sym;
      }

  -- The loop that looks for the oldest story, over `n` more positions from `k`.
  unfoldable pub oldest_from : Pool → ℕ → ℕ → ℕ → ℕ
  unfolding no_watch
  oldest_from p zero k oldest = oldest
  oldest_from p (suc n) k oldest =
      let t = λ (i : ℕ). (slot p (get_or p.active i 0)).t_news in
      oldest_from p n (k + 1) (if ltb (t k) (t oldest) then k else oldest)

  unfoldable pub make_room : Pool → Pool
  unfolding deactivate_watch oldest_from
  make_room p = elim p.free [
    | [] ↦ deactivate_watch p (oldest_from p (length p.active - 1) 1 0)
    | _ ∷ _ ↦ p
  ]

  unfoldable pub take_slot : Pool → ℕ → Pool × ℕ
  unfolding no_watch
  take_slot p sym =
      let idx = back p.free in
      (
        record {
          slots = set p.slots idx (record no_watch { active = true; sym = sym });
          active = p.active ++ (idx ∷ []);
          free = pop_back p.free;
          by_sym = with_key p.by_sym sym idx;
        },
        idx,
      )

  unfoldable pub activate_watch : Pool → ℕ → Pool × ℕ
  unfolding make_room take_slot
  activate_watch p sym = take_slot (make_room p) sym

-- `Tier` as the number of its constructor.
unfoldable pub tier_number : Tier → ℕ
tier_number untiered = 0
tier_number watch = 1
tier_number alert = 2
tier_number high = 3
tier_number halt = 4
tier_number mover = 5
tier_number info = 6

-- `sym << 3 | tier`, below 2^35 for a 32-bit symbol and a tier below 8.
unfoldable pub tier_key : ℕ → Tier → ℕ
unfolding tier_number
tier_key sym t = sym * 8 + tier_number t

-- What `cooled_down` does with the time that it finds; a difference of two words wraps.
unfoldable pub judge : ℕ → Map ℕ → ℕ → ℕ → Option ℕ → Map ℕ × Bool
judge cooldown_s last key now none = (with_key last key now, true)
judge cooldown_s last key now (some before) =
    if ltb (sub_word now before) (cooldown_s * ns_per_sec)
    then (last, false)
    else (with_key last key now, true)

-- `last` is `last_tier_ns_`.
unfoldable pub cooled_down : ℕ → Map ℕ → ℕ → Tier → ℕ → Map ℕ × Bool
unfolding judge tier_key
cooled_down cooldown_s last sym t now =
    let key = tier_key sym t in judge cooldown_s last key now (last key)
