-- ===== src/Market/Book.antt =====
-- `ItchBook` of src/market/itch_book.hpp and itch_book.cpp, over an order table. `waker_->notify()`
-- wakes the engine thread and changes no state of the book, so it is left out; `find_key` is the
-- lookup of the symbol table, and an index past `books_`, which the source never forms for a symbol
-- of the board, changes nothing.
pub mod Sides
pub mod Agreement
pub mod Handlers
pub mod Messages
pub mod Feed
pub mod History
mod Flat
mod Tests
use stok.Base.{
  ℕ, zero, suc, ◌+◌, ◌-◌, ◌%◌, ◌^◌, Bool, true, false, ◌||◌, ◌&&◌, not, Option, none, some, List,
  [], ◌∷◌, ltb, leb, ◌==◌, if◌then◌else◌, length, get_elem?, set, get_or, replicate,
}
use stok.Base.Int.{ℤ, pos, ◌+ℤ◌}
use stok.Core.Spsc
use stok.Core.Spsc.{SpscQueue}
use stok.Market.Board
use stok.Market.Board.{MarketBoard, to_i32, to_i64, reason_prefix}
use stok.Market.Ladder.{SideLadder, LevelBook, add, remove, best_price, best_qty, add64, empty_book}
use stok.Market.Orders.{Order, OrderTable}

-- `SymbolTable::kInvalid`
abbrev pub invalid : ℕ
invalid = 2 ^ 32 - 1

pub data EventType : Type 0 where
  trading_action system_event : EventType

-- `MarketEvent` of src/engine/events.hpp.
pub record MarketEvent : Type 0 where
  pub type : EventType
  pub state : ℕ
  pub reason : List ℕ
  pub sys_code : ℕ
  pub sym : ℕ
  pub ts_ns : ℤ

pub record Stats : Type 0 where
  pub messages : ℕ
  pub adds : ℕ
  pub execs : ℕ
  pub trades : ℕ
  pub crosses : ℕ
  pub unknown_ref : ℕ
  pub halts : ℕ
  pub quote_updates : ℕ
  pub max_orders : ℕ

abbrev pub no_stats : Stats
no_stats = record {
  messages = 0;
  adds = 0;
  execs = 0;
  trades = 0;
  crosses = 0;
  unknown_ref = 0;
  halts = 0;
  quote_updates = 0;
  max_orders = 0;
}

-- An array is a function of its index.
pub put : (ℕ → ℕ) → ℕ → ℕ → ℕ → ℕ
put f k v j = if k == j then v else f j

abbrev write_level :
    List LevelBook → ℕ → (LevelBook → LevelBook) → Option LevelBook → List LevelBook
write_level bs sym f none = bs
write_level bs sym f (some l) = set bs sym (f l)

pub on_level : List LevelBook → ℕ → (LevelBook → LevelBook) → List LevelBook
on_level bs sym f = write_level bs sym f (get_elem? bs sym)

-- `book_side(sym, side)`, changed by `f`.
abbrev pub on_side : ℕ → (SideLadder → SideLadder) → LevelBook → LevelBook
on_side side f l =
    if side == b'B' then record l { bids = f l.bids } else record l { asks = f l.asks }

pub same_top : LevelBook → Bool
same_top l =
    best_price l.bids == l.pub_bid
    && best_price l.asks == l.pub_ask
    && best_qty l.bids == l.pub_bid_q
    && best_qty l.asks == l.pub_ask_q

pub with_top : LevelBook → LevelBook
with_top l = record l {
  pub_bid = best_price l.bids;
  pub_ask = best_price l.asks;
  pub_bid_q = best_qty l.bids;
  pub_ask_q = best_qty l.asks;
}

module _ (M : OrderTable) where
  open M use {Table, find, assign, erase, size}

  pub record ItchBook : Type 0 where
    pub find_key : ℕ → ℕ
    pub board : MarketBoard
    pub events : Option (SpscQueue MarketEvent)
    pub locate_to_sym : ℕ → ℕ
    pub last_state : ℕ → ℕ
    pub orders : Table
    pub books : List LevelBook
    pub filter : List ℕ
    pub track_quotes : Bool
    pub st : Stats
    pub last_sys : ℕ

  -- The constructor.
  pub make : (ℕ → ℕ) → MarketBoard → Option (SpscQueue MarketEvent) → Table → Bool → ItchBook
  make symbols b q t track = record {
    find_key = symbols;
    board = b;
    events = q;
    locate_to_sym = λ _. invalid;
    last_state = λ _. 0;
    orders = t;
    books = replicate (if track then length b.states else 0) empty_book;
    filter = [];
    track_quotes = track;
    st = no_stats;
    last_sys = 0;
  }

  pub map_locate : ItchBook → ℕ → ℕ → ItchBook
  map_locate b locate sym = record b { locate_to_sym = put b.locate_to_sym locate sym }

  pub set_quote_filter : ItchBook → List ℕ → ItchBook
  set_quote_filter b mask = record b { filter = mask }

  pub update_peak : ItchBook → ItchBook
  update_peak b =
      if ltb b.st.max_orders (size b.orders)
      then record b { st = record b.st { max_orders = size b.orders } }
      else b

  -- `++st_.messages`, which every handler does first
  abbrev pub received : ItchBook → ItchBook
  received b = record b { st = record b.st { messages = add64 b.st.messages 1 } }

  pub quoted : ItchBook → ℕ → Bool
  quoted b sym = b.track_quotes && (length b.filter == 0 || not (get_or b.filter sym 0 == 0))

  -- The record of `publish_top` when the top changed; `none` is an index past `books_`.
  pub publish_at : ItchBook → ℕ → ℕ → Option LevelBook → ItchBook
  publish_at b sym ts none = b
  publish_at b sym ts (some l) = if same_top l then b else record b {
    books = set b.books sym (with_top l);
    st = record b.st { quote_updates = add64 b.st.quote_updates 1 };
    board =
        Board.on_quote b.board sym (to_i32 (best_price l.bids)) (best_qty l.bids)
          (to_i32 (best_price l.asks)) (best_qty l.asks) ts;
  }

  pub publish_top : ItchBook → ℕ → ℕ → ItchBook
  unfolding publish_at
  publish_top b sym ts = publish_at b sym ts (get_elem? b.books sym)

  -- `book_side(sym, side).add(..); publish_top(sym, ts)`, and the same with `remove`
  pub side_add : ItchBook → ℕ → ℕ → ℕ → ℕ → ItchBook
  side_add b sym side price qty = record b {
    books = on_level b.books sym (on_side side (λ s. add s price qty));
  }

  pub side_remove : ItchBook → ℕ → ℕ → ℕ → ℕ → ItchBook
  side_remove b sym side price qty = record b {
    books = on_level b.books sym (on_side side (λ s. remove s price qty));
  }

  pub reduce : ItchBook → Order → ℕ → ℕ → ℕ → ItchBook
  reduce b o ref shares ts =
      let taken = if ltb shares o.shares then shares else o.shares in
      let sym = b.locate_to_sym o.locate in
      let b' =
        if not (sym == invalid) && quoted b sym
        then publish_top (side_remove b sym o.side o.price taken) sym ts
        else b in
      record b' {
        orders =
            if leb o.shares shares
            then erase b'.orders ref
            else assign b'.orders ref (record o { shares = o.shares - shares });
      }

  pub on_add : ItchBook → ℕ → ℕ → ℕ → ℕ → ℕ → ℕ → ItchBook
  on_add b0 locate ts ref side shares price =
      let b = received b0 in
      let sym = b.locate_to_sym locate in
      let o : Order = record { price = price; shares = shares; locate = locate; side = side } in
      let b' = record b {
        st = record b.st { adds = add64 b.st.adds 1 };
        orders = assign b.orders ref o;
      } in
      if sym == invalid
      then b
      else if quoted b' sym
      then publish_top (side_add b' sym side price shares) sym ts
      else b'

  -- The handlers below look the order up first; each branch is a case of the lookup.
  abbrev unknown : ItchBook → ItchBook
  unknown b = record b { st = record b.st { unknown_ref = add64 b.st.unknown_ref 1 } }

  abbrev trade_printed : ItchBook → ℕ → ℕ → ℕ → ℕ → ItchBook
  trade_printed b locate price shares ts = record b {
    board = Board.on_trade b.board (b.locate_to_sym locate) (to_i32 price) shares ts;
  }

  abbrev executed : ItchBook → ItchBook
  executed b = record b { st = record b.st { execs = add64 b.st.execs 1 } }

  pub executed_at : ItchBook → ℕ → ℕ → ℕ → ℕ → Option Order → ItchBook
  executed_at b locate ts ref shares none = unknown b
  executed_at b locate ts ref shares (some o) =
      reduce (trade_printed (executed b) locate o.price shares ts) o ref shares ts

  pub on_executed : ItchBook → ℕ → ℕ → ℕ → ℕ → ItchBook
  unfolding executed_at
  on_executed b0 locate ts ref shares =
      let b = received b0 in executed_at b locate ts ref shares (find b.orders ref)

  pub reduce_known : ItchBook → ℕ → ℕ → ℕ → Option Order → ItchBook
  reduce_known b ref shares ts none = unknown b
  reduce_known b ref shares ts (some o) = reduce b o ref shares ts

  pub on_executed_price : ItchBook → ℕ → ℕ → ℕ → ℕ → Bool → ℕ → ItchBook
  unfolding reduce_known
  on_executed_price b0 locate ts ref shares printable price =
      let b = received b0 in
      let b' = if printable then trade_printed (executed b) locate price shares ts else b in
      reduce_known b' ref shares ts (find b.orders ref)

  pub cancel_at : ItchBook → ℕ → ℕ → ℕ → Option Order → ItchBook
  cancel_at b ts ref shares none = b
  cancel_at b ts ref shares (some o) = reduce b o ref shares ts

  pub on_cancel : ItchBook → ℕ → ℕ → ℕ → ItchBook
  unfolding cancel_at
  on_cancel b0 ts ref shares = let b = received b0 in cancel_at b ts ref shares (find b.orders ref)

  pub delete_at : ItchBook → ℕ → ℕ → Option Order → ItchBook
  delete_at b ts ref none = b
  delete_at b ts ref (some o) = reduce b o ref o.shares ts

  pub on_delete : ItchBook → ℕ → ℕ → ItchBook
  unfolding delete_at
  on_delete b0 ts ref = let b = received b0 in delete_at b ts ref (find b.orders ref)

  pub replace_at : ItchBook → ℕ → ℕ → ℕ → ℕ → ℕ → Option Order → ItchBook
  replace_at b ts old_ref new_ref shares price none = b
  replace_at b ts old_ref new_ref shares price (some o) =
      let sym = b.locate_to_sym o.locate in
      let q = not (sym == invalid) && quoted b sym in
      let b1 = if q then side_remove b sym o.side o.price o.shares else b in
      let b2 = record b1 {
        orders =
            assign (erase b1.orders old_ref) new_ref (record o { price = price; shares = shares });
      } in
      if q then publish_top (side_add b2 sym o.side price shares) sym ts else b2

  pub on_replace : ItchBook → ℕ → ℕ → ℕ → ℕ → ℕ → ItchBook
  unfolding replace_at
  on_replace b0 ts old_ref new_ref shares price =
      let b = received b0 in replace_at b ts old_ref new_ref shares price (find b.orders old_ref)

  pub on_trade : ItchBook → ℕ → ℕ → ℕ → ℕ → ItchBook
  on_trade b0 locate ts shares price =
      let b = received b0 in
      trade_printed (record b { st = record b.st { trades = add64 b.st.trades 1 } }) locate price
        shares ts

  pub on_cross : ItchBook → ℕ → ℕ → ℕ → ℕ → ℕ → ItchBook
  on_cross b0 locate ts shares price cross_type =
      let b = received b0 in
      record b {
        st = record b.st { crosses = add64 b.st.crosses 1 };
        board = Board.on_cross b.board (b.locate_to_sym locate) (to_i32 price) shares ts cross_type;
      }

  pub on_broken : ItchBook → ItchBook
  on_broken b = received b

  -- `try_claim`, the writes to the slot, and `publish`; a full queue drops the event.
  pub forward : ItchBook → MarketEvent → Option (SpscQueue MarketEvent) → ItchBook
  forward b e none = b
  forward b e (some q) = record b { events = some (Spsc.try_push q e).1 }

  pub on_system_event : ItchBook → ℕ → ℕ → ItchBook
  unfolding forward
  on_system_event b0 ts code =
      let b = record (received b0) { last_sys = code } in
      forward b
        record {
          type = system_event;
          state = 0;
          reason = [];
          sys_code = code;
          sym = invalid;
          ts_ns = b.board.midnight_ns +ℤ to_i64 ts;
        }
        b.events

  pub on_stock_directory : ItchBook → ℕ → ℕ → ItchBook
  on_stock_directory b0 locate key = map_locate (received b0) locate (b0.find_key key)

  -- `map_locate` for a locate code that no directory message has named.
  pub located : ItchBook → ℕ → ℕ → ItchBook
  unfolding map_locate
  located b locate key =
      if b.locate_to_sym locate == invalid then map_locate b locate (b.find_key key) else b

  -- `on_trading_action` behind the lookup of the symbol.
  pub action_at : ItchBook → ℕ → ℕ → ℕ → List ℕ → ItchBook
  unfolding forward
  action_at b locate ts state reason =
      let sym = b.locate_to_sym locate in
      let prev = b.last_state locate in
      let b' = record b {
        board = Board.on_trading_action b.board sym state reason;
        last_state = put b.last_state locate state;
      } in
      let interesting = not (state == b'T') || (not (prev == 0) && not (prev == b'T')) in
      let halting = record b' { st = record b'.st { halts = add64 b'.st.halts 1 } } in
      let event : MarketEvent = record {
        type = trading_action;
        state = state;
        reason = reason_prefix 4 reason;
        sys_code = 0;
        sym = sym;
        ts_ns = b.board.midnight_ns +ℤ to_i64 ts;
      } in
      if sym == invalid then b else if interesting then forward halting event halting.events else b'

  pub on_trading_action : ItchBook → ℕ → ℕ → ℕ → ℕ → List ℕ → ItchBook
  unfolding located action_at
  on_trading_action b0 locate ts key state reason =
      action_at (located (received b0) locate key) locate ts state reason

  pub on_reg_sho : ItchBook → ℕ → ℕ → ItchBook
  on_reg_sho b0 locate action =
      let b = received b0 in
      let sym = b.locate_to_sym locate in
      if sym == invalid then b else record b { board = Board.on_reg_sho b.board sym action }
