-- ===== src/Market/Book/Feed.antt =====
-- A feed: each decoded message goes to its handler, as in `itch::decode`.
use stok.Base.{
  ℕ, ◌+◌, ◌^◌, ◌<◌, ◌≡◌, ◌≢◌, ◌⊎◌, refl, sym, ◌∙◌, Bool, false, ◌&&◌, ◌||◌, not, Option, none, some,
  List, arith, ◌==◌, Bool-cases, inl, inr,
}
use mathlib.Core.Path.{fun_ext}
use stok.Core.Spsc.{SpscQueue}
use stok.Core.Flat.{empty_key}
use stok.Market.Orders.{OrderTable}
use stok.Market.Itch.{Message}
use stok.Market.Book.{
  ItchBook, invalid, quoted, put, received, map_locate, on_system_event, on_stock_directory,
  on_trading_action, on_reg_sho, on_add, on_executed, on_executed_price, on_cancel, on_delete,
  on_replace, on_trade, on_cross, on_broken, forward, MarketEvent, located, action_at,
}
use stok.Market.Book.Agreement.{Agrees, weight, all_shares, weight-le}
use stok.Market.Book.Messages.{
  untouched, received-Agrees, on_executed-Agrees, on_executed_price-Agrees, on_cancel-Agrees,
  on_delete-Agrees, on_add-Agrees, on_replace-Agrees,
}

module _ (M : OrderTable) where
  open M use {find, total, total_mono}

  -- The handler that `decode` calls.
  unfoldable pub handle : ItchBook M → Message → ItchBook M
  handle b (Message.system_event ts code) = on_system_event M b ts code
  handle b (Message.stock_directory locate ts key c f r) = on_stock_directory M b locate key
  handle b (Message.trading_action locate ts key state reason) =
      on_trading_action M b locate ts key state reason
  handle b (Message.reg_sho locate ts action) = on_reg_sho M b locate action
  handle b (Message.add locate ts ref side shares price) =
      on_add M b locate ts ref side shares price
  handle b (Message.executed locate ts ref shares) = on_executed M b locate ts ref shares
  handle b (Message.executed_price locate ts ref shares printable price) =
      on_executed_price M b locate ts ref shares printable price
  handle b (Message.cancel locate ts ref shares) = on_cancel M b ts ref shares
  handle b (Message.delete locate ts ref) = on_delete M b ts ref
  handle b (Message.replace locate ts old_ref new_ref shares price) =
      on_replace M b ts old_ref new_ref shares price
  handle b (Message.trade locate ts side shares key price) = on_trade M b locate ts shares price
  handle b (Message.cross locate ts shares key price cross_type) =
      on_cross M b locate ts shares price cross_type
  handle b (Message.broken locate ts matched) = on_broken M b

  -- The symbol of a locate code does not change under resting orders.
  abbrev Settled : ItchBook M → ℕ → ℕ → Type 0
  Settled b locate key = (b.locate_to_sym locate ≡ b.find_key key) ⊎ (total all_shares b.orders ≡ 0)

  -- What the exchange promises of a message: no order's reference is the map's marker, a new reference
  -- is not in use, and the shares that rest fit a word.
  abbrev pub Fits : ItchBook M → Message → Type 0
  Fits b (Message.add locate ts ref side shares price) =
      (ref ≢ empty_key) × (find b.orders ref ≡ none) × (total all_shares b.orders + shares < 2 ^ 64)
  Fits b (Message.executed locate ts ref shares) = ref ≢ empty_key
  Fits b (Message.executed_price locate ts ref shares printable price) = ref ≢ empty_key
  Fits b (Message.cancel locate ts ref shares) = ref ≢ empty_key
  Fits b (Message.delete locate ts ref) = ref ≢ empty_key
  Fits b (Message.replace locate ts old_ref new_ref shares price) =
      (old_ref ≢ empty_key)
      × (new_ref ≢ empty_key)
      × ((new_ref ≡ old_ref) ⊎ (find b.orders new_ref ≡ none))
      × (total all_shares b.orders + shares < 2 ^ 64)
  Fits b (Message.stock_directory locate ts key c f r) = Settled b locate key
  Fits b (Message.trading_action locate ts key state reason) =
      (b.locate_to_sym locate ≢ invalid) ⊎ Settled b locate key
  Fits b m = Unit {0}

  put_same : (f : ℕ → ℕ) (k v j : ℕ) → f k ≡ v → put f k v j ≡ f j
  unfolding put
  put_same f k v j e = elim (Bool-cases (k == j)) [
    | inl t ↦ let t' : k ≡ j = ground arith in rw t (rw (← t') (sym e))
    | inr t ↦ rw t
  ]

  -- Where nothing rests, the codes may change: all sums are 0.
  no_orders :
      (b : ItchBook M) (f : ℕ → ℕ) (i : ℕ) (c : Bool) (p : ℕ)
      → total all_shares b.orders ≡ 0
      → total (weight f i c p) b.orders ≡ 0
  no_orders b f i c p z =
      omega (arith, total_mono (weight f i c p) all_shares b.orders (weight-le f i c p))

  Settled-Agrees :
      (b : ItchBook M) (locate key : ℕ)
      → Settled b locate key
      → Agrees M b
      → Agrees M (map_locate M b locate (b.find_key key))
  unfolding map_locate
  Settled-Agrees b locate key (inl same) v =
      untouched M b (record b { locate_to_sym = put b.locate_to_sym locate (b.find_key key) }) refl
        refl refl refl (fun_ext (λ j. put_same b.locate_to_sym locate (b.find_key key) j same)) v
  Settled-Agrees b locate key (inr z) v = record {
    small = v.small;
    valid = v.valid;
    sided = v.sided;
    agrees = λ i c p h q.
        v.agrees i c p h (unfold quoted in (unfold quoted in q))
        ∙ no_orders b b.locate_to_sym i c p z
        ∙ sym (no_orders b (put b.locate_to_sym locate (b.find_key key)) i c p z);
    bounded = v.bounded;
  }

  forward-Agrees :
      (b : ItchBook M) (e : MarketEvent) (q : Option (SpscQueue MarketEvent))
      → Agrees M b
      → Agrees M (forward M b e q)
  unfolding forward
  forward-Agrees b e none v = v
  forward-Agrees b e (some q) v = untouched M b _ refl refl refl refl refl v

  on_system_event-Agrees :
      (b : ItchBook M) (ts code : ℕ) → Agrees M b → Agrees M (on_system_event M b ts code)
  unfolding on_system_event
  on_system_event-Agrees b ts code v =
      forward-Agrees _ _ b.events (untouched M b _ refl refl refl refl refl v)

  on_reg_sho-Agrees :
      (b : ItchBook M) (locate action : ℕ) → Agrees M b → Agrees M (on_reg_sho M b locate action)
  unfolding on_reg_sho
  on_reg_sho-Agrees b locate action v = elim (Bool-cases (b.locate_to_sym locate == invalid)) [
    | inl e ↦ rw e (received-Agrees M b v)
    | inr e ↦ rw e (untouched M b _ refl refl refl refl refl v)
  ]

  located-Agrees :
      (b : ItchBook M) (locate key : ℕ)
      → (b.locate_to_sym locate ≢ invalid) ⊎ Settled b locate key
      → Agrees M b
      → Agrees M (located M b locate key)
  unfolding located
  located-Agrees b locate key (inr s) v = elim (Bool-cases (b.locate_to_sym locate == invalid)) [
    | inl e ↦ rw e (Settled-Agrees b locate key s v)
    | inr e ↦ rw e v
  ]
  located-Agrees b locate key (inl named) v = rw (unnamed (b.locate_to_sym locate) named) v
    where
      unnamed : (n : ℕ) → n ≢ invalid → (n == invalid) ≡ false
      unnamed n h = ground arith

  action_at-Agrees :
      (b : ItchBook M) (locate ts state : ℕ) (reason : List ℕ)
      → Agrees M b
      → Agrees M (action_at M b locate ts state reason)
  unfolding action_at
  action_at-Agrees b locate ts state reason v =
      elim (Bool-cases (b.locate_to_sym locate == invalid)) [
        | inl e ↦ rw e v
        | inr e ↦
            rw e
              (elim (Bool-cases (
                not (state == b'T')
                || (not (b.last_state locate == 0) && not (b.last_state locate == b'T')))) [
                  | inl i ↦
                      rw i
                        (forward-Agrees _ _ b.events (untouched M b _ refl refl refl refl refl v))
                  | inr i ↦ rw i (untouched M b _ refl refl refl refl refl v)
                ])
      ]

  on_trading_action-Agrees :
      (b : ItchBook M) (locate ts key state : ℕ) (reason : List ℕ)
      → (b.locate_to_sym locate ≢ invalid) ⊎ Settled b locate key
      → Agrees M b
      → Agrees M (on_trading_action M b locate ts key state reason)
  unfolding on_trading_action
  on_trading_action-Agrees b locate ts key state reason ok v =
      action_at-Agrees (located M (received M b) locate key) locate ts state reason
        (located-Agrees (received M b) locate key ok (received-Agrees M b v))

  pub handle-Agrees : (b : ItchBook M) (m : Message) → Fits b m → Agrees M b → Agrees M (handle b m)
  unfolding handle
  handle-Agrees b (Message.system_event ts code) ok v = on_system_event-Agrees b ts code v
  handle-Agrees b (Message.stock_directory locate ts key c f r) ok v =
      unfold on_stock_directory in
      Settled-Agrees (received M b) locate key ok (received-Agrees M b v)
  handle-Agrees b (Message.trading_action locate ts key state reason) ok v =
      on_trading_action-Agrees b locate ts key state reason ok v
  handle-Agrees b (Message.reg_sho locate ts action) ok v = on_reg_sho-Agrees b locate action v
  handle-Agrees b (Message.add locate ts ref side shares price) ok v =
      on_add-Agrees M b locate ts ref side shares price ok.0 ok.1 ok.2 v
  handle-Agrees b (Message.executed locate ts ref shares) ok v =
      on_executed-Agrees M b locate ts ref shares ok v
  handle-Agrees b (Message.executed_price locate ts ref shares printable price) ok v =
      on_executed_price-Agrees M b locate ts ref shares printable price ok v
  handle-Agrees b (Message.cancel locate ts ref shares) ok v =
      on_cancel-Agrees M b ts ref shares ok v
  handle-Agrees b (Message.delete locate ts ref) ok v = on_delete-Agrees M b ts ref ok v
  handle-Agrees b (Message.replace locate ts old_ref new_ref shares price) ok v =
      on_replace-Agrees M b ts old_ref new_ref shares price ok.0 ok.1 ok.2 ok.3 v
  handle-Agrees b (Message.trade locate ts side shares key price) ok v =
      unfold on_trade in untouched M b _ refl refl refl refl refl v
  handle-Agrees b (Message.cross locate ts shares key price cross_type) ok v =
      unfold on_cross in untouched M b _ refl refl refl refl refl v
  handle-Agrees b (Message.broken locate ts matched) ok v =
      unfold on_broken in received-Agrees M b v
