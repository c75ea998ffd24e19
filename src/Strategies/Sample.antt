-- ===== src/Strategies/Sample.antt =====
-- SampleBidAskStrategy.h. `PostOrder` and `CancelOrder` are bound in `main` (SimpleCGate.cpp) to
-- `AddOrder` and `DeleteOrder` of the connector, so a handler is an action on the strategy and the
-- connector. A null pointer that is followed is a fault. What is printed is left out.
use simple_cgate.Base.{
  ℕ, Bool, true, false, not, ◌&&◌, ◌||◌, Option, none, some, List, [], ◌∷◌, Text, codes, Map, put,
  empty_map, is_some, Action, deref, update, gets, done, ◌>>=◌, ◌>>◌, if◌then◌else◌, map_some, ◌==◌,
  nat_eq, text_eq, leb,
}
use simple_cgate.Base.Words.{add_32, sub_32, neg_32, is_negative, lt_i32}
use simple_cgate.Entities.Platform.{Platform}
use simple_cgate.Entities.DateTime.{DateTime}
use simple_cgate.Entities.Security.{Security}
use simple_cgate.Entities.Order.{
  Order, OrderState, OrderType, TradeDirection, set_price, set_direction, set_balance, set_type,
  set_volume,
}
use simple_cgate.Entities.Trade.{Trade}
use simple_cgate.Database.{
  create_new_order, create_security, get_security, is_security_exist, get_trade_by_global_id,
  write_order,
}
use simple_cgate.Connector.{Connector, call_database, on_database}
use simple_cgate.Connector.Posting.{add_order, delete_order}

pub record SampleBidAskStrategy : Type 0 where
  pub symbol : Text
  pub signal_volume : ℕ
  pub work_volume : ℕ
  pub orders : Map ℕ ℕ
  pub security : Option ℕ
  pub current_position : ℕ
  pub current_order : Option ℕ

pub record Trading (D : Type 0) : Type 0 where
  pub strategy : SampleBidAskStrategy
  pub connector : Connector D

-- The constructor. The two volumes have no initial value; they are set by `LoadConfig`.
abbrev pub new_sample_strategy : ℕ → ℕ → SampleBidAskStrategy
new_sample_strategy signal work = record {
  symbol = [];
  signal_volume = signal;
  work_volume = work;
  orders = empty_map;
  security = none;
  current_position = 0;
  current_order = none;
}

abbrev pub is_trade_time : DateTime → Bool
is_trade_time time = leb 10 time.hour && leb time.hour 23

abbrev pub reset_status : SampleBidAskStrategy → SampleBidAskStrategy
reset_status s = record s { current_order = none; current_position = 0 }

abbrev pub get_used_security : SampleBidAskStrategy → List (Option ℕ)
get_used_security s = s.security ∷ []

abbrev pub is_active : OrderState → Bool
is_active OrderState.active = true
is_active _ = false

module _ {D : Type 0} where
  abbrev pub on_connector : {A : Type 0} → Action (Connector D) A → Action (Trading D) A
  on_connector f t = map_some (λ (a, c). (a, record t { connector = c })) (f t.connector)

  abbrev pub on_strategy :
      (SampleBidAskStrategy → SampleBidAskStrategy) → Action (Trading D) (Unit {0})
  on_strategy f = update λ t. record t { strategy = f t.strategy }

  abbrev pub read_order : ℕ → Action (Trading D) (Order D)
  read_order p = deref λ (t : Trading D). t.connector.database.heap.orders p

  -- An order that is current, active and from another minute is cancelled and forgotten.
  unfoldable pub on_order_change : ℕ → ℕ → Action (Trading D) (Unit {0})
  unfolding delete_order
  on_order_change now_minute id t = elim t.strategy.current_order [
    | none ↦ some (tt, t)
    | some p ↦
        (do
          o ← read_order p
          if o.global_id == id && (is_active o.state && not (o.time.minute == now_minute))
              then (do
                on_connector (delete_order (some p))
                on_strategy (λ s. record s { current_order = none }))
              else done)
          t
  ]

  abbrev pub counted : Trade D → SampleBidAskStrategy → SampleBidAskStrategy
  counted trade s = elim trade.direction [
    | TradeDirection.buy ↦ record s { current_position = add_32 s.current_position trade.volume }
    | TradeDirection.sell ↦ record s { current_position = sub_32 s.current_position trade.volume }
  ]

  abbrev pub count_trade : ℕ → Trade D → SampleBidAskStrategy → SampleBidAskStrategy
  count_trade order_id trade s = if is_some (s.orders order_id) then counted trade s else s

  -- A deal counts if the id of its order is a key of the orders that were placed.
  unfoldable pub on_new_trade : ℕ → Action (Trading D) (Unit {0})
  on_new_trade id = do
    p ← deref (λ (t : Trading D). get_trade_by_global_id id t.connector.database)
    trade ← deref (λ (t : Trading D). t.connector.database.heap.trades p)
    o ← read_order trade.order
    on_strategy (count_trade o.id trade)

module _ {D : Type 0} ⦃num : Platform D⦄ where
  unfoldable pub load_config : Action (Trading D) (Unit {0})
  unfolding create_security
  load_config = do
    on_strategy (λ s. record s { symbol = codes "RTS-9.17"; signal_volume = 10; work_volume = 1 })
    name ← gets (λ (t : Trading D). t.strategy.symbol)
    known ← gets (λ (t : Trading D). is_security_exist name t.connector.database)
    p ←
        if known
        then deref (λ (t : Trading D). get_security name t.connector.database)
        else on_connector (call_database (create_security name))
    on_strategy (λ s. record s { security = some p })

  -- The writes to a new order.
  abbrev pub filled : TradeDirection → ℕ → D → Order D → Order D
  filled direction vol price o = set_volume vol (
      set_type OrderType.put_in_queue
        (set_balance vol (set_direction direction (set_price price o))))

  -- A new order of the strategy's: it is filled in, sent, and saved under its user's id.
  unfoldable pub place : ℕ → TradeDirection → D → ℕ → Action (Trading D) (Unit {0})
  unfolding create_new_order add_order
  place sec direction price vol = do
    p ← on_connector (call_database (create_new_order sec))
    on_strategy (λ s. record s { current_order = some p })
    on_connector (on_database (write_order p (filled direction vol price)))
    on_connector (add_order (some p))
    o ← read_order p
    on_strategy (λ s. record s { orders = put o.user_id p s.orders })

  -- With no current order: sell where much is asked, and buy where much is bid.
  unfoldable pub trade_on_quotes :
      ℕ → Security D → SampleBidAskStrategy → Action (Trading D) (Unit {0})
  trade_on_quotes sec q s =
      if not (is_negative s.current_position) && lt_i32 s.signal_volume q.ask_vol
      then place sec TradeDirection.sell (num.sub_double q.ask q.step_size)
          (if s.current_position == 0 then s.work_volume else s.current_position)
      else if (is_negative s.current_position || s.current_position == 0)
          && lt_i32 s.signal_volume q.bid_vol
      then place sec TradeDirection.buy (num.add_double q.bid q.step_size)
          (if is_negative s.current_position then neg_32 s.current_position else s.work_volume)
      else done

  unfoldable pub on_quotes_change : Action (Trading D) (Unit {0})
  on_quotes_change t = elim t.strategy.current_order [
    | some p ↦ some (tt, t)
    | none ↦
        (do
          sec ← deref (λ (t : Trading D). t.strategy.security)
          q ← deref (λ (t : Trading D). t.connector.database.heap.securities sec)
          trade_on_quotes sec q t.strategy)
          t
  ]
