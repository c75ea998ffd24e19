-- ===== src/Connector.antt =====
-- PlazaConnector.h and PlazaConnector.cpp: the state of the connector, with the database and the
-- dispatcher that it refers to, and the helpers of its callbacks.
pub mod Rows
pub mod Market
pub mod Trading
pub mod Replies
pub mod Safety
pub mod Orders
pub mod Deals
pub mod Posting
pub mod Setup
pub mod Life
pub mod Instruments
pub mod Keeps
pub mod Runs
pub mod Unset
pub mod Callbacks
use simple_cgate.Base.{
  ℕ, Bool, true, false, Option, none, some, List, [], ◌∷◌, Text, Map, put, is_some, empty_map,
  Action, deref, update, call, done, ◌>>=◌, ◌>>◌, ◌==◌, nat_eq, text_eq, if◌then◌else◌, map_some,
}
use simple_cgate.Entities.Platform.{Platform}
use simple_cgate.Entities.Security.{Security}
use simple_cgate.Entities.Order.{Order}
use simple_cgate.Entities.Trade.{Trade}
use simple_cgate.Entities.Position.{Position}
use simple_cgate.Events
use simple_cgate.Events.{EventManager, EventType}
use simple_cgate.Streams.{DataStream, PlazaStream, Message}
use simple_cgate.Streams.States.{ListenerState}
use simple_cgate.Transactions.{TransactionManager}
use simple_cgate.Database.{
  Database, create_order, create_position, get_order, is_order_exist, get_position,
  is_position_exist,
}

pub record GateConfig : Type 0 where
  pub broker_code : Text
  pub client_code : Text
  pub ip_address : Text
  pub port : Text
  pub is_fast : Bool
  pub tcp : Bool

pub record Connector (D : Type 0) : Type 0 where
  pub database : Database D
  pub event_manager : EventManager
  pub securities_id : Map ℕ ℕ
  pub last_sess_id : ℕ
  pub config : GateConfig
  pub app_id : ℕ
  pub transaction_id : ℕ
  pub connection_string : Text
  pub is_connected : Bool
  pub service_stream : DataStream
  pub order_stream : DataStream
  pub common_stream : DataStream
  pub transaction_mgr : TransactionManager
  pub auto_connection_enabled : Bool

module _ {D : Type 0} where
  -- `IsSecuirtyExist`, `GetSecurityById` and `AddSecurity`. A missing id gives a null pointer, which
  -- the callers would follow.
  abbrev pub is_security_id : ℕ → Connector D → Bool
  is_security_id id c = is_some (c.securities_id id)

  abbrev pub get_security_by_id : ℕ → Action (Connector D) ℕ
  get_security_by_id id = deref (λ c. c.securities_id id)

  abbrev pub add_security : ℕ → ℕ → Connector D → Connector D
  add_security sec id c = record c { securities_id = put id sec c.securities_id }

  abbrev pub security_at : ℕ → Action (Connector D) (Security D)
  security_at p = deref (λ c. c.database.heap.securities p)

  -- A change of the database, and a call of it that returns a pointer.
  abbrev pub on_database : (Database D → Database D) → Action (Connector D) (Unit {0})
  on_database f = update (λ c. record c { database = f c.database })

  abbrev pub call_database : (Database D → ℕ × Database D) → Action (Connector D) ℕ
  call_database f = call (λ c. let (p, db) = f c.database in (p, record c { database = db }))

  abbrev pub send_event : EventType → ℕ → Action (Connector D) (Unit {0})
  send_event t g = update (λ c. record c { event_manager = Events.add_event t g c.event_manager })

  -- `AddQuoteEvent` and its siblings: the event carries the entity's global id.
  abbrev pub add_quote_event : ℕ → Action (Connector D) (Unit {0})
  add_quote_event p = do s ← security_at p; send_event EventType.quote_change s.global_id

  abbrev pub add_security_event : ℕ → Action (Connector D) (Unit {0})
  add_security_event p = do s ← security_at p; send_event EventType.security_add s.global_id

  abbrev pub add_order_event : ℕ → Action (Connector D) (Unit {0})
  add_order_event p = do
    o ← deref (λ (c : Connector D). c.database.heap.orders p)
    send_event EventType.order_change o.global_id

  abbrev pub add_my_trade_event : ℕ → Action (Connector D) (Unit {0})
  add_my_trade_event p = do
    t ← deref (λ (c : Connector D). c.database.heap.trades p)
    send_event EventType.my_trade_add t.global_id

  abbrev pub add_position_event : ℕ → Action (Connector D) (Unit {0})
  add_position_event p = do
    x ← deref (λ (c : Connector D). c.database.heap.positions p)
    send_event EventType.position_change x.global_id

  abbrev pub add_money_event : Action (Connector D) (Unit {0})
  add_money_event = update λ c. record c {
    event_manager = Events.add_plain_event EventType.money_change c.event_manager;
  }

module _ {D : Type 0} ⦃num : Platform D⦄ where
  -- `ConvertToDouble`.
  abbrev pub convert_to_double : Text → D
  convert_to_double str =
      let (price, scale) = num.cg_bcd_get str in
      num.div_double (num.double_of_int64 price) (num.pow_10 scale)

  -- `IsOrderExist(id) ? GetOrder(id) : CreateOrder(id, security)`, and the same for a position.
  unfoldable pub order_for : ℕ → ℕ → Action (Connector D) ℕ
  order_for user_id sec c =
      if is_order_exist user_id c.database
      then deref (λ (d : Connector D). get_order user_id d.database) c
      else call_database (create_order user_id sec) c

  unfoldable pub position_for : ℕ → Action (Connector D) ℕ
  position_for sec = do
    s ← security_at sec
    λ c.
        if is_position_exist s.isin c.database
        then deref (λ (d : Connector D). get_position s.isin d.database) c
        else map_some (λ (r : ℕ × Database D). (r.0, record c { database = r.1 }))
            (create_position sec c.database)

-- `ListenerStateProcess`. The loop `for (auto plaza_stream : …)` works on a copy of each stream: the
-- copy of the listener's stream is written, and dropped at the end of the round.
abbrev pub write_copy : {A : Type 0} → Message A → PlazaStream → PlazaStream
write_copy Message.online s = record s { state = ListenerState.online }
write_copy Message.opened s = record s { state = ListenerState.opened }
write_copy Message.close s = record s { state = ListenerState.close }
write_copy (Message.life_num n) s = record s { life_num = n }
write_copy (Message.repl_state t) s = record s { replica_state = t }
write_copy _ s = s

abbrev is_listener : ℕ → Option ℕ → Bool
is_listener l none = false
is_listener l (some k) = k == l

-- A round's copy, and the stream itself, which stays in the container.
abbrev copy_round : {A : Type 0} → ℕ → Message A → PlazaStream → PlazaStream × PlazaStream
copy_round l msg s = (if is_listener l s.listener then write_copy msg s else s, s)

unfoldable pub state_loop : {A : Type 0} → ℕ → Message A → List PlazaStream → List PlazaStream
state_loop l msg [] = []
state_loop l msg (s ∷ ss) = let (copy, kept) = copy_round l msg s in kept ∷ state_loop l msg ss

unfoldable pub listener_state_process : {A : Type 0} → ℕ → Message A → DataStream → DataStream
unfolding state_loop
listener_state_process l msg s = record s { plaza_streams = state_loop l msg s.plaza_streams }
