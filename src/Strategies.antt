-- ===== src/Strategies.antt =====
-- StrategyManager.h and StrategyManager.cpp: the strategies that are registered, and who is told of an
-- event. What a strategy does in its handlers is its own: the handlers are a parameter. The lock makes
-- each call one step; `none` is a fault, which the `catch` of the background thread does not stop.
pub mod Sample
pub mod Balance
pub mod Subscribers
use simple_cgate.Base.{
  ℕ, Bool, true, false, Option, none, some, List, [], ◌∷◌, ◌++◌, Map, put, empty_map, is_some,
  Action, deref, update, pure, done, ◌>>=◌, ◌>>◌, if◌then◌else◌, ◌==◌, nat_eq, map_some,
}
use simple_cgate.Database
use simple_cgate.Database.{Database}
use simple_cgate.Entities.Security.{Security}
use simple_cgate.Entities.Strategy.{Strategy}
use simple_cgate.Events.{
  Event, event, command, EventType, EventManager, new_consumer, add_new_consumer, remove_consumer,
}
use simple_cgate.Connector.{Connector, send_event, on_database}

pub record StrategyManager : Type 0 where
  pub consumer_id : ℕ  -- of the base class IEventConsumer
  pub exit_flag : Bool
  pub is_connected : Bool
  pub strategies : List ℕ
  pub strategies_map : Map ℕ (List ℕ)

-- What the strategies work on: their own fields, of the derived class, and the connector.
pub record World (X D : Type 0) : Type 0 where
  pub own : X
  pub connector : Connector D

-- The virtual methods that the manager calls, of the strategy at an address.
pub record Handlers (X D : Type 0) : Type 0 where
  pub on_new_security : ℕ → ℕ → Action (World X D) (Unit {0})
  pub on_new_trade : ℕ → ℕ → Action (World X D) (Unit {0})
  pub on_order_change : ℕ → ℕ → Action (World X D) (Unit {0})
  pub on_quotes_change : ℕ → Action (World X D) (Unit {0})
  pub on_disconnect : ℕ → Action (World X D) (Unit {0})
  pub on_background_event : ℕ → Action (World X D) (Unit {0})

-- The constructor, with that of the base class.
unfoldable pub new_strategy_manager : EventManager → StrategyManager × EventManager
unfolding new_consumer add_new_consumer
new_strategy_manager manager =
    let (id, m) = new_consumer manager in
    (
      record {
        consumer_id = id;
        exit_flag = false;
        is_connected = false;
        strategies = [];
        strategies_map = empty_map;
      },
      add_new_consumer id m,
    )

-- The destructor, once the background thread has seen the flag.
unfoldable pub destroy_strategy_manager :
    StrategyManager → EventManager → StrategyManager × EventManager
unfolding remove_consumer
destroy_strategy_manager m manager =
    (record m { exit_flag = true }, remove_consumer m.consumer_id manager)

-- `strategies_map_[id].push_back(str)`, or a new vector where the id is not there.
abbrev pub subscribe : ℕ → ℕ → StrategyManager → StrategyManager
subscribe id str m = elim (m.strategies_map id) [
  | some strs ↦ record m { strategies_map = put id (strs ++ str ∷ []) m.strategies_map }
  | none ↦ record m { strategies_map = put id (str ∷ []) m.strategies_map }
]

-- `strategies_map_[id]`, behind the test that the id is there.
abbrev pub subscribers : ℕ → StrategyManager → List ℕ
subscribers id m = elim (m.strategies_map id) [ none ↦ [] | some strs ↦ strs ]

module _ {X D : Type 0} where
  abbrev pub in_world : {A : Type 0} → Action (Connector D) A → Action (World X D) A
  in_world f w = map_some (λ (a, c). (a, record w { connector = c })) (f w.connector)

  -- The loop over the securities in `AddStrategy`.
  unfoldable pub subscribe_all : List ℕ → ℕ → StrategyManager → Action (World X D) StrategyManager
  subscribe_all [] str m = pure m
  subscribe_all (sec ∷ secs) str m = do
    s ← deref (λ (w : World X D). w.connector.database.heap.securities sec)
    subscribe_all secs str (subscribe s.global_id str m)

  unfoldable pub add_strategy : ℕ → List ℕ → StrategyManager → Action (World X D) StrategyManager
  unfolding Database.add_strategy
  add_strategy str secs m = do
    in_world (on_database (Database.add_strategy str))
    m' ← subscribe_all secs str (record m { strategies = m.strategies ++ str ∷ [] })
    s ← deref (λ (w : World X D). w.connector.database.heap.strategies str)
    in_world (send_event EventType.new_strategy s.global_id)
    pure m'

  -- `for (auto strategy : strategies)`
  unfoldable pub for_each :
      List ℕ → (ℕ → Action (World X D) (Unit {0})) → Action (World X D) (Unit {0})
  for_each [] f = done
  for_each (str ∷ strs) f = f str >> for_each strs f

  -- `AddEvent(kStrategyChange, strategy->global_id())`, behind the call of a handler.
  abbrev pub then_announce : (ℕ → Action (World X D) (Unit {0})) → ℕ → Action (World X D) (Unit {0})
  then_announce f str = do
    f str
    s ← deref (λ (w : World X D). w.connector.database.heap.strategies str)
    in_world (send_event EventType.strategy_change s.global_id)

module _ {X D : Type 0} (h : Handlers X D) where
  unfoldable pub on_disconnect : StrategyManager → Action (World X D) StrategyManager
  unfolding for_each
  on_disconnect m =
      let m' : StrategyManager = record m { is_connected = false } in
      (do for_each m'.strategies h.on_disconnect; pure m')

  unfoldable pub event_process : Event → StrategyManager → Action (World X D) StrategyManager
  unfolding for_each on_disconnect
  event_process (event EventType.security_add g) m = do
    for_each m.strategies (λ str. h.on_new_security str g)
    pure m
  event_process (event EventType.my_trade_add g) m = do
    for_each m.strategies (then_announce (λ str. h.on_new_trade str g))
    pure m
  event_process (event EventType.quote_change g) m = do
    for_each (subscribers g m) (then_announce h.on_quotes_change)
    pure m
  event_process (event EventType.order_change g) m = do
    for_each m.strategies (then_announce (λ str. h.on_order_change str g))
    pure m
  event_process (event EventType.disconnect g) m = on_disconnect m
  event_process (event EventType.connect g) m = pure (record m { is_connected = true })
  event_process (event _ g) m = pure m
  event_process (command c) m = pure m

  -- One round of `BackgroundProcess`.
  unfoldable pub background_process_round : StrategyManager → Action (World X D) (Unit {0})
  unfolding for_each
  background_process_round m =
      if m.exit_flag
      then done
      else if m.is_connected
      then for_each m.strategies h.on_background_event
      else done
