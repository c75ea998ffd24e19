-- ===== src/Server.antt =====
-- DataServer.h and DataServer.cpp: the messages that the server keeps for the GUI, and those that it
-- broadcasts once. The locks make each push and each pop one step. `none` is a fault: a null
-- pointer, or a text that `memcpy_s` refuses.
pub mod Messages
pub mod Fill
pub mod Requests
pub mod Log
pub mod Refines
pub mod Runs
pub mod Client
pub mod Ends
pub mod Commands
use simple_cgate.Base.{
  ℕ, Bool, true, false, Option, none, some, List, [], ◌∷◌, ◌++◌, take, bind_some, if◌then◌else◌,
  ◌==◌, nat_eq,
}
use simple_cgate.Base.Words.{add_32}
use simple_cgate.Entities.Platform.{Platform}
use simple_cgate.Entities.DateTime.{get_date_struct, get_time_struct}
use simple_cgate.Entities.Security.{Security}
use simple_cgate.Entities.Order.{Order, order_state_code, direction_code}
use simple_cgate.Entities.Trade.{Trade}
use simple_cgate.Entities.Position.{Position}
use simple_cgate.Entities.Money.{Money}
use simple_cgate.Entities.Strategy.{Strategy, algo_state_code, current_price, current_volume}
use simple_cgate.Database.{
  Database, get_security_by_global_id, get_strategy_by_global_id, get_trade_by_global_id,
  get_position_by_global_id, get_order_by_global_id,
}
use simple_cgate.Events.{
  Event, event, command, EventType, EventManager, new_consumer, add_new_consumer, remove_consumer,
}
use Fill.{security_by_id, strategy_by_id, trade_by_id, position_by_id, order_by_id, money_data}
use Messages.{
  DataType, data_type_code, ServerData, new_server_data, SecurityData, PositionData, TradeData,
  OrderData, MoneyData, StrategyData, new_position_clear, Message, server_message, security_message,
  position_message, trade_message, order_message, money_message, strategy_message,
  position_clear_message, copy_text,
}

pub record DataServer (D : Type 0) : Type 0 where
  pub consumer_id : ℕ  -- of the base class IEventConsumer
  pub incremental_messages : List (Message D)
  pub stream_messages : List (Message D)
  pub srv_data : ServerData
  pub exit : Bool
  pub money_init : Bool

module _ {D : Type 0} where
  -- The constructor, with that of the base class; the two threads are the rounds below.
  unfoldable pub new_data_server : EventManager → DataServer D × EventManager
  unfolding new_consumer add_new_consumer
  new_data_server manager =
      let (id, m) = new_consumer manager in
      (
        record {
          consumer_id = id;
          incremental_messages = [];
          stream_messages = [];
          srv_data = new_server_data;
          exit = false;
          money_init = false;
        },
        add_new_consumer id m,
      )

  -- The destructor, up to the joins.
  unfoldable pub destroy_data_server : DataServer D → EventManager → DataServer D × EventManager
  unfolding remove_consumer
  destroy_data_server s manager = (record s { exit = true }, remove_consumer s.consumer_id manager)

  abbrev pub publish_message : Message D → DataServer D → DataServer D
  publish_message m s = record s { stream_messages = s.stream_messages ++ m ∷ [] }

  abbrev pub publish_server_data : DataServer D → DataServer D
  publish_server_data s = publish_message (server_message s.srv_data) s

  unfoldable pub store_message : Message D → DataServer D → DataServer D
  store_message m s = publish_server_data (record s {
    incremental_messages = s.incremental_messages ++ m ∷ [];
    srv_data = record s.srv_data { all_messages = add_32 s.srv_data.all_messages 1 };
  })

  -- One round of `StreamProcess`: all that waits is sent, in order, and then the number of messages
  -- is queued for the next round. The first component is what subscribers get.
  unfoldable pub stream_process_round : DataServer D → List (Message D) × DataServer D
  stream_process_round s =
      if s.exit
      then ([], s)
      else (s.stream_messages, publish_server_data (record s { stream_messages = [] }))

  -- The case of an event about an object: nothing where its id is 0.
  abbrev pub for_object :
      ℕ → Option (Message D) → (Message D → DataServer D) → DataServer D → Option (DataServer D)
  for_object g found f s = if g == 0 then some s else bind_some found λ m. some (f m)

module _ {D : Type 0} ⦃num : Platform D⦄ where
  unfoldable pub event_process : Event → Database D → DataServer D → Option (DataServer D)
  unfolding store_message
  event_process (event EventType.security_add g) db s =
      for_object g (security_by_id g db) (λ m. store_message m s) s
  event_process (event EventType.quote_change g) db s =
      for_object g (security_by_id g db) (λ m. publish_message m s) s
  event_process (event EventType.new_strategy g) db s =
      for_object g (strategy_by_id g db) (λ m. store_message m s) s
  event_process (event EventType.strategy_change g) db s =
      for_object g (strategy_by_id g db) (λ m. publish_message m s) s
  event_process (event EventType.my_trade_add g) db s =
      for_object g (trade_by_id g db) (λ m. store_message m s) s
  event_process (event EventType.money_change g) db s =
      if s.money_init
      then some (publish_message (money_data db.money_info) s)
      else some (record (store_message (money_data db.money_info) s) { money_init = true })
  event_process (event EventType.position_clear g) db s =
      some (publish_message (position_clear_message new_position_clear) s)
  event_process (event EventType.position_change g) db s =
      for_object g (position_by_id g db) (λ m. publish_message m s) s
  event_process (event EventType.order_change g) db s =
      for_object g (order_by_id g db) (λ m. store_message m s) s
  event_process (event _ g) db s = some s
  event_process (command c) db s = some s
