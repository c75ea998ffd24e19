-- ===== src/Tests/Parts.antt =====
-- The theorems on the other parts.
use simple_cgate.Base.{
  ℕ, ◌≡◌, ◌≢◌, refl, arith, true, Option, none, some, [], ◌∷◌, ◌++◌, codes, nat_eq, text_eq,
  map_some,
}
use simple_cgate.Entities.Order.{new_order, set_global_id}
use simple_cgate.Entities.Security.{Security, new_security}
use simple_cgate.Entities.Price.{convert_price_to_str, i64_to_a, digits_from}
use simple_cgate.Entities.Price.Digits.{convert_price_to_str-positive, convert_price_to_str-small}
use simple_cgate.Events.{EventType, event, add_new_consumer, remove_consumer}
use simple_cgate.Events.Delivery.{queue, times, dispatch, queue-dispatch, times-remove_consumer}
use simple_cgate.Streams.{CGate, new_service_stream, init_service_streams, release_all}
use simple_cgate.Streams.States.{DataStreamState}
use simple_cgate.Streams.WaitFlags.{waits, release_all-init_service_streams}
use simple_cgate.Transactions.{TransactionManager, move_order}
use simple_cgate.Transactions.Posting.{post_cancel_order}
use simple_cgate.Transactions.Publisher.{publisher_rounds, publisher_round, take_first, perform}
use simple_cgate.Transactions.Kinds.{TransactionType}
use simple_cgate.Transactions.Queue.{
  all_positive, moved, publisher_rounds-positive, move_order-transactions,
}
use simple_cgate.Database.{Database, create_new_order}
use simple_cgate.Database.Lookups.{
  OrderMade, TradeMade, SecurityMade, create_order-OrderMade, create_trade-TradeMade,
  create_security-SecurityMade, create_new_order-fresh, create_new_order-alias,
}
use simple_cgate.Events.{EventManager, new_manager}
use simple_cgate.Connector.{Connector, order_for}
use simple_cgate.Connector.Market.{
  listener_fut_info_stream, session_row, security_for, link_security,
}
use simple_cgate.Connector.Trading.{
  listener_fut_trade_stream, trade_row, orders_log_row, order_action,
}
use simple_cgate.Connector.Orders.{order_of}
use simple_cgate.Connector.Callbacks.{deliver, deliver_all}
use simple_cgate.Database.{
  get_order, create_trade, create_security, create_order, label_security, label_order,
}
use simple_cgate.Transactions.Drain.{cancellations, removals, publisher_rounds-cancellations}
use simple_cgate.Tests.{
  able, blank_manager, millionths, first, added, left_by, loaded, loaded-IsGate, order_or_new,
}

abbrev quoted : Security ℕ
quoted = record (new_security (codes "SiZ6")) { step_size = 10000 }

-- 12.34, in steps of 0.01.
convert_price_to_str-positive_example :
    convert_price_to_str 12340000 quoted [] ≡ some (codes "12.34000" ++ 0 ∷ [])
unfolding i64_to_a digits_from
convert_price_to_str-positive_example =
    convert_price_to_str-positive 12340000 quoted [] refl refl refl (omega arith) (omega arith)

-- 0.05, in steps of 0.01.
convert_price_to_str-small_example : convert_price_to_str 50000 quoted [] ≡ none
convert_price_to_str-small_example =
    convert_price_to_str-small 50000 quoted [] refl refl refl (omega arith) (omega arith)

abbrev publisher : TransactionManager
publisher = record blank_manager {
  publisher = some 1;
  broker_code = some (codes "BR01");
  client_code = some (codes "C01");
  state = DataStreamState.active;
  transactions =
      record { type = TransactionType.cancel; order_main = some 1; order_second = none } ∷ [];
}

abbrev published_by : Option (TransactionManager × Database ℕ) → TransactionManager × Database ℕ
published_by none = (publisher, first.database)
published_by (some r) = r

publisher_rounds-positive_example :
    all_positive (published_by (publisher_rounds 2 able publisher loaded.database)).0.posted ≡ true
unfolding loaded deliver_all deliver listener_fut_info_stream session_row security_for link_security
    create_security listener_fut_trade_stream trade_row orders_log_row order_for create_order
    order_action label_security label_order publisher_rounds publisher_round take_first perform
    post_cancel_order
publisher_rounds-positive_example =
    publisher_rounds-positive able 2 publisher loaded.database
      (published_by (publisher_rounds 2 able publisher loaded.database)) refl refl

move_order-transactions_example :
    move_order loaded.database 1 1 publisher
    ≡ some (record publisher { transactions = publisher.transactions ++ moved 1 1 })
unfolding loaded deliver_all deliver listener_fut_info_stream session_row security_for link_security
    create_security listener_fut_trade_stream trade_row orders_log_row order_for create_order
    order_action label_security label_order order_or_new
move_order-transactions_example =
    move_order-transactions loaded.database 1 1 publisher (order_or_new (order_of 3 loaded))
      (order_or_new (order_of 3 loaded)) refl refl

abbrev two_consumers : EventManager
two_consumers = add_new_consumer 4 (add_new_consumer 3 new_manager)

queue-dispatch_example :
    queue 4
      (dispatch ((EventType.security_add, 7) ∷ (EventType.order_change, 8) ∷ []) two_consumers)
    ≡ event EventType.security_add 7 ∷ event EventType.order_change 8 ∷ []
unfolding add_new_consumer
queue-dispatch_example =
    queue-dispatch ((EventType.security_add, 7) ∷ (EventType.order_change, 8) ∷ []) 4 two_consumers
      refl

times-remove_consumer_example : times 4 (remove_consumer 4 two_consumers).consumers ≡ 0
unfolding add_new_consumer
times-remove_consumer_example = times-remove_consumer 4 4 two_consumers

create_order-OrderMade_example :
    OrderMade 12 loaded.database
      (create_order 12 0 loaded.database).0
      (create_order 12 0 loaded.database).1
create_order-OrderMade_example =
    create_order-OrderMade 12 0 loaded.database loaded-IsGate.database_ok

create_trade-TradeMade_example :
    TradeMade 40 loaded.database
      (create_trade 40 0 1 loaded.database).0
      (create_trade 40 0 1 loaded.database).1
create_trade-TradeMade_example =
    create_trade-TradeMade 40 0 1 loaded.database loaded-IsGate.database_ok

create_security-SecurityMade_example :
    SecurityMade
      (codes "RIZ6")
      loaded.database
      (create_security (codes "RIZ6") loaded.database).0
      (create_security (codes "RIZ6") loaded.database).1
create_security-SecurityMade_example =
    create_security-SecurityMade (codes "RIZ6") loaded.database loaded-IsGate.database_ok

create_new_order-fresh_example :
    ((create_new_order 0 loaded.database).1.transaction_id ≡ 2)
    × (get_order 2 (create_new_order 0 loaded.database).1
        ≡ some (create_new_order 0 loaded.database).0)
    × ((create_new_order 0 loaded.database).1.heap.orders (create_new_order 0 loaded.database).0
        ≡ some (set_global_id loaded.database.global_id (new_order 0 2)))
unfolding loaded deliver_all deliver listener_fut_info_stream session_row security_for link_security
    create_security listener_fut_trade_stream trade_row orders_log_row order_for create_order
    order_action label_security label_order order_or_new
create_new_order-fresh_example = create_new_order-fresh 0 loaded.database refl

-- The exchange reported an order of the number 2 before the program had made any.
reported : Connector ℕ
unfolding orders_log_row
reported = left_by (orders_log_row (record added { ext_id = 2 }) loaded)

create_new_order-alias_example :
    ((create_new_order 0 reported.database).0 ≡ 2)
    × ((create_new_order 0 reported.database).1.heap.orders (create_new_order 0 reported.database).0
        ≡ map_some (set_global_id reported.database.global_id) (reported.database.heap.orders 2))
unfolding loaded deliver_all deliver listener_fut_info_stream session_row security_for link_security
    create_security listener_fut_trade_stream trade_row orders_log_row order_for create_order
    order_action label_security label_order order_or_new reported
create_new_order-alias_example = create_new_order-alias 0 2 reported.database refl

abbrev any_cgate : CGate
any_cgate = record { conn_new = λ t. some 1; lsn_new = λ t. some 1; msg_new = λ h t. true }

release_all-init_service_streams_example :
    waits 2 (release_all (init_service_streams any_cgate new_service_stream)) ≢ some true
release_all-init_service_streams_example = release_all-init_service_streams any_cgate 2

publisher_rounds-cancellations_example :
    publisher_rounds 1 able
      (record publisher { transactions = cancellations (1 ∷ []) })
      loaded.database
    ≡ some (
      record publisher {
        transactions = [];
        posted = removals (codes "BR01") loaded.database (1 ∷ []);
      },
      loaded.database,
    )
unfolding loaded deliver_all deliver listener_fut_info_stream session_row security_for link_security
    create_security listener_fut_trade_stream trade_row orders_log_row order_for create_order
    order_action label_security label_order
publisher_rounds-cancellations_example =
    publisher_rounds-cancellations (1 ∷ []) publisher loaded.database able (codes "BR01")
      (codes "BR01") 1 loaded-IsGate.database_ok refl refl refl (λ name. refl) refl refl
