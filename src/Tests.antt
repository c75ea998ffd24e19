-- ===== src/Tests.antt =====
-- A connector with one instrument and one order, on which the theorems are applied. The numbers that
-- stand for `double` here count millionths.
pub mod Callbacks
pub mod Parts
pub mod Server
pub mod Strategies
pub mod Life
use simple_cgate.Base.{
  ℕ, ◌+◌, ◌-◌, ◌*◌, ◌/◌, ◌≡◌, ◌≢◌, refl, arith, true, false, Option, none, some, List, [], ◌∷◌,
  ◌++◌, codes, ltb, ◌==◌, nat_eq, text_eq, text_beq_iff, Holds, map_some,
}
use simple_cgate.Entities.Platform.{Platform}
use simple_cgate.Entities.Order.{Order, OrderState, new_order, set_global_id, sell}
use simple_cgate.Entities.Trade.{Trade, new_trade}
use simple_cgate.Connector.Deals.{terms, trade_of, user_deal_row-trade_of, user_deal_row-twice}
use simple_cgate.Connector.Runs.{
  deliver_all-get_order, deliver_all-get_trade, deliver_all-get_security, deliver_all-last_sess_id,
  deliver_all-states,
}
use simple_cgate.Connector.Unset.{is_unset, deliver_all-is_unset}
use simple_cgate.Connector.Safety.Trading.{user_deal_row-Gate}
use simple_cgate.Connector.Replies.{publisher_callback}
use simple_cgate.Streams.Kept.{states}
use simple_cgate.Entities.Security.{Security, new_security}
use simple_cgate.Entities.Price.{convert_price_to_str, i64_to_a, digits_from}
use simple_cgate.Entities.Price.Digits.{convert_price_to_str-positive, convert_price_to_str-small}
use simple_cgate.Events.{EventType, event, add_new_consumer, remove_consumer}
use simple_cgate.Events.Delivery.{
  queue, times, dispatch, queue-dispatch, queue-dispatch_absent, times-remove_consumer,
}
use simple_cgate.Streams.{CGate, new_service_stream, init_service_streams, release_all}
use simple_cgate.Streams.States.{DataStreamState}
use simple_cgate.Streams.WaitFlags.{waits, release_all-init_service_streams}
use simple_cgate.Connector.{listener_state_process}
use simple_cgate.Connector.Keeps.{listener_state_process-same}
use simple_cgate.Connector.Market.{online_message}
use simple_cgate.Transactions.{TransactionManager, move_order}
use simple_cgate.Transactions.Posting.{post_cancel_order}
use simple_cgate.Transactions.Publisher.{
  Joined, publisher_rounds, publisher_round, take_first, perform,
}
use simple_cgate.Transactions.Kinds.{TransactionType}
use simple_cgate.Transactions.Queue.{
  all_positive, moved, publisher_rounds-positive, move_order-transactions,
}
use simple_cgate.Database.{Database, create_new_order}
use simple_cgate.Database.Lookups.{
  OrderMade, TradeMade, SecurityMade, create_order-OrderMade, create_trade-TradeMade,
  create_security-SecurityMade, create_new_order-fresh, create_new_order-alias,
}
use simple_cgate.Base.Words.{lt_i32}
use simple_cgate.Events.{EventManager, new_manager}
use simple_cgate.Streams.{Message}
use simple_cgate.Connector.{Connector, GateConfig, order_for}
use simple_cgate.Connector.Rows.{
  CgTime, FutSessContents, MyOrdersLog, orders_log, UserDeal, Reply, message_data,
}
use simple_cgate.Connector.Market.{
  listener_fut_info_stream, session_row, security_for, link_security,
}
use simple_cgate.Connector.Trading.{
  user_deal_row, store_trade, listener_fut_trade_stream, trade_row, orders_log_row, order_action,
}
use simple_cgate.Connector.Orders.{
  order_of, open_part, matches, replied, deliver_all-matches, publisher_callback-order_of,
}
use simple_cgate.Connector.Safety.{IsGate, Gate}
use simple_cgate.Connector.Callbacks.{
  reply, position, Callback, fut_info, fut_trade, deliver, deliver_all, new_connector,
  new_connector-IsGate, deliver_all-Gate,
}
use simple_cgate.Connector.Life.Starts.{IsAble}
use simple_cgate.Connector.Life.Coupled.{IsCoupled}
use simple_cgate.Database.{
  get_order, get_trade, get_security, create_trade, label_trade, create_security, create_order,
  label_security, label_order,
}

abbrev million : ℕ
million = 1000000

instance abbrev millionths : Platform ℕ
millionths = record {
  zero_double = 0;
  add_double = λ a b. a + b;
  sub_double = λ a b. a - b;
  mul_double = λ a b. a * b / million;
  div_double = λ a b. a * million / b;
  double_of_int = λ n. n * million;
  double_of_int64 = λ n. n * million;
  pow_10 = λ n. million;
  eq_double = λ a b. a == b;
  lt_double = λ a b. ltb a b;
  abs_double = λ a. a;
  round_double = λ a. (a + 500000) / million * million;
  int64_of_double = λ a. a / million;
  cg_bcd_get = λ t. (0, 0);
}

abbrev config : GateConfig
config = record {
  broker_code = codes "BR01";
  client_code = codes "C01";
  ip_address = codes "127.0.0.1";
  port = codes "4001";
  is_fast = false;
  tcp = true;
}

abbrev blank_manager : TransactionManager
blank_manager = record {
  publisher = none;
  listener = none;
  connection = none;
  state = DataStreamState.none;
  transactions = [];
  broker_code = none;
  client_code = none;
  exit = true;
  posted = [];
}

abbrev first : Connector ℕ
first = new_connector config 7 (codes "p2tcp://") blank_manager new_manager

abbrev instrument : FutSessContents
instrument = record {
  sess_id = 5;
  isin_id = 70;
  isin = codes "SiZ6";
  limit_up = [];
  limit_down = [];
  buy_deposit = [];
  sell_deposit = [];
  roundto = 2;
  min_step = [];
  step_price = [];
  last_cl_quote = [];
  state = 1;
  multileg_type = 0;
}

abbrev at_noon : CgTime
at_noon = record { year = 2016; month = 12; day = 1; hour = 12; minute = 0; second = 0; msec = 0 }

abbrev added : MyOrdersLog
added = record {
  isin_id = 70;
  amount = 10;
  amount_rest = 10;
  price = [];
  moment = at_noon;
  dir = 1;
  action = 1;
  ext_id = 3;
}

abbrev opening : List Callback
opening =
    fut_info 1 (Message.stream_data 0 instrument)
    ∷ fut_trade 2 (Message.stream_data 0 (orders_log added))
    ∷ []

abbrev left_by : Option (Unit {0} × Connector ℕ) → Connector ℕ
left_by none = first
left_by (some (tt, c)) = c

left_by-IsGate : (o : Option (Unit {0} × Connector ℕ)) → Holds Gate o → IsGate (left_by o)
left_by-IsGate none h = absurd h
left_by-IsGate (some (tt, c)) h = h

loaded : Connector ℕ
unfolding deliver_all
loaded = left_by (deliver_all opening first)

loaded-IsGate : IsGate loaded
unfolding loaded
loaded-IsGate = left_by-IsGate (deliver_all opening first) (
    deliver_all-Gate opening first
      (new_connector-IsGate config 7 (codes "p2tcp://") blank_manager new_manager))

order_or_new : Option (Order ℕ) → Order ℕ
order_or_new none = new_order 0 0
order_or_new (some o) = o

abbrev any_messages : List Callback
any_messages =
    fut_trade 2 (Message.stream_data 0 (orders_log (record added { action = 0 })))
    ∷ reply (message_data (record { user_id = 3; msg_id = 102; code = 0; order_id = 0 }))
    ∷ position 1 Message.clear_deleted
    ∷ fut_info 1 Message.online
    ∷ opening

abbrev deal : UserDeal
deal = record {
  isin_id = 70;
  id_deal = 900;
  amount = 4;
  price = [];
  moment = at_noon;
  ext_id_buy = 3;
  ext_id_sell = 8;
}

-- A `Stop` that the publisher's thread sees at once, and one that lets it empty the queue.
abbrev seen : Joined
seen = record { saw_exit = true; found = DataStreamState.closed; left = DataStreamState.closed }

abbrev drained : Joined
drained = record { saw_exit = false; found = DataStreamState.active; left = DataStreamState.active }

abbrev able : CGate
able = record { conn_new = λ t. some 1; lsn_new = λ t. some 2; msg_new = λ h t. true }

able-IsAble : IsAble able
able-IsAble = record { connects = λ t. refl; listens = λ t. refl }

first-IsCoupled : IsCoupled first
first-IsCoupled = record {
  service_runs = record { flagged = refl; threaded = refl };
  order_runs = record { flagged = refl; threaded = refl };
  common_runs = record { flagged = refl; threaded = refl };
  publisher_runs = refl;
  idle = refl;
}
