-- ===== src/Connector/Callbacks.antt =====
-- All that the CGate library may call, in any order: the callbacks of the listeners and of the
-- publisher, as one step of the connector. The threads of the streams call concurrently; the model
-- takes their calls one at a time.
use simple_cgate.Base.{
  ℕ, ◌*◌, refl, List, [], ◌∷◌, Action, done, Holds, >>=-Holds, empty_map, ◌>>◌, false, Text,
}
use simple_cgate.Entities.Platform.{Platform}
use simple_cgate.Events
use simple_cgate.Events.{EventManager}
use simple_cgate.Database.{new_database}
use simple_cgate.Database.Valid.{IsValid}
use simple_cgate.Streams.{Message, new_service_stream, new_order_stream, new_common_stream}
use simple_cgate.Transactions.{TransactionManager, new_transaction_manager}
use simple_cgate.Connector.{Connector, GateConfig}
use simple_cgate.Connector.Rows.{
  Part, FutVm, PositionRow, FutSessContents, FutCommon, TradeRow, PublisherMessage,
}
use simple_cgate.Connector.Market.{
  listener_part_stream, listener_fut_info_stream, listener_fut_common_stream, listener_vm_stream,
  listener_position_stream,
}
use simple_cgate.Connector.Trading.{listener_fut_trade_stream}
use simple_cgate.Connector.Replies.{publisher_callback}
use simple_cgate.Connector.Safety.{IsGate, Gate}
use simple_cgate.Connector.Safety.Market.{
  listener_part_stream-Gate, listener_fut_info_stream-Gate, listener_fut_common_stream-Gate,
  listener_vm_stream-Gate, listener_position_stream-Gate,
}
use simple_cgate.Connector.Safety.Trading.{listener_fut_trade_stream-Gate}
use simple_cgate.Connector.Safety.Replies.{publisher_callback-Gate}

pub data Callback : Type 0 where
  part : ℕ → Message Part → Callback
  fut_info : ℕ → Message FutSessContents → Callback
  vm : ℕ → Message FutVm → Callback
  position : ℕ → Message PositionRow → Callback
  fut_common : ℕ → Message FutCommon → Callback
  fut_trade : ℕ → Message TradeRow → Callback
  reply : PublisherMessage → Callback

module _ {D : Type 0} ⦃num : Platform D⦄ where
  -- The constructor of the connector, in a fresh program; the configuration and the application's id
  -- are what was read and drawn, and the transaction manager is made in some memory. The connector registers itself with the dispatcher.
  abbrev pub new_connector : GateConfig → ℕ → Text → TransactionManager → EventManager → Connector D
  new_connector config app_id connection_string memory events = record {
    database = new_database;
    event_manager = registered;
    securities_id = empty_map;
    last_sess_id = 0;
    config = config;
    app_id = app_id;
    transaction_id = app_id * 1000000;
    connection_string = connection_string;
    is_connected = false;
    service_stream = new_service_stream;
    order_stream = new_order_stream;
    common_stream = new_common_stream;
    transaction_mgr = new_transaction_manager memory;
    auto_connection_enabled = false;
  }
    where
      registered : EventManager
      registered = let (id, m) = Events.new_consumer events in Events.add_new_consumer id m

  -- The wrappers (`PartWrapper` and its siblings) pass each message to its callback.
  unfoldable pub deliver : Callback → Action (Connector D) (Unit {0})
  unfolding listener_part_stream listener_fut_info_stream listener_fut_common_stream
      listener_vm_stream listener_position_stream listener_fut_trade_stream publisher_callback
  deliver (part l msg) = listener_part_stream l msg
  deliver (fut_info l msg) = listener_fut_info_stream l msg
  deliver (vm l msg) = listener_vm_stream l msg
  deliver (position l msg) = listener_position_stream l msg
  deliver (fut_common l msg) = listener_fut_common_stream l msg
  deliver (fut_trade l msg) = listener_fut_trade_stream l msg
  deliver (reply msg) = publisher_callback msg

  unfoldable pub deliver_all : List Callback → Action (Connector D) (Unit {0})
  unfolding deliver
  deliver_all [] = done
  deliver_all (cb ∷ cbs) = deliver cb >> deliver_all cbs

  pub deliver-Gate : (cb : Callback) (c : Connector D) → IsGate c → Holds Gate (deliver cb c)
  unfolding deliver
  deliver-Gate (part l msg) c v = listener_part_stream-Gate l msg c v
  deliver-Gate (fut_info l msg) c v = listener_fut_info_stream-Gate l msg c v
  deliver-Gate (vm l msg) c v = listener_vm_stream-Gate l msg c v
  deliver-Gate (position l msg) c v = listener_position_stream-Gate l msg c v
  deliver-Gate (fut_common l msg) c v = listener_fut_common_stream-Gate l msg c v
  deliver-Gate (fut_trade l msg) c v = listener_fut_trade_stream-Gate l msg c v
  deliver-Gate (reply msg) c v = publisher_callback-Gate msg c v

  -- Whatever the exchange sends, in whatever order, no callback fails an assertion or follows a null
  -- pointer: every sequence of calls on a well-formed connector ends, and leaves it well formed.
  pub deliver_all-Gate :
      (cbs : List Callback) (c : Connector D) → IsGate c → Holds Gate (deliver_all cbs c)
  unfolding deliver_all
  deliver_all-Gate [] c v = v
  deliver_all-Gate (cb ∷ cbs) c v =
      >>=-Holds Gate Gate (deliver cb) (λ _. deliver_all cbs) c (deliver-Gate cb c v)
        (λ _ d w. deliver_all-Gate cbs d w)

  empty-IsValid : IsValid (new_database {D = D})
  empty-IsValid = record {
    heap_ok = record {
      fresh_securities = λ p le. refl;
      fresh_orders = λ p le. refl;
      fresh_trades = λ p le. refl;
      fresh_positions = λ p le. refl;
      order_security = λ p a e. cc;
      trade_security = λ p a e. cc;
      trade_order = λ p a e. cc;
      position_security = λ p a e. cc;
    };
    securities_ok = λ k p e. cc;
    orders_ok = λ k p e. cc;
    trades_ok = λ k p e. cc;
    positions_ok = λ k p e. cc;
    entities_ok = λ g e u. cc;
  }

  -- The connector of a fresh program is well formed.
  pub new_connector-IsGate :
      (config : GateConfig) (app_id : ℕ) (conn : Text) (memory : TransactionManager)
      (events : EventManager)
      → IsGate (new_connector config app_id conn memory events)
  new_connector-IsGate config app_id conn memory events = record {
    database_ok = empty-IsValid;
    linked = λ id p e. cc;
  }
