-- ===== src/Connector/Life.antt =====
-- PlazaConnector.cpp: connection and disconnection, by command, by the clock, and at the end. `none` is
-- a fault, as the exception of `StartPublisher`, or of the join of a thread that was never started, or a
-- `Stop` of the publisher that never returns. What each `Stop` meets is an argument.
pub mod Starts
pub mod Coupled
pub mod Steps
use simple_cgate.Base.{
  ℕ, ◌+◌, ◌*◌, Bool, true, false, not, ◌&&◌, ◌||◌, Option, none, some, List, [], ◌∷◌, Action,
  update, done, ◌>>=◌, ◌>>◌, if◌then◌else◌, map_some, ltb, ◌==◌, nat_eq,
}
use simple_cgate.Events
use simple_cgate.Events.{Event, event, command, EventType, Command, CommandType}
use simple_cgate.Streams
use simple_cgate.Streams.{
  CGate, DataStream, init_service_streams, init_order_streams, init_common_streams,
}
use simple_cgate.Transactions
use simple_cgate.Transactions.Publisher
use simple_cgate.Entities.Platform.{Platform}
use simple_cgate.Transactions.{TransactionManager}
use simple_cgate.Transactions.Publisher.{Joined}
use simple_cgate.Connector.{Connector, send_event}

-- `localtime_s`: the day of the week, the hour and the minute.
pub record LocalTime : Type 0 where
  pub wday : ℕ
  pub hour : ℕ
  pub minute : ℕ

-- Saturday and Sunday are days off; the times are 9:45 and 23:50.
abbrev pub is_work_time : LocalTime → Bool
is_work_time t =
    let curtime = t.hour * 100 + t.minute in
    not (t.wday == 0) && (not (t.wday == 6) && (ltb 945 curtime && ltb curtime 2350))

module _ {D : Type 0} where
  abbrev pub is_fast_streams : Connector D → Bool
  is_fast_streams c = c.config.is_fast

  -- A call of `Stop` of a stream, and of `StartPublisher`.
  abbrev stop_stream :
      (Connector D → DataStream)
      → (DataStream → Connector D → Connector D)
      → Action (Connector D) (Unit {0})
  stop_stream get put c = map_some (λ s. (tt, put s c)) (Streams.stop (get c))

  abbrev start_publisher : CGate → Action (Connector D) (Unit {0})
  start_publisher cg c =
      map_some (λ (m : TransactionManager). (tt, record c { transaction_mgr = m }))
        (Transactions.start_publisher cg c.connection_string c.config.broker_code
          c.config.client_code c.transaction_mgr)

  unfoldable pub connect : CGate → Action (Connector D) (Unit {0})
  unfolding Streams.start Transactions.start_publisher init_service_streams init_order_streams
      init_common_streams
  connect cg c =
      if c.is_connected
      then some (tt, c)
      else (do
        update (λ (c : Connector D). record c { is_connected = true })
        update (λ (c : Connector D). record c {
          service_stream =
              Streams.start cg (init_service_streams cg) c.connection_string c.service_stream;
        })
        start_publisher cg
        update (λ (c : Connector D). record c {
          order_stream =
              Streams.start cg (init_order_streams (is_fast_streams c) cg) c.connection_string
                c.order_stream;
        })
        update (λ (c : Connector D). record c {
          common_stream =
              Streams.start cg (init_common_streams cg) c.connection_string c.common_stream;
        })
        send_event EventType.connect 0)
          c

  abbrev pub enable_auto_connection : Connector D → Connector D
  enable_auto_connection c = record c { auto_connection_enabled = true }

  abbrev pub disable_auto_connection : Connector D → Connector D
  disable_auto_connection c = record c { auto_connection_enabled = false }

module _ {D : Type 0} ⦃num : Platform D⦄ where
  -- A call of `Stop` of the publisher, which may still post what is queued.
  abbrev stop_publisher : CGate → Joined → Action (Connector D) (Unit {0})
  stop_publisher cg j c =
      map_some (λ (m, db). (tt, record c { transaction_mgr = m; database = db }))
        (Publisher.stop cg j c.transaction_mgr c.database)

  unfoldable pub disconnect : CGate → Joined → Action (Connector D) (Unit {0})
  unfolding Streams.stop Publisher.stop
  disconnect cg j c =
      if c.is_connected
      then (do
        update (λ (c : Connector D). record c { is_connected = false })
        stop_publisher cg j
        stop_stream (λ c. c.common_stream) (λ s c. record c { common_stream = s })
        stop_stream (λ c. c.order_stream) (λ s c. record c { order_stream = s })
        stop_stream (λ c. c.service_stream) (λ s c. record c { service_stream = s })
        send_event EventType.disconnect 0)
          c
      else some (tt, c)

  abbrev pub obey : CGate → Joined → CommandType → Action (Connector D) (Unit {0})
  obey cg j CommandType.command_connect = connect cg
  obey cg j CommandType.command_disconnect = disconnect cg j
  obey cg j _ = done

  unfoldable pub event_process : CGate → Joined → Event → Action (Connector D) (Unit {0})
  unfolding connect disconnect
  event_process cg j (event type g) = done
  event_process cg j (command order) = obey cg j order.type

  -- One round of `AutoConnectionProcess`, by the time that it reads.
  unfoldable pub auto_connection_round :
      CGate → Joined → LocalTime → Action (Connector D) (Unit {0})
  unfolding connect disconnect
  auto_connection_round cg j t c =
      if c.auto_connection_enabled
      then (if is_work_time t then connect cg c else disconnect cg j c)
      else some (tt, c)

  -- The destructor of the connector whose consumer has this id.
  unfoldable pub destroy_connector : CGate → Joined → ℕ → Action (Connector D) (Unit {0})
  unfolding disconnect
  destroy_connector cg j id = do
    update (λ (c : Connector D). record c {
      event_manager = Events.remove_consumer id c.event_manager;
    })
    update disable_auto_connection
    disconnect cg j
