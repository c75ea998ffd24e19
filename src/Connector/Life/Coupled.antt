-- ===== src/Connector/Life/Coupled.antt =====
-- PlazaConnector.cpp: the connector's flag, and what its streams and its publisher are doing.
use simple_cgate.Base.{
  ◌≡◌, ◌∙◌, refl, arith, Bool, true, false, not, Option, none, some, [], ◌∷◌, ◌++◌, map_some,
  if◌then◌else◌, Holds, Bool-cases, inl, inr,
}
use simple_cgate.Streams
use simple_cgate.Streams.{
  with_listener, plaza_stream, start_thread, CGate, DataStream, init_service_streams,
  init_order_streams, init_common_streams,
}
use simple_cgate.Events
use simple_cgate.Transactions
use simple_cgate.Transactions.Publisher
use simple_cgate.Transactions.{TransactionManager, Transaction}
use simple_cgate.Transactions.Publisher.{Joined, no_transaction}
use simple_cgate.Transactions.Stopping
use simple_cgate.Transactions.Stopping.{is_idle, lets_go, is_idle-append}
use simple_cgate.Database.{Database}
use simple_cgate.Entities.Platform.{Platform}
use simple_cgate.Events.{Event, EventType, event, command, Command, CommandType}
use simple_cgate.Connector.{Connector}
use simple_cgate.Connector.Life.{connect, disconnect}
use simple_cgate.Connector.Life.Starts.{
  IsAble, Runs, stopped, stop-Runs, stopped-Runs, start-Runs, start_publisher_lem,
  init_service_streams-Runs, init_order_streams-Runs, init_common_streams-Runs,
}

module _ {D : Type 0} where
  pub record IsCoupled (c : Connector D) : Type 0 where
    pub service_runs : Runs c.is_connected c.service_stream
    pub order_runs : Runs c.is_connected c.order_stream
    pub common_runs : Runs c.is_connected c.common_stream
    pub publisher_runs : c.transaction_mgr.exit ≡ not c.is_connected
    pub idle : is_idle c.transaction_mgr.transactions ≡ true

  -- The connector after a disconnection.
  abbrev pub disconnected : Joined → Connector D → Connector D
  disconnected j c = record c {
    is_connected = false;
    transaction_mgr = Stopping.stopped j c.transaction_mgr;
    common_stream = stopped c.common_stream;
    order_stream = stopped c.order_stream;
    service_stream = stopped c.service_stream;
    event_manager = Events.add_event EventType.disconnect 0 c.event_manager;
  }

module _ {D : Type 0} ⦃num : Platform D⦄ where
  -- The order in which the parts are stopped; the publisher is the first.
  stopping_lem :
      (cg : CGate) (j : Joined) (c : Connector D) (o : Option (TransactionManager × Database D))
      → IsCoupled c
      → c.is_connected ≡ true
      → Publisher.stop cg j c.transaction_mgr c.database ≡ o
      → disconnect cg j c
        ≡ map_some
            (λ (m, db). (
              tt,
              record c {
                is_connected = false;
                transaction_mgr = m;
                database = db;
                common_stream = stopped c.common_stream;
                order_stream = stopped c.order_stream;
                service_stream = stopped c.service_stream;
                event_manager = Events.add_event EventType.disconnect 0 c.event_manager;
              },
            ))
            o
  unfolding disconnect
  stopping_lem cg j c none v e u = ground arith
  stopping_lem cg j c (some (m, db)) v e u = ground (
    arith,
    stop-Runs c.common_stream (rw⁻¹ e v.common_runs),
    stop-Runs c.order_stream (rw⁻¹ e v.order_runs),
    stop-Runs c.service_stream (rw⁻¹ e v.service_runs),
  )

  -- A connected connector with no order in its queue, whose streams run, is disconnected exactly if in the
  -- `Stop` of the publisher its thread sees the flag before it takes the lock or finds the connection
  -- active: the publisher and the three streams are then stopped, and the event is dispatched. Else the
  -- call does not return.
  pub disconnect-disconnected :
      (cg : CGate) (j : Joined) (c : Connector D)
      → IsCoupled c
      → c.is_connected ≡ true
      → disconnect cg j c ≡ (if lets_go j then some (tt, disconnected j c) else none)
  disconnect-disconnected cg j c v e =
      stopping_lem cg j c _ v e (Stopping.stop-idle cg j c.transaction_mgr c.database v.idle)
      ∙ settled (lets_go j)
    where
      settled :
          (b : Bool)
          → map_some {B = Unit {0} × Connector D}
              (λ (x : TransactionManager × Database D).
                (tt, record (disconnected j c) { transaction_mgr = x.0; database = x.1 }))
              (if b then some (Stopping.stopped j c.transaction_mgr, c.database) else none)
            ≡ (if b then some (tt, disconnected j c) else none)
      settled true = refl
      settled false = refl

  not_connected_lem :
      (cg : CGate) (j : Joined) (c : Connector D)
      → c.is_connected ≡ false
      → disconnect cg j c ≡ some (tt, c)
  unfolding disconnect
  not_connected_lem cg j c e = ground arith

  disconnected-IsCoupled :
      (j : Joined) (c : Connector D) → IsCoupled c → IsCoupled (disconnected j c)
  disconnected-IsCoupled j c v = record {
    service_runs = stopped-Runs c.service_stream;
    order_runs = stopped-Runs c.order_stream;
    common_runs = stopped-Runs c.common_stream;
    publisher_runs = refl;
    idle = left_idle j.saw_exit;
  }
    where
      left_idle :
          (b : Bool)
          → is_idle (if b then c.transaction_mgr.transactions ++ no_transaction ∷ [] else []) ≡ true
      left_idle true = is_idle-append c.transaction_mgr.transactions v.idle
      left_idle false = refl

  pub disconnect-IsCoupled :
      (cg : CGate) (j : Joined) (c : Connector D)
      → lets_go j ≡ true
      → IsCoupled c
      → Holds (λ _ c'. IsCoupled c' × (c'.is_connected ≡ false)) (disconnect cg j c)
  disconnect-IsCoupled cg j c go v = elim (Bool-cases c.is_connected) [
    | inl e ↦ rw (disconnect-disconnected cg j c v e, go) (disconnected-IsCoupled j c v, refl)
    | inr e ↦ rw (not_connected_lem cg j c e) (v, e)
  ]

module _ {D : Type 0} where
  abbrev connected : CGate → TransactionManager → Connector D → Connector D
  connected cg m c = record c {
    is_connected = true;
    service_stream =
        Streams.start cg (init_service_streams cg) c.connection_string c.service_stream;
    transaction_mgr = m;
    order_stream =
        Streams.start cg (init_order_streams c.config.is_fast cg) c.connection_string
          c.order_stream;
    common_stream = Streams.start cg (init_common_streams cg) c.connection_string c.common_stream;
    event_manager = Events.add_event EventType.connect 0 c.event_manager;
  }

  connect_lem :
      (cg : CGate) (m : TransactionManager) (c : Connector D)
      → c.is_connected ≡ false
      → Transactions.start_publisher cg c.connection_string c.config.broker_code
          c.config.client_code c.transaction_mgr
        ≡ some m
      → connect cg c ≡ some (tt, connected cg m c)
  unfolding connect
  connect_lem cg m c e u = ground arith

  is_connected_lem :
      (cg : CGate) (c : Connector D) → c.is_connected ≡ true → connect cg c ≡ some (tt, c)
  unfolding connect
  is_connected_lem cg c e = ground arith

  pub connect-IsCoupled :
      (cg : CGate) (c : Connector D)
      → IsAble cg
      → IsCoupled c
      → Holds (λ _ c'. IsCoupled c' × (c'.is_connected ≡ true)) (connect cg c)
  connect-IsCoupled cg c able v = elim (Bool-cases c.is_connected) [
    | inl e ↦ rw (is_connected_lem cg c e) (v, e)
    | inr e ↦ started e
  ]
    where
      started :
          c.is_connected ≡ false
          → Holds (λ _ c'. IsCoupled c' × (c'.is_connected ≡ true)) (connect cg c)
      started e =
          let (m, u, (w, kept)) =
            start_publisher_lem cg c.connection_string c.config.broker_code c.config.client_code
              c.transaction_mgr able in
          rw (connect_lem cg m c e u) (
            record {
              service_runs =
                  start-Runs cg _ c.connection_string c.service_stream
                    (init_service_streams-Runs cg able) (ground (arith, v.service_runs.flagged));
              order_runs =
                  start-Runs cg _ c.connection_string c.order_stream
                    (init_order_streams-Runs cg able c.config.is_fast)
                    (ground (arith, v.order_runs.flagged));
              common_runs =
                  start-Runs cg _ c.connection_string c.common_stream
                    (init_common_streams-Runs cg able) (ground (arith, v.common_runs.flagged));
              publisher_runs = w;
              idle = rw kept v.idle;
            },
            refl,
          )
