-- ===== src/Connector/Life/Starts.antt =====
-- DataStream.cpp and TransactionManager.cpp: streams and a publisher that are started and stopped.
use simple_cgate.Base.{
  ℕ, ◌≡◌, refl, arith, Bool, true, false, not, Option, none, some, [], ◌∷◌, ◌++◌, Text, is_some,
  map_some,
}
use simple_cgate.Streams
use simple_cgate.Streams.{
  with_listener, plaza_stream, start_thread, CGate, DataStream, init_service_streams,
  init_order_streams, init_common_streams,
}
use simple_cgate.Streams.States.{DataStreamState}
use simple_cgate.Transactions
use simple_cgate.Transactions.{TransactionManager}

-- A library that makes every connection and every listener that it is asked for.
pub record IsAble (cg : CGate) : Type 0 where
  pub connects : (t : Text) → is_some (cg.conn_new t) ≡ true
  pub listens : (t : Text) → is_some (cg.lsn_new t) ≡ true

-- A stream that runs, with its thread, or one that does not.
pub record Runs (b : Bool) (s : DataStream) : Type 0 where
  pub flagged : s.exit ≡ not b
  pub threaded : s.has_thread ≡ b

-- A listener that is made leaves the stream's flag as it was.
with_listener-Runs :
    (cg : CGate) (name settings : Text) (w : Bool) (s : DataStream) (next : DataStream → DataStream)
    → IsAble cg
    → s.exit ≡ false
    → ((s1 : DataStream) → s1.exit ≡ false → Runs true (next s1))
    → Runs true (with_listener cg name settings w s next)
with_listener-Runs cg name settings w s next able e k =
    made (cg.lsn_new settings) (able.listens settings)
  where
    made :
        (o : Option ℕ)
        → is_some o ≡ true
        → Runs true (elim o [
          | none ↦ s
          | some l ↦ next (record s {
            plaza_streams =
                s.plaza_streams
                ++ record (plaza_stream name) { listener = some l; is_active = true; wait_for = w }
                  ∷ [];
          })
        ])
    made none u = absurd (ground arith)
    made (some l) u = k _ e

start_thread-Runs : (s : DataStream) → s.exit ≡ false → Runs true (start_thread s)
start_thread-Runs s e = record { flagged = e; threaded = refl }

module _ (cg : CGate) (able : IsAble cg) where
  pub init_service_streams-Runs :
      (s : DataStream) → s.exit ≡ false → Runs true (init_service_streams cg s)
  unfolding init_service_streams
  init_service_streams-Runs s e = search (with_listener-Runs, start_thread-Runs)

  pub init_order_streams-Runs :
      (fast : Bool) (s : DataStream) → s.exit ≡ false → Runs true (init_order_streams fast cg s)
  unfolding init_order_streams
  init_order_streams-Runs fast s e = search (with_listener-Runs, start_thread-Runs)

  pub init_common_streams-Runs :
      (s : DataStream) → s.exit ≡ false → Runs true (init_common_streams cg s)
  unfolding init_common_streams
  init_common_streams-Runs s e = search (with_listener-Runs, start_thread-Runs)

pub start-Runs :
    (cg : CGate) (init : DataStream → DataStream) (t : Text) (s : DataStream)
    → ((s1 : DataStream) → s1.exit ≡ false → Runs true (init s1))
    → s.exit ≡ true
    → Runs true (Streams.start cg init t s)
unfolding Streams.start
start-Runs cg init t s k e = rw e (k _ refl)

abbrev pub stopped : DataStream → DataStream
stopped s = record s {
  exit = true;
  state = DataStreamState.none;
  has_thread = false;
  connection = none;
  plaza_streams = [];
}

pub stop-Runs : (s : DataStream) → Runs true s → Streams.stop s ≡ some (stopped s)
unfolding Streams.stop
stop-Runs s r = ground (arith, r.flagged, r.threaded)

pub stopped-Runs : (s : DataStream) → Runs false (stopped s)
stopped-Runs s = record { flagged = refl; threaded = refl }

map_some-made :
    {A B : Type 0} (P : B → Type 0) (f : A → B) (o : Option A)
    → is_some o ≡ true
    → ((a : A) → P (f a))
    → (b : B) × (map_some f o ≡ some b) × P b
map_some-made P f none h k = absurd (ground arith)
map_some-made P f (some a) h k = (f a, refl, k a)

pub start_publisher_lem :
    (cg : CGate) (t broker client : Text) (m : TransactionManager)
    → IsAble cg
    → (m' : TransactionManager) × (Transactions.start_publisher cg t broker client m ≡ some m')
      × ((m'.exit ≡ false) × (m'.transactions ≡ m.transactions))
unfolding Transactions.start_publisher
start_publisher_lem cg t broker client m able =
    map_some-made (λ (x : TransactionManager). (x.exit ≡ false) × (x.transactions ≡ m.transactions))
      _ _ (able.connects _) (λ a. (refl, refl))
