-- ===== src/Connector/Life/Steps.antt =====
-- PlazaConnector.cpp: any sequence of what connects and disconnects.
use simple_cgate.Base.{
  ◌≡◌, arith, ◌&&◌, Bool, true, false, Option, some, List, [], ◌∷◌, Action, Holds, >>=-Holds,
  Holds-map, update, done, ◌>>◌, if◌then◌else◌,
}
use simple_cgate.Streams.{CGate}
use simple_cgate.Entities.Platform.{Platform}
use simple_cgate.Transactions.Publisher.{Joined}
use simple_cgate.Transactions.Stopping.{lets_go}
use simple_cgate.Events.{Event, event, command, CommandType}
use simple_cgate.Connector.{Connector}
use simple_cgate.Connector.Life.{
  connect, disconnect, obey, event_process, auto_connection_round, LocalTime, is_work_time,
  enable_auto_connection, disable_auto_connection,
}
use simple_cgate.Connector.Life.Starts.{IsAble}
use simple_cgate.Connector.Life.Coupled.{IsCoupled, connect-IsCoupled, disconnect-IsCoupled}

-- What the connector's life is made of: events, rounds of the clock's thread, and the switch for it; with
-- what a `Stop` meets, should there be one.
pub data LifeStep : Type 0 where
  consume : Joined → Event → LifeStep
  tick : Joined → LocalTime → LifeStep
  enable disable : LifeStep

-- No `Stop` is held up.
abbrev pub all_let_go : List LifeStep → Bool
all_let_go [] = true
all_let_go (consume j ev ∷ xs) = lets_go j && all_let_go xs
all_let_go (tick j t ∷ xs) = lets_go j && all_let_go xs
all_let_go (enable ∷ xs) = all_let_go xs
all_let_go (disable ∷ xs) = all_let_go xs

module _ {D : Type 0} ⦃num : Platform D⦄ where
  unfoldable pub life_step : CGate → LifeStep → Action (Connector D) (Unit {0})
  unfolding event_process auto_connection_round
  life_step cg (consume j ev) = event_process cg j ev
  life_step cg (tick j t) = auto_connection_round cg j t
  life_step cg enable = update enable_auto_connection
  life_step cg disable = update disable_auto_connection

  unfoldable pub life_run : CGate → List LifeStep → Action (Connector D) (Unit {0})
  life_run cg [] = done
  life_run cg (x ∷ xs) = life_step cg x >> life_run cg xs

  abbrev pub Coupled : Unit {0} → Connector D → Type 0
  Coupled _ c = IsCoupled c

  connect-Coupled :
      (cg : CGate) (c : Connector D) → IsAble cg → IsCoupled c → Holds Coupled (connect cg c)
  connect-Coupled cg c able v =
      Holds-map (λ c'. IsCoupled c' × (c'.is_connected ≡ true)) IsCoupled (connect cg c)
        (connect-IsCoupled cg c able v) (λ c' e p. p.0)

  disconnect-Coupled :
      (cg : CGate) (j : Joined) (c : Connector D)
      → lets_go j ≡ true
      → IsCoupled c
      → Holds Coupled (disconnect cg j c)
  disconnect-Coupled cg j c go v =
      Holds-map (λ c'. IsCoupled c' × (c'.is_connected ≡ false)) IsCoupled (disconnect cg j c)
        (disconnect-IsCoupled cg j c go v) (λ c' e p. p.0)

  switched-IsCoupled :
      (c : Connector D) (b : Bool)
      → IsCoupled c
      → IsCoupled (record c { auto_connection_enabled = b })
  switched-IsCoupled c b v = record {
    service_runs = v.service_runs;
    order_runs = v.order_runs;
    common_runs = v.common_runs;
    publisher_runs = v.publisher_runs;
    idle = v.idle;
  }

  event_process-Coupled :
      (cg : CGate) (j : Joined) (ev : Event) (c : Connector D)
      → IsAble cg
      → lets_go j ≡ true
      → IsCoupled c
      → Holds Coupled (event_process cg j ev c)
  unfolding event_process
  event_process-Coupled cg j (event type g) c able go v = v
  event_process-Coupled cg j (command order) c able go v = ordered order.type
    where
      ordered : (t : CommandType) → Holds Coupled (obey cg j t c)
      ordered CommandType.command_connect = connect-Coupled cg c able v
      ordered CommandType.command_disconnect = disconnect-Coupled cg j c go v
      ordered CommandType.command_start = v
      ordered CommandType.command_stop = v

  if_Coupled :
      (b : Bool) (f g : Option (Unit {0} × Connector D))
      → Holds Coupled f
      → Holds Coupled g
      → Holds Coupled (if b then f else g)
  if_Coupled true f g h k = h
  if_Coupled false f g h k = k

  tick-Coupled :
      (cg : CGate) (j : Joined) (t : LocalTime) (c : Connector D)
      → IsAble cg
      → lets_go j ≡ true
      → IsCoupled c
      → Holds Coupled (auto_connection_round cg j t c)
  unfolding auto_connection_round
  tick-Coupled cg j t c able go v =
      if_Coupled c.auto_connection_enabled _ (some (tt, c))
        (if_Coupled (is_work_time t) _ _ (connect-Coupled cg c able v)
          (disconnect-Coupled cg j c go v))
        v

  life_step-Coupled :
      (cg : CGate) (x : LifeStep) (xs : List LifeStep) (c : Connector D)
      → IsAble cg
      → all_let_go (x ∷ xs) ≡ true
      → IsCoupled c
      → Holds Coupled (life_step cg x c) × (all_let_go xs ≡ true)
  unfolding life_step
  life_step-Coupled cg (consume j ev) xs c able go v =
      (event_process-Coupled cg j ev c able (ground arith) v, ground arith)
  life_step-Coupled cg (tick j t) xs c able go v =
      (tick-Coupled cg j t c able (ground arith) v, ground arith)
  life_step-Coupled cg enable xs c able go v = (switched-IsCoupled c true v, go)
  life_step-Coupled cg disable xs c able go v = (switched-IsCoupled c false v, go)

  -- While the library makes what it is asked for, and in every `Stop` of the publisher its thread sees the
  -- flag before it takes the lock or finds the connection active, no sequence of events, of rounds of the
  -- clock's thread and of its switching on and off faults or hangs, from a connector with no order in its
  -- queue on, whose streams run exactly if it is connected. After it each of the three streams has its
  -- thread and is not told to end exactly if the connector is connected; nor is the publisher.
  pub life_run-Coupled :
      (cg : CGate) (xs : List LifeStep) (c : Connector D)
      → IsAble cg
      → all_let_go xs ≡ true
      → IsCoupled c
      → Holds Coupled (life_run cg xs c)
  unfolding life_run
  life_run-Coupled cg [] c able go v = v
  life_run-Coupled cg (x ∷ xs) c able go v =
      let step = life_step-Coupled cg x xs c able go v in
      >>=-Holds Coupled Coupled (life_step cg x) (λ _. life_run cg xs) c step.0
        (λ _ c' v'. life_run-Coupled cg xs c' able step.1 v')
