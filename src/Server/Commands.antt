-- ===== src/Server/Commands.antt =====
-- DataServer.cpp, EventManager.cpp and PlazaConnector.cpp: the GUI's commands, from the bytes of a
-- request over the dispatcher to the connector.
use simple_cgate.Base.{
  ℕ, ◌≡◌, refl, ap, ◌∙◌, arith, Bool, true, false, [], ◌∷◌, ◌++◌, Holds, Holds-map, nat_eq,
  replicate,
}
use simple_cgate.Events.{command, Command, EventManager, add_command_event}
use simple_cgate.Events.Delivery.{queue, times, queue-notify_all}
use simple_cgate.Streams.{CGate}
use simple_cgate.Entities.Platform.{Platform}
use simple_cgate.Transactions.Publisher.{Joined}
use simple_cgate.Transactions.Stopping.{lets_go}
use simple_cgate.Connector.{Connector}
use simple_cgate.Connector.Life
use simple_cgate.Connector.Life.Starts.{IsAble}
use simple_cgate.Connector.Life.Coupled.{IsCoupled, connect-IsCoupled, disconnect-IsCoupled}
use simple_cgate.Server.{DataServer}
use simple_cgate.Server.Messages.{
  ClientRequest, DataType, data_type_code, RequestType, request_type_code, request_bytes,
}
use simple_cgate.Server.Requests.{
  Served, Reply, connect_command, disconnect_command, serve, checked_request, request_process_round,
}
use simple_cgate.Server.Client.{IsRequest, read_request-request_bytes}

-- The request and the command that ask for a connection, or for its end.
abbrev pub request_for_link : Bool → RequestType
request_for_link true = RequestType.connect
request_for_link false = RequestType.disconnect

abbrev pub command_for_link : Bool → Command
command_for_link true = connect_command
command_for_link false = disconnect_command

queue-add_command_event :
    (x : Command) (j : ℕ) (m : EventManager)
    → times j m.consumers ≡ 1
    → queue j (add_command_event x m) ≡ queue j m ++ command x ∷ []
unfolding add_command_event
queue-add_command_event x j m once =
    queue-notify_all m.consumers j (command x) m
    ∙ ap (λ n. queue j m ++ replicate n (command x)) once

module _ {D : Type 0} ⦃num : Platform D⦄ where
  serve-link :
      (on : Bool) (r : ClientRequest) (s : DataServer D) (m : EventManager)
      → r.req_type ≡ request_type_code (request_for_link on)
      → serve r s m ≡ (Served.answered Reply.ok, add_command_event (command_for_link on) m)
  unfolding serve
  serve-link true r s m e = rw e refl
  serve-link false r s m e = rw e refl

  round-link :
      (on : Bool) (r : ClientRequest) (s : DataServer D) (m : EventManager)
      → IsRequest r
      → r.type ≡ data_type_code DataType.request
      → r.req_type ≡ request_type_code (request_for_link on)
      → s.exit ≡ false
      → request_process_round (request_bytes r) s m
        ≡ (Served.answered Reply.ok, add_command_event (command_for_link on) m)
  unfolding request_process_round checked_request
  round-link on r s m fits t e runs =
      ground (arith, runs, t, read_request-request_bytes r fits, serve-link on r s m e)

  obeyed :
      (on : Bool) (cg : CGate) (t : Joined) (c : Connector D)
      → IsAble cg
      → lets_go t ≡ true
      → IsCoupled c
      → Holds
          (λ _ c'. c'.is_connected ≡ on)
          (Life.event_process cg t (command (command_for_link on)) c)
  unfolding Life.event_process
  obeyed true cg t c able go v =
      Holds-map (λ c'. IsCoupled c' × (c'.is_connected ≡ true)) (λ c'. c'.is_connected ≡ true)
        (Life.connect cg c) (connect-IsCoupled cg c able v) (λ c' e p. p.1)
  obeyed false cg t c able go v =
      Holds-map (λ c'. IsCoupled c' × (c'.is_connected ≡ false)) (λ c'. c'.is_connected ≡ false)
        (Life.disconnect cg t c) (disconnect-IsCoupled cg t c go v) (λ c' e p. p.1)

  abbrev pub Obeyed :
      Bool → ℕ → CGate → Joined → EventManager → Connector D → Served D × EventManager → Type 0
  Obeyed on j cg t m c (served, m') =
      (served ≡ Served.answered Reply.ok)
      × (queue j m' ≡ queue j m ++ command (command_for_link on) ∷ [])
      × Holds (λ _ c'. c'.is_connected ≡ on)
          (Life.event_process cg t (command (command_for_link on)) c)

  -- A running server answers a request for a connection, or for its end, and puts one command at the end
  -- of the queue of a connector that is registered once. A connector with no order in its queue, whose
  -- streams run exactly if it is connected, processes the command without a fault, while the library makes
  -- what it is asked for, and if in the `Stop` of the publisher its thread sees the flag before it takes
  -- the lock or finds the connection active; it is then connected, or not, as was asked.
  pub request_process_round-Obeyed :
      (on : Bool) (r : ClientRequest) (j : ℕ) (cg : CGate) (t : Joined) (s : DataServer D)
      (m : EventManager) (c : Connector D)
      → IsRequest r
      → r.type ≡ data_type_code DataType.request
      → r.req_type ≡ request_type_code (request_for_link on)
      → s.exit ≡ false
      → times j m.consumers ≡ 1
      → IsAble cg
      → lets_go t ≡ true
      → IsCoupled c
      → Obeyed on j cg t m c (request_process_round (request_bytes r) s m)
  request_process_round-Obeyed on r j cg t s m c fits u e runs once able go v =
      rw (round-link on r s m fits u e runs)
        (refl, queue-add_command_event (command_for_link on) j m once, obeyed on cg t c able go v)
