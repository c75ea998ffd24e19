-- ===== src/Server/Runs.antt =====
-- DataServer.cpp: the rounds of the server's three threads, one after the other in any order.
use simple_cgate.Base.{
  ℕ, ◌≡◌, refl, ap, Bool, true, false, Option, none, some, List, [], ◌∷◌, map_some, bind_some,
  if◌then◌else◌,
}
use simple_cgate.Entities.Platform.{Platform}
use simple_cgate.Database.{Database}
use simple_cgate.Events.{Event, EventManager}
use simple_cgate.Server.{
  DataServer, event_process, stream_process_round, publish_server_data, new_data_server,
}
use simple_cgate.Server.Messages.{Message}
use simple_cgate.Server.Requests.{Served, request_process_round}
use simple_cgate.Server.Log.{Represents, log_event, log_request}
use simple_cgate.Server.Refines.{RefinesLog, event_process-RefinesLog, request_process_round-log}

-- What ends the program: an exception that leaves the function of a thread, and a null pointer that is
-- copied from.
abbrev pub proceed :
    {D S : Type 0} → Served D → Option (List (Served D) × S) → Option (List (Served D) × S)
proceed Served.thrown rest = none
proceed Served.null_copied rest = none
proceed served rest = map_some (λ (rs, s). (served ∷ rs, s)) rest

-- A socket that owes an answer refuses to receive: the message stays empty, whatever a client sends.
abbrev pub is_unanswered : {D : Type 0} → Served D → Bool
is_unanswered Served.unanswered = true
is_unanswered _ = false

abbrev pub received : Bool → List ℕ → List ℕ
received owes bytes = if owes then [] else bytes

-- An event with the database as it is by then, a round of the publisher, or what a client sends.
pub data Step (D : Type 0) : Type 0 where
  process : Event → Database D → Step D
  broadcast : Step D
  request : List ℕ → Step D

module _ {D : Type 0} ⦃num : Platform D⦄ where
  -- The rounds of `DataServer`: what the requests led to, and the server; `none` where the program ends.
  -- The flag says whether the socket owes an answer.
  unfoldable pub run :
      Bool → List (Step D) → DataServer D → EventManager → Option (List (Served D) × DataServer D)
  unfolding event_process stream_process_round request_process_round
  run owes [] s manager = some ([], s)
  run owes (process ev db ∷ steps) s manager =
      bind_some (event_process ev db s) λ s'. run owes steps s' manager
  run owes (broadcast ∷ steps) s manager = run owes steps (stream_process_round s).1 manager
  run owes (request bytes ∷ steps) s manager =
      let (served, manager') = request_process_round (received owes bytes) s manager in
      proceed served (run (is_unanswered served) steps s manager')

  -- The same steps, on the log alone.
  unfoldable pub log_run :
      Bool → List (Step D) → List (Message D) → Option (List (Served D) × List (Message D))
  unfolding log_event
  log_run owes [] log = some ([], log)
  log_run owes (process ev db ∷ steps) log = bind_some (log_event ev db log) (log_run owes steps)
  log_run owes (broadcast ∷ steps) log = log_run owes steps log
  log_run owes (request bytes ∷ steps) log =
      let served = log_request (received owes bytes) log in
      proceed served (log_run (is_unanswered served) steps log)

  abbrev pub RefinesRun :
      Option (List (Served D) × DataServer D) → Option (List (Served D) × List (Message D)) → Type 0
  RefinesRun none none = Unit
  RefinesRun (some (rs, s)) (some (rs', log)) = (rs ≡ rs') × Represents s log
  RefinesRun _ _ = ⊥

  new_data_server-Represents :
      (manager : EventManager) → Represents {D = D} (new_data_server manager).0 []
  unfolding new_data_server
  new_data_server-Represents manager = record {
    runs = refl;
    messages = refl;
    counted = refl;
    money = refl;
  }

  stream_process_round-Represents :
      (s : DataServer D) (log : List (Message D))
      → Represents s log
      → Represents (stream_process_round s).1 log
  unfolding stream_process_round
  stream_process_round-Represents s log r = go s.exit
    where
      go :
          (b : Bool)
          → Represents
              (if◌then◌else◌ {A = List (Message D) × DataServer D} b
                ([], s)
                (s.stream_messages, publish_server_data (record s { stream_messages = [] }))).1
              log
      go true = r
      go false = record {
        runs = r.runs;
        messages = r.messages;
        counted = r.counted;
        money = r.money;
      }

  RefinesRun-proceed :
      (a b : Served D) (o : Option (List (Served D) × DataServer D))
      (p : Option (List (Served D) × List (Message D)))
      → a ≡ b
      → RefinesRun o p
      → RefinesRun (proceed a o) (proceed b p)
  RefinesRun-proceed a b o p e h = rw e (same b o p h)
    where
      cons :
          (b : Served D) (o : Option (List (Served D) × DataServer D))
          (p : Option (List (Served D) × List (Message D)))
          → RefinesRun o p
          → RefinesRun (map_some (λ (rs, s). (b ∷ rs, s)) o) (map_some (λ (rs, l). (b ∷ rs, l)) p)
      cons b none none h = h
      cons b none (some _) h = h
      cons b (some _) none h = h
      cons b (some (rs, s)) (some (rs', l)) (same, r) = (ap (λ l. b ∷ l) same, r)

      same :
          (b : Served D) (o : Option (List (Served D) × DataServer D))
          (p : Option (List (Served D) × List (Message D)))
          → RefinesRun o p
          → RefinesRun (proceed b o) (proceed b p)
      same Served.thrown o p h = tt
      same Served.null_copied o p h = tt
      same Served.stopped o p h = cons Served.stopped o p h
      same Served.unanswered o p h = cons Served.unanswered o p h
      same (Served.answered r) o p h = cons (Served.answered r) o p h

  bind_some-RefinesRun :
      (o : Option (DataServer D)) (l : Option (List (Message D)))
      (f : DataServer D → Option (List (Served D) × DataServer D))
      (g : List (Message D) → Option (List (Served D) × List (Message D)))
      → RefinesLog o l
      → ((s : DataServer D) (log : List (Message D)) → Represents s log → RefinesRun (f s) (g log))
      → RefinesRun (bind_some o f) (bind_some l g)
  bind_some-RefinesRun none none f g h k = tt
  bind_some-RefinesRun none (some _) f g h k = absurd h
  bind_some-RefinesRun (some _) none f g h k = absurd h
  bind_some-RefinesRun (some s) (some log) f g h k = k s log h

  pub run-RefinesRun :
      (owes : Bool) (steps : List (Step D)) (s : DataServer D) (manager : EventManager)
      (log : List (Message D))
      → Represents s log
      → RefinesRun (run owes steps s manager) (log_run owes steps log)
  unfolding run log_run
  run-RefinesRun owes [] s manager log r = (refl, r)
  run-RefinesRun owes (process ev db ∷ steps) s manager log r =
      bind_some-RefinesRun _ _ _ _ (event_process-RefinesLog ev db s log r)
        (λ s' log'. run-RefinesRun owes steps s' manager log')
  run-RefinesRun owes (broadcast ∷ steps) s manager log r =
      run-RefinesRun owes steps (stream_process_round s).1 manager log
        (stream_process_round-Represents s log r)
  run-RefinesRun owes (request bytes ∷ steps) s manager log r = RefinesRun-proceed _ _ _ _ same (
      rw same (
        run-RefinesRun (is_unanswered (log_request (received owes bytes) log)) steps s
          (request_process_round (received owes bytes) s manager).1 log r))
    where
      same :
          (request_process_round (received owes bytes) s manager).0
          ≡ log_request (received owes bytes) log
      same = request_process_round-log (received owes bytes) s manager log r

  -- A new server, over any sequence of events, rounds of its publisher and requests, answers every
  -- request as a log of messages does that only grows, to which new objects, deals, changes of orders
  -- and the first report of the funds are appended. The program ends exactly where the log says so: where
  -- a message cannot be filled, and where what is received is no request, which it also is not once a
  -- request was left without an answer.
  pub run-refines :
      (steps : List (Step D)) (manager : EventManager)
      → RefinesRun
          (run false steps (new_data_server {D = D} manager).0 (new_data_server {D = D} manager).1)
          (log_run false steps [])
  run-refines steps manager =
      run-RefinesRun false steps _ (new_data_server {D = D} manager).1 []
        (new_data_server-Represents manager)
