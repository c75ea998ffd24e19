-- ===== src/Server/Refines.antt =====
-- DataServer.cpp: the server, against the log that it stands for.
use simple_cgate.Base.{
  Bool-cases, inl, inr, ℕ, zero, suc, ◌+◌, ◌≡◌, refl, sym, ap, ◌∙◌, arith, Bool, true, false, ◌||◌,
  Option, none, some, List, [], ◌∷◌, ◌++◌, length, length-append, get_elem?, map_some, bind_some,
  if◌then◌else◌, ◌==◌, nat_eq, ◌≤◌,
}
use simple_cgate.Base.Words.{u32, add_32}
use simple_cgate.Entities.Platform.{Platform}
use simple_cgate.Database.{Database}
use simple_cgate.Events.{Event, event, command, EventType, EventManager}
use simple_cgate.Server.{DataServer, event_process, store_message, publish_message, for_object}
use simple_cgate.Server.Messages.{
  DataType, data_type_code, ClientRequest, read_request, ServerData, Message,
}
use simple_cgate.Server.Requests.{
  Served, Reply, request_process_round, serve, checked_request, message_request, get_message_by_num,
}
use simple_cgate.Server.Log.{
  Represents, is_money, has_money, log_message, log_answer, log_request, log_checked, log_event,
  logged, not_logged,
}
use simple_cgate.Server.Fill.{security_by_id, strategy_by_id, trade_by_id, order_by_id, money_data}

-- What holds of the value, where there is one.
abbrev Every : {A : Type 0} → (A → Type 0) → Option A → Type 0
Every P none = Unit
Every P (some a) = P a

bind_some-Every :
    {A B : Type 0} (P : B → Type 0) (o : Option A) (f : A → Option B)
    → ((a : A) → Every P (f a))
    → Every P (bind_some o f)
bind_some-Every P none f h = tt
bind_some-Every P (some a) f h = h a

abbrev count_one : ServerData → ServerData
count_one d = record d { all_messages = add_32 d.all_messages 1 }

abbrev counted_as : ℕ → ServerData
counted_as n = record { type = data_type_code DataType.server; all_messages = n }

module _ {D : Type 0} where
  has_money-append :
      (log : List (Message D)) (m : Message D)
      → has_money (log ++ m ∷ []) ≡ (has_money log || is_money m)
  has_money-append [] m = ground arith
  has_money-append (x ∷ log) m = ground (arith, has_money-append log m)

  get_elem?-length : (log : List (Message D)) (i : ℕ) → length log ≤ i → get_elem? log i ≡ none
  get_elem?-length [] i h = refl
  get_elem?-length (x ∷ log) zero h = absurd (omega arith)
  get_elem?-length (x ∷ log) (suc i) h = get_elem?-length log i (omega arith)

  get_elem?-none : (log : List (Message D)) (i : ℕ) → get_elem? log i ≡ none → length log ≤ i
  get_elem?-none [] i h = omega arith
  get_elem?-none (x ∷ log) zero h = absurd (ground arith)
  get_elem?-none (x ∷ log) (suc i) h = omega (arith, get_elem?-none log i h)

  abbrev IsOther : Message D → Type 0
  IsOther m = is_money m ≡ false

  pub publish_message-Represents :
      (m : Message D) (s : DataServer D) (log : List (Message D))
      → Represents s log
      → Represents (publish_message m s) log
  publish_message-Represents m s log r = record {
    runs = r.runs;
    messages = r.messages;
    counted = r.counted;
    money = r.money;
  }

  count_of-append :
      (log : List (Message D)) (m : Message D)
      → u32 (u32 (length log) + 1) ≡ u32 (length (log ++ m ∷ []))
  count_of-append log m = rw (length-append log (m ∷ [])) (omega arith)

  stored-Represents :
      (m : Message D) (b : Bool) (s : DataServer D) (log : List (Message D))
      → b ≡ (has_money log || is_money m)
      → Represents s log
      → Represents (record (store_message m s) { money_init = b }) (log ++ m ∷ [])
  unfolding store_message
  stored-Represents m b s log flag r = record {
    runs = r.runs;
    messages = ap (λ l. l ++ m ∷ []) r.messages;
    counted = ap count_one r.counted ∙ ap counted_as (count_of-append log m);
    money = flag ∙ sym (has_money-append log m);
  }

  store_message-Represents :
      (m : Message D) (s : DataServer D) (log : List (Message D))
      → IsOther m
      → Represents s log
      → Represents (store_message m s) (log ++ m ∷ [])
  unfolding store_message
  store_message-Represents m s log other r =
      stored-Represents m s.money_init s log (ground (arith, r.money)) r

  -- Where an event that is logged is processed, so it is in the log; and one that is not.
  abbrev pub RefinesLog : Option (DataServer D) → Option (List (Message D)) → Type 0
  RefinesLog none none = Unit
  RefinesLog (some s) (some log) = Represents s log
  RefinesLog _ _ = ⊥

  logged-RefinesLog :
      (g : ℕ) (found : Option (Message D)) (s : DataServer D) (log : List (Message D))
      → Every IsOther found
      → Represents s log
      → RefinesLog (for_object g found (λ m. store_message m s) s) (logged g found log)
  logged-RefinesLog g found s log other r = elim (Bool-cases (g == 0)) [
    | inl e ↦ rw e r
    | inr e ↦ rw e (stores found other)
  ]
    where
      stores :
          (o : Option (Message D))
          → Every IsOther o
          → RefinesLog (bind_some o λ m. some (store_message m s)) (map_some (λ m. log ++ m ∷ []) o)
      stores none h = tt
      stores (some m) h = store_message-Represents m s log h r

  not_logged-RefinesLog :
      (g : ℕ) (found : Option (Message D)) (s : DataServer D) (log : List (Message D))
      → Represents s log
      → RefinesLog (for_object g found (λ m. publish_message m s) s) (not_logged g found log)
  not_logged-RefinesLog g found s log r = elim (Bool-cases (g == 0)) [
    | inl e ↦ rw e r
    | inr e ↦ rw e (publishes found)
  ]
    where
      publishes :
          (o : Option (Message D))
          → RefinesLog (bind_some o λ m. some (publish_message m s)) (map_some (λ m. log) o)
      publishes none = tt
      publishes (some m) = publish_message-Represents m s log r

  -- The funds: stored if none were before.
  money-RefinesLog :
      (m : Message D) (b : Bool) (s : DataServer D) (log : List (Message D))
      → is_money m ≡ true
      → b ≡ has_money log
      → Represents s log
      → RefinesLog
          (if b
            then some (publish_message m s)
            else some (record (store_message m s) { money_init = true }))
          (some (if has_money log then log else log ++ m ∷ []))
  money-RefinesLog m true s log h e r = rw (sym e) (publish_message-Represents m s log r)
  money-RefinesLog m false s log h e r =
      rw (sym e) (stored-Represents m true s log (ground arith) r)

module _ {D : Type 0} ⦃num : Platform D⦄ where
  security_by_id-IsOther : (g : ℕ) (db : Database D) → Every IsOther (security_by_id g db)
  security_by_id-IsOther g db = search bind_some-Every

  strategy_by_id-IsOther : (g : ℕ) (db : Database D) → Every IsOther (strategy_by_id g db)
  strategy_by_id-IsOther g db = search bind_some-Every

  trade_by_id-IsOther : (g : ℕ) (db : Database D) → Every IsOther (trade_by_id g db)
  trade_by_id-IsOther g db = search bind_some-Every

  order_by_id-IsOther : (g : ℕ) (db : Database D) → Every IsOther (order_by_id g db)
  order_by_id-IsOther g db = search bind_some-Every

  pub event_process-RefinesLog :
      (ev : Event) (db : Database D) (s : DataServer D) (log : List (Message D))
      → Represents s log
      → RefinesLog (event_process ev db s) (log_event ev db log)
  unfolding event_process log_event
  event_process-RefinesLog (command c) db s log r = r
  event_process-RefinesLog (event EventType.security_add g) db s log r =
      logged-RefinesLog g _ s log (security_by_id-IsOther g db) r
  event_process-RefinesLog (event EventType.new_strategy g) db s log r =
      logged-RefinesLog g _ s log (strategy_by_id-IsOther g db) r
  event_process-RefinesLog (event EventType.my_trade_add g) db s log r =
      logged-RefinesLog g _ s log (trade_by_id-IsOther g db) r
  event_process-RefinesLog (event EventType.order_change g) db s log r =
      logged-RefinesLog g _ s log (order_by_id-IsOther g db) r
  event_process-RefinesLog (event EventType.quote_change g) db s log r =
      not_logged-RefinesLog g _ s log r
  event_process-RefinesLog (event EventType.strategy_change g) db s log r =
      not_logged-RefinesLog g _ s log r
  event_process-RefinesLog (event EventType.position_change g) db s log r =
      not_logged-RefinesLog g _ s log r
  event_process-RefinesLog (event EventType.position_clear g) db s log r =
      publish_message-Represents _ s log r
  event_process-RefinesLog (event EventType.money_change g) db s log r =
      money-RefinesLog (money_data db.money_info) s.money_init s log refl r.money r
  event_process-RefinesLog (event EventType.none g) db s log r = r
  event_process-RefinesLog (event EventType.new_session g) db s log r = r
  event_process-RefinesLog (event EventType.disconnect g) db s log r = r
  event_process-RefinesLog (event EventType.connect g) db s log r = r

module _ {D : Type 0} where
  -- The index that a request leads to is in the vector, so the pointer that is copied is no null.
  pub message_request-log :
      (v : ℕ) (s : DataServer D) (log : List (Message D))
      → Represents s log
      → message_request v s ≡ Served.answered (Reply.stored (log_message v log))
  unfolding message_request get_message_by_num
  message_request-log zero s log r = rw r.counted refl
  message_request-log (suc i) s log r =
      rw (r.counted, r.messages) (ground (arith, get_elem?-length log i, get_elem?-none log i))

  serve-log :
      (req : ClientRequest) (s : DataServer D) (manager : EventManager) (log : List (Message D))
      → Represents s log
      → (serve req s manager).0 ≡ log_answer req log
  unfolding serve
  serve-log req s manager log r = ground (arith, message_request-log req.value s log r)

  checked_request-log :
      (o : Option ClientRequest) (s : DataServer D) (manager : EventManager)
      (log : List (Message D))
      → Represents s log
      → (checked_request o s manager).0 ≡ log_checked o log
  unfolding checked_request
  checked_request-log none s manager log r = refl
  checked_request-log (some req) s manager log r = ground (arith, serve-log req s manager log r)

  pub request_process_round-log :
      (bytes : List ℕ) (s : DataServer D) (manager : EventManager) (log : List (Message D))
      → Represents s log
      → (request_process_round bytes s manager).0 ≡ log_request bytes log
  unfolding request_process_round
  request_process_round-log bytes s manager log r =
      ground (arith, r.runs, checked_request-log (read_request bytes) s manager log r)
