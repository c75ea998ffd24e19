-- ===== src/Server/Log.antt =====
-- DataServer.cpp: what the server promises, as a log of messages that only grows.
use simple_cgate.Base.{
  ℕ, zero, suc, ◌≡◌, Bool, true, false, ◌||◌, Option, none, some, List, [], ◌∷◌, ◌++◌, length,
  get_elem?, leb, map_some, if◌then◌else◌, ◌==◌, nat_eq,
}
use simple_cgate.Base.Words.{u32}
use simple_cgate.Entities.Platform.{Platform}
use simple_cgate.Database.{Database}
use simple_cgate.Events.{Event, event, command, EventType}
use simple_cgate.Server.{DataServer}
use simple_cgate.Server.Messages.{
  DataType, data_type_code, RequestType, request_type_code, ClientRequest, read_request, ServerData,
  Message, server_message, money_message,
}
use simple_cgate.Server.Requests.{Served, Reply}
use simple_cgate.Server.Fill.{
  security_by_id, strategy_by_id, trade_by_id, position_by_id, order_by_id, money_data,
}

abbrev pub is_money : {D : Type 0} → Message D → Bool
is_money (money_message m) = true
is_money _ = false

abbrev pub has_money : {D : Type 0} → List (Message D) → Bool
has_money [] = false
has_money (m ∷ log) = is_money m || has_money log

-- How many messages there are, on 32 bits.
abbrev pub count_of : {D : Type 0} → List (Message D) → ServerData
count_of log = record { type = data_type_code DataType.server; all_messages = u32 (length log) }

module _ {D : Type 0} where
  -- The log's answer to a number: the message that has it, counted from 1, or else the count.
  abbrev pub log_message : ℕ → List (Message D) → Message D
  log_message zero log = server_message (count_of log)
  log_message (suc i) log =
      if leb 2147483648 (suc i)
      then server_message (count_of log)
      else elim (get_elem? log i) [ none ↦ server_message (count_of log) | some m ↦ m ]

  abbrev pub log_answer : ClientRequest → List (Message D) → Served D
  log_answer req log =
      if req.req_type == request_type_code RequestType.message
      then Served.answered (Reply.stored (log_message req.value log))
      else if req.req_type == request_type_code RequestType.connect
          || req.req_type == request_type_code RequestType.disconnect
      then Served.answered Reply.ok
      else Served.unanswered

  -- To bytes that are no request, an exception.
  abbrev pub log_checked : Option ClientRequest → List (Message D) → Served D
  log_checked none log = Served.thrown
  log_checked (some req) log =
      if req.type == data_type_code DataType.request then log_answer req log else Served.thrown

  abbrev pub log_request : List ℕ → List (Message D) → Served D
  log_request bytes log = log_checked (read_request bytes) log

  -- An event that is logged, and one that is not: both fault where the message cannot be filled.
  abbrev pub logged : ℕ → Option (Message D) → List (Message D) → Option (List (Message D))
  logged g found log = if g == 0 then some log else map_some (λ m. log ++ m ∷ []) found

  abbrev pub not_logged : ℕ → Option (Message D) → List (Message D) → Option (List (Message D))
  not_logged g found log = if g == 0 then some log else map_some (λ m. log) found

  -- What a server is expected to be, given its log.
  pub record Represents (s : DataServer D) (log : List (Message D)) : Type 0 where
    pub runs : s.exit ≡ false
    pub messages : s.incremental_messages ≡ log
    pub counted : s.srv_data ≡ count_of log
    pub money : s.money_init ≡ has_money log

module _ {D : Type 0} ⦃num : Platform D⦄ where
  -- New objects, deals and every change of an order are logged; the funds are, the first time.
  unfoldable pub log_event : Event → Database D → List (Message D) → Option (List (Message D))
  log_event (event EventType.security_add g) db log = logged g (security_by_id g db) log
  log_event (event EventType.new_strategy g) db log = logged g (strategy_by_id g db) log
  log_event (event EventType.my_trade_add g) db log = logged g (trade_by_id g db) log
  log_event (event EventType.order_change g) db log = logged g (order_by_id g db) log
  log_event (event EventType.money_change g) db log =
      some (if has_money log then log else log ++ money_data db.money_info ∷ [])
  log_event (event EventType.quote_change g) db log = not_logged g (security_by_id g db) log
  log_event (event EventType.strategy_change g) db log = not_logged g (strategy_by_id g db) log
  log_event (event EventType.position_change g) db log = not_logged g (position_by_id g db) log
  log_event (event _ g) db log = some log
  log_event (command c) db log = some log
