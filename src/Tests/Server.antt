-- ===== src/Tests/Server.antt =====
-- The theorems on the data server.
use simple_cgate.Base.{
  ℕ, ◌≡◌, refl, arith, true, false, Option, none, some, List, [], ◌∷◌, is_some, nat_eq, text_eq,
}
use simple_cgate.Events.{EventType, event, new_manager}
use simple_cgate.Server.{new_data_server, event_process}
use simple_cgate.Server.Messages.{Message, read_request, request_bytes}
use simple_cgate.Server.Requests.{Served}
use simple_cgate.Server.Log.{log_event}
use simple_cgate.Server.Runs.{Step, run, log_run, RefinesRun, run-refines}
use simple_cgate.Server.Client.{request_for, Fetched, fetch-run}
use simple_cgate.Server.Ends.{event_process-is_some}
use simple_cgate.Database.{create_security, create_order, label_security, label_order}
use simple_cgate.Connector.{order_for}
use simple_cgate.Connector.Callbacks.{deliver, deliver_all}
use simple_cgate.Connector.Market.{
  listener_fut_info_stream, session_row, security_for, link_security,
}
use simple_cgate.Connector.Trading.{
  listener_fut_trade_stream, trade_row, orders_log_row, order_action,
}
use simple_cgate.Events.{EventManager, add_new_consumer}
use simple_cgate.Server.Messages.{ClientRequest}
use simple_cgate.Server.Requests.{request_process_round}
use simple_cgate.Server.Commands.{Obeyed, request_process_round-Obeyed}
use simple_cgate.Tests.{
  able, able-IsAble, seen, first, first-IsCoupled, millionths, loaded, loaded-IsGate,
}

-- The instrument is added and quoted, a client asks for the count and for a message, and the order
-- changes. In the second list bytes come in first that are no request.
abbrev server_steps : List (Step ℕ)
server_steps =
    Step.process (event EventType.security_add 1) loaded.database
    ∷ Step.process (event EventType.quote_change 1) loaded.database
    ∷ Step.request (request_bytes (request_for 0))
    ∷ Step.request (request_bytes (request_for 1))
    ∷ Step.broadcast
    ∷ Step.process (event EventType.order_change 2) loaded.database
    ∷ []

run-refines_example :
    RefinesRun
      (run false server_steps
        (new_data_server {D = ℕ} new_manager).0
        (new_data_server {D = ℕ} new_manager).1)
      (log_run false server_steps [])
run-refines_example = run-refines server_steps new_manager

abbrev logged_by : Option (List (Served ℕ) × List (Message ℕ)) → List (Served ℕ) × List (Message ℕ)
logged_by none = ([], [])
logged_by (some r) = r

fetch-run_example :
    Fetched new_manager
      (logged_by (log_run false server_steps [])).0
      (logged_by (log_run false server_steps [])).1
      (run false server_steps
        (new_data_server {D = ℕ} new_manager).0
        (new_data_server {D = ℕ} new_manager).1)
unfolding loaded deliver_all deliver listener_fut_info_stream session_row security_for link_security
    create_security listener_fut_trade_stream trade_row orders_log_row order_for create_order
    order_action label_security label_order log_run log_event read_request request_bytes
fetch-run_example =
    fetch-run server_steps new_manager new_manager (logged_by (log_run false server_steps [])).0
      (logged_by (log_run false server_steps [])).1 refl refl (omega arith)

event_process-is_some_example :
    is_some (
      event_process
        (event EventType.order_change 2)
        loaded.database
        (new_data_server {D = ℕ} new_manager).0)
    ≡ true
unfolding loaded deliver_all deliver listener_fut_info_stream session_row security_for link_security
    create_security listener_fut_trade_stream trade_row orders_log_row order_for create_order
    order_action label_security label_order
event_process-is_some_example =
    event_process-is_some (event EventType.order_change 2) loaded.database
      (new_data_server {D = ℕ} new_manager).0 loaded-IsGate.database_ok (λ h. (1, refl))

abbrev link_request : ClientRequest
link_request = record { type = 9; req_type = 102; value = 0; id = 0 }

abbrev listening : EventManager
listening = add_new_consumer 3 new_manager

request_process_round-Obeyed_example : Obeyed true 3 able seen listening first (
    request_process_round
      (request_bytes link_request)
      (new_data_server {D = ℕ} new_manager).0
      listening)
unfolding add_new_consumer new_data_server
request_process_round-Obeyed_example =
    request_process_round-Obeyed true link_request 3 able seen
      (new_data_server {D = ℕ} new_manager).0 listening first
      (record {
        type_lt = omega arith;
        req_type_lt = omega arith;
        value_lt = omega arith;
        id_lt = omega arith;
      })
      refl refl refl refl able-IsAble refl first-IsCoupled
