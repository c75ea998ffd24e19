-- ===== src/Transactions/Process.antt =====
-- TransactionManager.cpp, `TransactionProcess`: the thread that keeps the publisher's connection open,
-- round by round, with what the CGate library reports as an argument.
use simple_cgate.Base.{ℕ, Option, none, some, List, [], ◌∷◌, ◌++◌, if◌then◌else◌}
use simple_cgate.Streams.States.{DataStreamState}
use simple_cgate.Streams.Process.{
  CgState, CgCall, conn_open, conn_close, lsn_open, lsn_close, pub_open, pub_close, Reports,
  process_calls,
}
use simple_cgate.Transactions.{TransactionManager}

abbrev in_state : DataStreamState → TransactionManager → TransactionManager
in_state t m = record m { state = t }

-- The reply listener is opened without a mode.
abbrev reply_listener_calls : Reports → ℕ → List CgCall
reply_listener_calls rep l = elim (rep.lsn_state l) [
  | CgState.closed ↦ lsn_open l [] ∷ []
  | CgState.error ↦ lsn_close l ∷ []
  | _ ↦ []
]

abbrev publisher_calls : Reports → ℕ → List CgCall
publisher_calls rep p = elim (rep.pub_state p) [
  | CgState.closed ↦ pub_open p ∷ []
  | CgState.error ↦ pub_close p ∷ []
  | _ ↦ []
]

abbrev calls_for : (ℕ → List CgCall) → Option ℕ → List CgCall
calls_for f none = []
calls_for f (some h) = f h

-- The connection is there: `StartPublisher` throws without it.
unfoldable pub transaction_round_in :
    CgState → Reports → ℕ → TransactionManager → List CgCall × TransactionManager
unfolding process_calls
transaction_round_in CgState.error rep c m = (conn_close c ∷ [], in_state DataStreamState.error m)
transaction_round_in CgState.closed rep c m = (conn_open c ∷ [], in_state DataStreamState.closed m)
transaction_round_in CgState.active rep c m = (
  process_calls c rep.results
      ++ calls_for (reply_listener_calls rep) m.listener
      ++ calls_for (publisher_calls rep) m.publisher,
  in_state DataStreamState.active m,
)
transaction_round_in _ rep c m = ([], m)

unfoldable pub transaction_process_round :
    Reports → ℕ → TransactionManager → List CgCall × TransactionManager
unfolding transaction_round_in
transaction_process_round rep c m =
    if m.exit then ([], m) else transaction_round_in rep.conn_state rep c m
