-- ===== src/Streams/Process.antt =====
-- DataStream.cpp, `Process`: the thread of a stream, round by round. What the CGate library reports is
-- an argument, and what is asked of it is a list of calls; to ask for a state is no such call.
use simple_cgate.Base.{
  ℕ, zero, suc, not, ◌&&◌, none, some, List, [], ◌∷◌, ◌++◌, Text, if◌then◌else◌,
}
use simple_cgate.Streams.{DataStream, PlazaStream}
use simple_cgate.Streams.States.{DataStreamState}

-- `CG_STATE_…` and what `cg_conn_process` returns.
pub data CgState : Type 0 where
  error closed opening active other : CgState

pub data CgResult : Type 0 where
  ok timeout failed : CgResult

-- A time that `cg_conn_process` waits for comes behind the connection, and a mode behind the listener.
pub data CgCall : Type 0 where
  conn_open conn_close conn_destroy : ℕ → CgCall
  conn_process : ℕ → ℕ → CgCall
  lsn_open : ℕ → Text → CgCall
  lsn_close lsn_destroy : ℕ → CgCall
  pub_open pub_close : ℕ → CgCall

-- What the library reports in a round: the states, and the results of the calls of `cg_conn_process`,
-- after which there is nothing to process. `callbacks` is what the callbacks that run in these calls
-- leave of the stream.
pub record Reports : Type 0 where
  pub conn_state : CgState
  pub results : List CgResult
  pub lsn_state : ℕ → CgState
  pub pub_state : ℕ → CgState
  pub callbacks : DataStream → DataStream

-- The loop that processes all messages: at most so many calls, until one does not succeed.
unfoldable pub process_rest : ℕ → ℕ → List CgResult → List CgCall
process_rest zero c rs = []
process_rest (suc n) c [] = conn_process c 0 ∷ []
process_rest (suc n) c (CgResult.ok ∷ rs) = conn_process c 0 ∷ process_rest n c rs
process_rest (suc n) c (_ ∷ rs) = conn_process c 0 ∷ []

unfoldable pub process_calls : ℕ → List CgResult → List CgCall
unfolding process_rest
process_calls c (CgResult.ok ∷ rs) = conn_process c 1 ∷ process_rest 100 c rs
process_calls c _ = conn_process c 1 ∷ []

-- A listener that is closed is opened, and one in error is closed.
abbrev pub listener_call : CgState → Text → ℕ → List CgCall
listener_call CgState.closed mode l = lsn_open l mode ∷ []
listener_call CgState.error mode l = lsn_close l ∷ []
listener_call _ mode l = []

-- The body of the loop over the streams: one that is active and waits for nothing is looked after.
abbrev pub stream_calls : Reports → Text → PlazaStream → List CgCall
stream_calls rep mode p =
    if p.is_active && not p.wait_for
    then elim p.listener [ none ↦ [] | some l ↦ listener_call (rep.lsn_state l) mode l ]
    else []

unfoldable pub streams_calls : Reports → Text → List PlazaStream → List CgCall
streams_calls rep mode [] = []
streams_calls rep mode (p ∷ ps) = stream_calls rep mode p ++ streams_calls rep mode ps

-- A round, or the end of the loop.
pub data Round : Type 0 where
  goes_on : List CgCall → DataStream → Round
  ends : Round

abbrev pub in_state : DataStreamState → DataStream → DataStream
in_state t s = record s { state = t }

unfoldable pub round_in : CgState → Reports → ℕ → DataStream → Round
unfolding process_calls streams_calls
round_in CgState.error rep c s = goes_on (conn_close c ∷ []) (in_state DataStreamState.error s)
round_in CgState.closed rep c s = goes_on (conn_open c ∷ []) (in_state DataStreamState.closed s)
round_in CgState.opening rep c s =
    goes_on (conn_process c 1 ∷ []) (rep.callbacks (in_state DataStreamState.opening s))
round_in CgState.active rep c s =
    let s1 = rep.callbacks (in_state DataStreamState.active s) in
    goes_on (process_calls c rep.results ++ streams_calls rep s1.mode s1.plaza_streams) s1
round_in CgState.other rep c s = goes_on [] s

unfoldable pub process_round : Reports → DataStream → Round
unfolding round_in
process_round rep s =
    if s.exit
    then ends
    else elim s.connection [ none ↦ ends | some c ↦ round_in rep.conn_state rep c s ]

-- Behind the loop: the listeners and the connection go. The streams are copies, so the container keeps
-- its handles.
unfoldable pub end_calls : List PlazaStream → List CgCall
end_calls [] = []
end_calls (p ∷ ps) =
    (if p.is_active
      then elim p.listener [ none ↦ [] | some l ↦ lsn_close l ∷ lsn_destroy l ∷ [] ]
      else [])
    ++ end_calls ps

unfoldable pub end_process : DataStream → List CgCall × DataStream
unfolding end_calls
end_process s = elim s.connection [
  | none ↦ (end_calls s.plaza_streams, s)
  | some c ↦ (end_calls s.plaza_streams ++ conn_destroy c ∷ [], record s { connection = none })
]
