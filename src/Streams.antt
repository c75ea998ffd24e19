-- ===== src/Streams.antt =====
-- DataStream.h, DataStream.cpp, ServiceStream.cpp, OrdersStream.cpp and CommonStream.cpp: a
-- connection with its listeners. The handles that the CGate library gives out are numbers, and a
-- null pointer is `none`. Whether `cg_conn_new` and `cg_lsn_new` succeed is an argument.
pub mod States
pub mod WaitFlags
pub mod Kept
pub mod Process
use simple_cgate.Base.{
  ℕ, zero, suc, ◌+◌, Bool, true, false, ◌&&◌, Option, none, some, List, [], ◌∷◌, ◌++◌, Text, codes,
  length, ltb, ◌==◌, nat_eq, if◌then◌else◌,
}
use States.{DataStreamState, ListenerState}

pub record PlazaStream : Type 0 where
  pub name : Text
  pub is_active : Bool
  pub life_num : ℕ
  pub wait_for : Bool
  pub replica_state : Text
  pub state : ListenerState
  pub listener : Option ℕ

abbrev pub plaza_stream : Text → PlazaStream
plaza_stream name = record {
  name = name;
  is_active = false;
  life_num = 0;
  wait_for = false;
  replica_state = [];
  state = ListenerState.none;
  listener = none;
}

-- `has_thread` says that `work_thread_` is joinable.
pub record DataStream : Type 0 where
  pub plaza_streams : List PlazaStream
  pub connection : Option ℕ
  pub name : Text
  pub exit : Bool
  pub key : ℕ
  pub mode : Text
  pub state : DataStreamState
  pub has_thread : Bool

abbrev data_stream : Text → ℕ → Text → DataStream
data_stream name key mode = record {
  plaza_streams = [];
  connection = none;
  name = name;
  exit = true;
  key = key;
  mode = mode;
  state = DataStreamState.none;
  has_thread = false;
}

abbrev pub new_service_stream : DataStream
new_service_stream = data_stream (codes "ServiceStream") b'S' (codes "mode=snapshot+online")

abbrev pub new_order_stream : DataStream
new_order_stream = data_stream (codes "OrderStream") b'T' (codes "mode=online")

abbrev pub new_common_stream : DataStream
new_common_stream = data_stream (codes "CommonStream") b'C' (codes "mode=online")

-- What a listener is told: the kinds of `cg_msg_t` that the callbacks tell apart. A row of a table
-- comes with the table's index.
pub data Message (A : Type 0) : Type 0 where
  stream_data : ℕ → A → Message A
  clear_deleted tn_begin tn_commit online opened close other : Message A
  life_num : ℕ → Message A
  repl_state : Text → Message A

-- The calls of the CGate library that make a connection and a listener: a handle, or a failure; and
-- whether a publisher makes a message of a scheme.
pub record CGate : Type 0 where
  pub conn_new : Text → Option ℕ
  pub lsn_new : Text → Option ℕ
  pub msg_new : ℕ → Text → Bool

-- One listener of `InitPlazaStreams`: created, marked and stored; a failure ends the function.
abbrev pub with_listener :
    CGate → Text → Text → Bool → DataStream → (DataStream → DataStream) → DataStream
with_listener cg name settings wait_for s next = elim (cg.lsn_new settings) [
  | none ↦ s
  | some l ↦ next (record s {
    plaza_streams =
        s.plaza_streams
        ++ record (plaza_stream name) { listener = some l; is_active = true; wait_for = wait_for }
          ∷ [];
  })
]

abbrev pub start_thread : DataStream → DataStream
start_thread s = record s { has_thread = true }

unfoldable pub init_service_streams : CGate → DataStream → DataStream
init_service_streams cg s =
    with_listener cg (codes "PART")
      (codes "p2repl://FORTS_PART_REPL;scheme=|FILE|INI/part.ini|PART") false s
      λ s1.
        with_listener cg (codes "POSITIONS")
          (codes "p2repl://FORTS_POS_REPL;scheme=|FILE|INI/pos.ini|POS") true s1
          λ s2.
            with_listener cg (codes "VM")
              (codes "p2repl://FORTS_VM_REPL;scheme=|FILE|INI/vm.ini|VM") true s2
              λ s3.
                with_listener cg (codes "FUTINFO")
                  (codes "p2repl://FORTS_FUTINFO_REPL;scheme=|FILE|INI/fut_info.ini|FUTINFO") false
                  s3 start_thread

-- The first argument is the connector's `IsFastStreams()`.
unfoldable pub init_order_streams : Bool → CGate → DataStream → DataStream
init_order_streams fast cg s =
    with_listener cg (codes "FUTTRADE")
      (if fast
        then codes "p2repl://FORTS_FUTTRADE_FASTREPL;scheme=|FILE|INI/fut_user_deal.ini|FutUserDeal"
        else codes "p2repl://FORTS_FUTTRADE_REPL;scheme=|FILE|INI/fut_user_deal.ini|FutUserDeal")
      false s start_thread

unfoldable pub init_common_streams : CGate → DataStream → DataStream
init_common_streams cg s =
    with_listener cg (codes "FUTCOMMON")
      (codes "p2repl://FORTS_FUTCOMMON_REPL;scheme=|FILE|INI/fut_common.ini|CustReplScheme") false s
      start_thread

-- `Start`; `init` is the class's `InitPlazaStreams`. A connection that cannot be made leaves the
-- pointer as it was.
unfoldable pub start : CGate → (DataStream → DataStream) → Text → DataStream → DataStream
start cg init conn_str s =
    if s.exit
    then init
        (record s { exit = false; connection = connected (cg.conn_new (conn_str ++ s.key ∷ [])) })
    else s
  where
    connected : Option ℕ → Option ℕ
    connected none = s.connection
    connected (some c) = some c

-- `Stop`. To join a thread that was never started throws: a fault. When the thread has ended, it has
-- destroyed the connection.
unfoldable pub stop : DataStream → Option DataStream
stop s =
    if s.exit
    then some s
    else if s.has_thread
    then some (record s {
      exit = true;
      state = DataStreamState.none;
      has_thread = false;
      connection = none;
      plaza_streams = [];
    })
    else none

abbrev update_at : ℕ → (PlazaStream → PlazaStream) → List PlazaStream → List PlazaStream
update_at n f [] = []
update_at zero f (s ∷ ss) = f s ∷ ss
update_at (suc n) f (s ∷ ss) = s ∷ update_at n f ss

unfoldable pub set_wait_for_flag : Bool → ℕ → DataStream → DataStream
set_wait_for_flag flag listener_num s =
    if ltb 0 listener_num && ltb listener_num (length s.plaza_streams)
    then record s {
      plaza_streams = update_at listener_num (λ p. record p { wait_for = flag }) s.plaza_streams;
    }
    else s

-- The loop over all listeners when FUTINFO is online: rounds left, and the index.
unfoldable pub release_from : ℕ → ℕ → DataStream → DataStream
unfolding set_wait_for_flag
release_from zero i s = s
release_from (suc rounds) i s = release_from rounds (i + 1) (set_wait_for_flag false i s)

abbrev pub release_all : DataStream → DataStream
release_all s = release_from (length s.plaza_streams) 0 s
