-- ===== src/Server/Requests.antt =====
-- DataServer.cpp, `RequestProcess`: how the server answers the GUI.
use simple_cgate.Base.{
  ℕ, ◌-◌, not, ◌&&◌, ◌||◌, Option, none, some, List, length, get_elem?, ltb, if◌then◌else◌, ◌==◌,
  nat_eq,
}
use simple_cgate.Base.Words.{is_negative}
use simple_cgate.Events.{Command, CommandType, EventManager, add_command_event}
use simple_cgate.Server.{DataServer}
use simple_cgate.Server.Messages.{
  Message, server_message, DataType, data_type_code, RequestType, request_type_code, ClientRequest,
  read_request,
}

pub data Reply (D : Type 0) : Type 0 where
  stored : Message D → Reply D
  ok : Reply D

-- How one round of `RequestProcess` ends: the thread is told to stop, an exception leaves it, the
-- null pointer of `GetMessageByNum` is copied from, the client is answered, or it is not.
pub data Served (D : Type 0) : Type 0 where
  stopped thrown null_copied unanswered : Served D
  answered : Reply D → Served D

abbrev pub connect_command : Command
connect_command = record { type = CommandType.command_connect; id = 0; value = 0 }

abbrev pub disconnect_command : Command
disconnect_command = record { type = CommandType.command_disconnect; id = 0; value = 0 }

module _ {D : Type 0} where
  -- `num` is an `int`, as its bit pattern.
  unfoldable pub get_message_by_num : ℕ → DataServer D → Option (Message D)
  get_message_by_num num s =
      if not (is_negative num) && ltb num (length s.incremental_messages)
      then get_elem? s.incremental_messages num
      else none

  -- The case `kMessage`. Where `req_num` is positive, its conversion to `size_t` leaves it alone.
  unfoldable pub message_request : ℕ → DataServer D → Served D
  unfolding get_message_by_num
  message_request req_num s =
      if (is_negative req_num || req_num == 0) || ltb (length s.incremental_messages) req_num
      then answered (stored (server_message s.srv_data))
      else elim (get_message_by_num (req_num - 1) s) [
        | none ↦ null_copied
        | some m ↦ answered (stored m)
      ]

  -- The `switch` on the kind of the request, which has no case for the other kinds.
  unfoldable pub serve : ClientRequest → DataServer D → EventManager → Served D × EventManager
  unfolding message_request add_command_event
  serve req s manager =
      if req.req_type == request_type_code RequestType.message
      then (message_request req.value s, manager)
      else if req.req_type == request_type_code RequestType.connect
      then (answered ok, add_command_event connect_command manager)
      else if req.req_type == request_type_code RequestType.disconnect
      then (answered ok, add_command_event disconnect_command manager)
      else (unanswered, manager)

  -- The checks on a request: its size, which `none` has wrong, and its type.
  unfoldable pub checked_request :
      Option ClientRequest → DataServer D → EventManager → Served D × EventManager
  unfolding serve
  checked_request none s manager = (thrown, manager)
  checked_request (some req) s manager =
      if req.type == data_type_code DataType.request then serve req s manager else (thrown, manager)

  -- One round, on the bytes that came in.
  unfoldable pub request_process_round :
      List ℕ → DataServer D → EventManager → Served D × EventManager
  unfolding read_request checked_request
  request_process_round bytes s manager =
      if s.exit then (stopped, manager) else checked_request (read_request bytes) s manager
