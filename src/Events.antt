-- ===== src/Events.antt =====
-- EventConsumer.h, EventConsumer.cpp, EventManager.h and EventManager.cpp: the messages, the queue
-- of each consumer, and the dispatcher. A consumer object is known by its `event_consumer_id`, which
-- its constructor takes from a counter. The mutexes make each operation one step.
pub mod Delivery
pub mod Thread
use simple_cgate.Base.{ℕ, ◌+◌, Bool, false, List, [], ◌∷◌, ◌++◌, ◌==◌, nat_eq, if◌then◌else◌}

pub data CommandType : Type 0 where
  command_connect command_disconnect command_start command_stop : CommandType

pub record Command : Type 0 where
  pub type : CommandType
  pub id : ℕ
  pub value : ℕ

pub data EventType : Type 0 where
  none security_add quote_change my_trade_add order_change money_change position_change : EventType
  position_clear new_session new_strategy strategy_change disconnect connect : EventType

-- The two constructors of `Event`: each leaves the other's field unset. The type of the second is
-- `kCommand`.
pub data Event : Type 0 where
  event : EventType → ℕ → Event
  command : Command → Event

pub record Consumer : Type 0 where
  pub exit_flag : Bool
  pub events : List Event

pub record EventManager : Type 0 where
  pub counter : ℕ  -- sEventConsumerCounter
  pub consumers : List ℕ
  pub objects : ℕ → Consumer

abbrev pub idle_consumer : Consumer
idle_consumer = record { exit_flag = false; events = [] }

abbrev pub new_manager : EventManager
new_manager = record { counter = 0; consumers = []; objects = λ _. idle_consumer }

abbrev write_object : ℕ → Consumer → EventManager → EventManager
write_object id c m = record m { objects = λ j. if id == j then c else m.objects j }

-- The constructor of `IEventConsumer`: the new object's id.
unfoldable pub new_consumer : EventManager → ℕ × EventManager
new_consumer m =
    (m.counter, write_object m.counter idle_consumer (record m { counter = m.counter + 1 }))

unfoldable pub notify : ℕ → Event → EventManager → EventManager
notify id ev m =
    write_object id (record (m.objects id) { events = (m.objects id).events ++ ev ∷ [] }) m

unfoldable pub add_new_consumer : ℕ → EventManager → EventManager
add_new_consumer id m = record m { consumers = m.consumers ++ id ∷ [] }

-- The loop of `RemoveConsumer`: the first entry with the id goes.
unfoldable pub erase_first : ℕ → List ℕ → List ℕ
erase_first id [] = []
erase_first id (j ∷ ids) = if j == id then ids else j ∷ erase_first id ids

unfoldable pub remove_consumer : ℕ → EventManager → EventManager
unfolding erase_first
remove_consumer id m = record m { consumers = erase_first id m.consumers }

-- The loop over the consumers in `AddEvent` and `AddCommandEvent`.
unfoldable pub notify_all : List ℕ → Event → EventManager → EventManager
unfolding notify
notify_all [] ev m = m
notify_all (id ∷ ids) ev m = notify_all ids ev (notify id ev m)

unfoldable pub add_event : EventType → ℕ → EventManager → EventManager
unfolding notify_all
add_event type global_id m = notify_all m.consumers (event type global_id) m

unfoldable pub add_plain_event : EventType → EventManager → EventManager
unfolding notify_all
add_plain_event type m = notify_all m.consumers (event type 0) m

unfoldable pub add_command_event : Command → EventManager → EventManager
unfolding notify_all
add_command_event c m = notify_all m.consumers (command c) m
