-- ===== src/Events/Delivery.antt =====
-- EventManager.cpp: which consumers receive what, and in which order.
use simple_cgate.Base.{
  ℕ, suc, ◌+◌, ◌≡◌, refl, sym, List, [], ◌∷◌, ◌++◌, arith, ◌==◌, leb, ◌-◌, nat_eq, if◌then◌else◌,
  replicate,
}
use mathlib.Core.List.{append-nil, append_assoc}
use simple_cgate.Events.{
  Event, event, EventType, EventManager, notify, notify_all, add_event, remove_consumer,
  erase_first,
}

-- How often a consumer is registered.
abbrev pub times : ℕ → List ℕ → ℕ
times id [] = 0
times id (j ∷ ids) = if j == id then suc (times id ids) else times id ids

abbrev pub queue : ℕ → EventManager → List Event
queue id m = (m.objects id).events

queue-notify :
    (id j : ℕ) (ev : Event) (m : EventManager)
    → queue j (notify id ev m) ≡ (if id == j then queue j m ++ ev ∷ [] else queue j m)
unfolding notify
queue-notify id j ev m = ground arith

-- Each registration of a consumer appends the event once to its queue, behind what is there.
pub queue-notify_all :
    (ids : List ℕ) (j : ℕ) (ev : Event) (m : EventManager)
    → queue j (notify_all ids ev m) ≡ queue j m ++ replicate (times j ids) ev
unfolding notify_all
queue-notify_all [] j ev m = sym (append-nil _)
queue-notify_all (id ∷ ids) j ev m = ground (
  arith,
  queue-notify_all ids j ev (notify id ev m),
  queue-notify id j ev m,
  append_assoc (queue j m) (ev ∷ []) (replicate (times j ids) ev),
)

consumers-notify_all :
    (ids : List ℕ) (ev : Event) (m : EventManager) → (notify_all ids ev m).consumers ≡ m.consumers
unfolding notify_all notify
consumers-notify_all [] ev m = refl
consumers-notify_all (id ∷ ids) ev m = consumers-notify_all ids ev (notify id ev m)

-- The events of a list, dispatched in turn.
pub dispatch : List (EventType × ℕ) → EventManager → EventManager
dispatch [] m = m
dispatch ((t, g) ∷ es) m = dispatch es (add_event t g m)

abbrev pub as_events : List (EventType × ℕ) → List Event
as_events [] = []
as_events ((t, g) ∷ es) = event t g ∷ as_events es

consumers-add_event :
    (t : EventType) (g : ℕ) (m : EventManager) → (add_event t g m).consumers ≡ m.consumers
unfolding add_event
consumers-add_event t g m = consumers-notify_all m.consumers (event t g) m

pub queue-add_event :
    (t : EventType) (g j : ℕ) (m : EventManager)
    → queue j (add_event t g m) ≡ queue j m ++ replicate (times j m.consumers) (event t g)
unfolding add_event
queue-add_event t g j m = queue-notify_all m.consumers j (event t g) m

-- A consumer that is registered once receives every dispatched event, once, in the order of the
-- dispatches and behind what its queue held.
pub queue-dispatch :
    (es : List (EventType × ℕ)) (j : ℕ) (m : EventManager)
    → times j m.consumers ≡ 1
    → queue j (dispatch es m) ≡ queue j m ++ as_events es
unfolding dispatch
queue-dispatch [] j m h = sym (append-nil _)
queue-dispatch ((t, g) ∷ es) j m h =
    rw
      (
        queue-dispatch es j (add_event t g m) (rw (consumers-add_event t g m) h),
        queue-add_event t g j m,
        h,
      )
      (append_assoc (queue j m) (event t g ∷ []) (as_events es))

-- A consumer that is not registered receives nothing.
pub queue-dispatch_absent :
    (es : List (EventType × ℕ)) (j : ℕ) (m : EventManager)
    → times j m.consumers ≡ 0
    → queue j (dispatch es m) ≡ queue j m
unfolding dispatch
queue-dispatch_absent [] j m h = refl
queue-dispatch_absent ((t, g) ∷ es) j m h =
    rw
      (
        queue-dispatch_absent es j (add_event t g m) (rw (consumers-add_event t g m) h),
        queue-add_event t g j m,
        h,
      )
      (append-nil _)

times-erase_first :
    (id j : ℕ) (ids : List ℕ)
    → times j (erase_first id ids) + (if id == j then (if leb 1 (times j ids) then 1 else 0) else 0)
      ≡ times j ids
unfolding erase_first
times-erase_first id j [] = ground arith
times-erase_first id j (i ∷ ids) = ground (arith, times-erase_first id j ids)

-- `RemoveConsumer` takes away one registration of that consumer, if it has one, and no other's.
pub times-remove_consumer :
    (id j : ℕ) (m : EventManager)
    → times j (remove_consumer id m).consumers
      ≡ (if id == j then times j m.consumers - 1 else times j m.consumers)
unfolding remove_consumer
times-remove_consumer id j m = ground (arith, times-erase_first id j m.consumers)
