-- ===== src/Events/Thread.antt =====
-- EventConsumer.cpp: the thread of a consumer, among the threads that notify it and the one that ends
-- it. A step is what happens between two points at which another thread can be seen.
pub mod Order
use simple_cgate.Base.{
  ℕ, zero, suc, ◌+◌, ◌≡◌, refl, sym, ap, ◌∙◌, arith, Bool, true, false, ◌||◌, Option, List, [], ◌∷◌,
  ◌++◌, if◌then◌else◌,
}
use mathlib.Core.List.{append-nil, append_assoc}
use simple_cgate.Events.{Event, event, EventType, Consumer, idle_consumer}

-- Where the thread is: at the test of the outer loop, in `WaitCondition`, behind it, at the test of
-- the inner loop, in `EventProcess`, or at its end.
pub data Phase : Type 0 where
  testing waiting woken draining ended : Phase
  processing : Event → Phase

-- `processed` and `received` are what `EventProcess` and `Notify` were called with, the newest last.
pub record Worker : Type 0 where
  pub consumer : Consumer
  pub phase : Phase
  pub processed : List Event
  pub received : List Event

abbrev pub new_worker : Worker
new_worker = record { consumer = idle_consumer; phase = testing; processed = []; received = [] }

abbrev is_empty : List Event → Bool
is_empty [] = true
is_empty (ev ∷ evs) = false

-- The next step of `ThreadFunction`. A thread that waits without a cause stays where it is.
unfoldable pub thread_step : Phase → Worker → Worker
thread_step testing w = record w { phase = if w.consumer.exit_flag then ended else waiting }
thread_step waiting w =
    if w.consumer.exit_flag
    then record w { phase = woken }
    else if is_empty w.consumer.events
    then w
    else record w { phase = woken }
thread_step woken w = record w { phase = if w.consumer.exit_flag then ended else draining }
thread_step draining w = elim w.consumer.events [
  | [] ↦ record w { phase = testing }
  | ev ∷ evs ↦ record w { phase = processing ev; consumer = record w.consumer { events = evs } }
]
thread_step (processing ev) w = record w { phase = draining; processed = w.processed ++ ev ∷ [] }
thread_step ended w = w

abbrev pub worker_notify : Event → Worker → Worker
worker_notify ev w = record w {
  consumer = record w.consumer { events = w.consumer.events ++ ev ∷ [] };
  received = w.received ++ ev ∷ [];
}

-- The destructor: the flag, and an event of no kind. The join is no step.
abbrev set_exit_flag : Worker → Worker
set_exit_flag w = record w { consumer = record w.consumer { exit_flag = true } }

pub data Step : Worker → Worker → Type 0 where
  thread : {w : Worker} → Step w (thread_step w.phase w)
  notified : {w : Worker} (ev : Event) → Step w (worker_notify ev w)
  flagged : {w : Worker} → Step w (set_exit_flag w)
  released : {w : Worker} → Step w (worker_notify (event EventType.none 0) w)

pub data Reach : Worker → Type 0 where
  start : Reach new_worker
  later : {w u : Worker} → Reach w → Step w u → Reach u

-- Some steps of the thread alone.
unfoldable pub thread_steps : ℕ → Worker → Worker
unfolding thread_step
thread_steps zero w = w
thread_steps (suc n) w = thread_steps n (thread_step w.phase w)

abbrev pub in_hand : Phase → List Event
in_hand (processing ev) = ev ∷ []
in_hand _ = []

-- What was processed, what is being processed, and what waits.
abbrev pub accounted : Worker → List Event
accounted w = w.processed ++ (in_hand w.phase ++ w.consumer.events)

pub thread_step-accounted :
    (p : Phase) (w : Worker)
    → w.phase ≡ p
    → accounted (thread_step p w) ≡ w.processed ++ (in_hand p ++ w.consumer.events)
unfolding thread_step
thread_step-accounted testing w e = ground arith
thread_step-accounted waiting w e = ground arith
thread_step-accounted woken w e = ground arith
thread_step-accounted draining w e = ground arith
thread_step-accounted (processing ev) w e = append_assoc w.processed (ev ∷ []) w.consumer.events
thread_step-accounted ended w e = ground arith

pub thread_step-received : (p : Phase) (w : Worker) → (thread_step p w).received ≡ w.received
unfolding thread_step
thread_step-received testing w = refl
thread_step-received waiting w = ground arith
thread_step-received woken w = refl
thread_step-received draining w = ground arith
thread_step-received (processing ev) w = refl
thread_step-received ended w = refl
