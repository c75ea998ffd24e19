-- ===== src/Events/Thread/Order.antt =====
-- EventConsumer.cpp: what the thread has processed, in every state that it and the others can reach.
use simple_cgate.Base.{
  ℕ, suc, ◌≡◌, refl, sym, ap, ◌∙◌, arith, Bool, true, false, List, [], ◌∷◌, ◌++◌, ◌⊎◌, Bool-cases,
  inl, inr,
}
use mathlib.Core.Path.{subst}
use mathlib.Core.List.{append-nil, append_assoc}
use simple_cgate.Events.{Event, event, EventType}
use simple_cgate.Events.Thread.{
  Phase, testing, waiting, woken, draining, ended, processing, Worker, thread_step, Step, thread,
  notified, flagged, released, Reach, start, later, thread_steps, in_hand, accounted,
  thread_step-accounted, thread_step-received, worker_notify,
}

record IsOrdered (w : Worker) : Type 0 where
  complete : w.received ≡ accounted w
  ended_flag : w.phase ≡ ended → w.consumer.exit_flag ≡ true

thread_step-ended :
    (p : Phase) (w : Worker)
    → w.phase ≡ p
    → (w.phase ≡ ended → w.consumer.exit_flag ≡ true)
    → (thread_step p w).phase ≡ ended
    → (thread_step p w).consumer.exit_flag ≡ true
unfolding thread_step
thread_step-ended testing w e h u = ground arith
thread_step-ended waiting w e h u = ground arith
thread_step-ended woken w e h u = ground arith
thread_step-ended draining w e h u = ground arith
thread_step-ended (processing ev) w e h u = ground arith
thread_step-ended ended w e h u = h e

notify-accounted :
    (ev : Event) (w : Worker)
    → w.received ≡ accounted w
    → (worker_notify ev w).received ≡ accounted (worker_notify ev w)
notify-accounted ev w h =
    ap (λ l. l ++ ev ∷ []) h
    ∙ append_assoc w.processed (in_hand w.phase ++ w.consumer.events) (ev ∷ [])
    ∙ ap (λ l. w.processed ++ l) (append_assoc (in_hand w.phase) w.consumer.events (ev ∷ []))

Step-IsOrdered : {w u : Worker} → Step w u → IsOrdered w → IsOrdered u
Step-IsOrdered (thread {w}) v = record {
  complete =
      thread_step-received w.phase w ∙ v.complete ∙ sym (thread_step-accounted w.phase w refl);
  ended_flag = thread_step-ended w.phase w refl v.ended_flag;
}
Step-IsOrdered (notified {w} ev) v = record {
  complete = notify-accounted ev w v.complete;
  ended_flag = v.ended_flag;
}
Step-IsOrdered (flagged {w}) v = record { complete = v.complete; ended_flag = λ e. refl }
Step-IsOrdered (released {w}) v = record {
  complete = notify-accounted (event EventType.none 0) w v.complete;
  ended_flag = v.ended_flag;
}

Reach-IsOrdered : {w : Worker} → Reach w → IsOrdered w
Reach-IsOrdered start = record { complete = refl; ended_flag = λ e. absurd (ground arith) }
Reach-IsOrdered (later r s) = Step-IsOrdered s (Reach-IsOrdered r)

abbrev worker_at : Phase → Bool → List Event → List Event → List Event → Worker
worker_at p flag evs ps rs = record {
  consumer = record { exit_flag = flag; events = evs };
  phase = p;
  processed = ps;
  received = rs;
}

-- The inner loop empties the queue, in its order.
drained :
    (evs : List Event) (flag : Bool) (ps rs : List Event)
    → (n : ℕ) × ((thread_steps n (worker_at draining flag evs ps rs)).processed ≡ ps ++ evs)
unfolding thread_steps
drained [] flag ps rs = (0, sym (append-nil ps))
drained (ev ∷ evs) flag ps rs =
    let (n, e) = drained evs flag (ps ++ ev ∷ []) rs in
    (suc (suc n), e ∙ append_assoc ps (ev ∷ []) evs)

abbrev pub Finishes : Worker → List Event → Type 0
Finishes w evs = (n : ℕ) × ((thread_steps n w).processed ≡ evs)

finished :
    (p : Phase) (evs ps rs : List Event)
    → (p ≡ ended → false ≡ true)
    → Finishes (worker_at p false evs ps rs) (ps ++ (in_hand p ++ evs))
unfolding thread_steps
finished testing [] ps rs h = (0, sym (append-nil ps))
finished testing (ev ∷ evs) ps rs h =
    let (n, e) = drained (ev ∷ evs) false ps rs in (suc (suc (suc n)), e)
finished waiting [] ps rs h = (0, sym (append-nil ps))
finished waiting (ev ∷ evs) ps rs h =
    let (n, e) = drained (ev ∷ evs) false ps rs in (suc (suc n), e)
finished woken evs ps rs h = let (n, e) = drained evs false ps rs in (suc n, e)
finished draining evs ps rs h = drained evs false ps rs
finished (processing ev) evs ps rs h =
    let (n, e) = drained evs false (ps ++ ev ∷ []) rs in (suc n, e ∙ append_assoc ps (ev ∷ []) evs)
finished ended evs ps rs h = absurd (ground (arith, h refl))

not_flagged : (w : Worker) → IsOrdered w → w.consumer.exit_flag ≡ false → Finishes w w.received
not_flagged w v e = subst (Finishes w) (sym v.complete) (
    subst
      (λ b. Finishes (worker_at w.phase b w.consumer.events w.processed w.received) (accounted w))
      (sym e)
      (finished w.phase w.consumer.events w.processed w.received (λ u. sym e ∙ v.ended_flag u)))

-- In every state that a consumer's thread, those who notify it and the one that ends it can reach, what
-- the consumer was notified of is what was processed, then what is being processed, and then what waits,
-- in this order; and unless the thread has been told to end, some steps of its own process all of it.
pub Reach-received :
    {w : Worker}
    → Reach w
    → (w.received ≡ accounted w) × ((w.consumer.exit_flag ≡ true) ⊎ Finishes w w.received)
Reach-received {w} r = (
  v.complete,
  elim (Bool-cases w.consumer.exit_flag) [ inl e ↦ inl e | inr e ↦ inr (not_flagged w v e) ],
)
  where
    v : IsOrdered w
    v = Reach-IsOrdered r
