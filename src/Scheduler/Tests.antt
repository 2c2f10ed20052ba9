-- ===== src/Scheduler/Tests.antt =====
-- Runs of the scheduler (source/scheduler.cpp), and the theorems at a concrete input.
use othire.Base.{
  ℕ, ◌+◌, ◌%◌, ◌≡◌, ◌≢◌, ◌≤◌, refl, List, [], ◌∷◌, some, true, false, arith, get_elem?,
}
use othire.Scheduler.{
  Scheduler, SchedulerTask, started, add_event, stop_event, generate_id, last_id, is_terminated,
  timed_out,
}
use othire.Scheduler.Steps.{
  world, ready, in_timed_wait, added, silent, IsTop, is_top, Run, start_world, call_add,
  begin_timed_wait, tick, done, next, time_passed,
}
use othire.Scheduler.Stopped.{count_added, count_dispatched, dispatched_le_added, stop_event-Silent}
use othire.Scheduler.Due.{timed_wait-due}
use othire.Scheduler.Ids.{add_events, add_events-cycle, add_events-distinct}

abbrev task : SchedulerTask
task = record { event_id = 0; cycle = 1; f = 7 }

abbrev one_event : Scheduler
one_event = (add_event task started).1

stop_event_twice : (stop_event 1 (stop_event 1 one_event).1).0 ≡ false
unfolding add_event started stop_event
stop_event_twice = refl

add_event_wrapped : generate_id last_id 0 ≡ (1, 1)
unfolding generate_id
add_event_wrapped = refl

-- The thread waits for the event until the time 1.
waits : Run (start_world 0) (added 1 ∷ silent ∷ silent ∷ []) (world one_event (in_timed_wait 1) 1)
unfolding add_event started
waits = next (call_add task) (
    next
      (begin_timed_wait {top = record task { event_id = 1 }} {rest = []} refl (is_top 0 refl refl))
      (next tick done))

one_event_runs : is_terminated one_event.thread_state ≡ false
unfolding add_event started
one_event_runs = refl

timed_wait-due_example :
    (one_event.event_list ≢ [])
    × ((top : SchedulerTask) (rest : List SchedulerTask)
        → IsTop one_event.event_list top rest
        → top.cycle ≤ 1)
timed_wait-due_example = timed_wait-due 0 1 1 waits one_event_runs (omega arith)

dispatched_le_added_example :
    count_dispatched 1 (added 1 ∷ silent ∷ silent ∷ [])
    ≤ count_added 1 (added 1 ∷ silent ∷ silent ∷ [])
dispatched_le_added_example = dispatched_le_added 1 0 waits

-- The event is stopped, and its time passes.
goes_on :
    Run
      (world (stop_event 1 one_event).1 (in_timed_wait 1) 1)
      (silent ∷ [])
      (world (record one_event { event_list = []; event_ids = [] }) ready 1)
unfolding add_event started stop_event timed_out
goes_on =
    next
      (time_passed {top = record task { event_id = 1 }} {rest = []} (omega arith)
        (is_top 0 refl refl))
      done

stop_event_found : (stop_event 1 one_event).0 ≡ true
unfolding add_event started stop_event
stop_event_found = refl

stop_event-Silent_example :
    count_dispatched 1 (added 1 ∷ silent ∷ silent ∷ []) + count_dispatched 1 (silent ∷ []) ≡ 0
stop_event-Silent_example = stop_event-Silent 1 0 1 refl waits refl stop_event_found goes_on refl

add_events-cycle_example : 2 ≡ (0 + 1) % last_id + 1
unfolding add_event started
add_events-cycle_example =
    add_events-cycle (task ∷ task ∷ []) started 1 2 (refl, (refl, tt)) (omega arith) refl refl

abbrev first_id : ℕ
first_id = 1

add_events-distinct_example :
    (first_id ≢ 0) × (get_elem? (add_events (task ∷ task ∷ []) started).0 1 ≢ some first_id)
unfolding add_event started
add_events-distinct_example =
    add_events-distinct (task ∷ task ∷ []) started 0 1 1 (refl, (refl, tt)) (omega arith) refl
      (omega arith) (omega arith) refl
