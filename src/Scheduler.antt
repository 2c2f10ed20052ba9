-- ===== src/Scheduler.antt =====
-- The scheduler of timed events (source/scheduler.h, source/scheduler.cpp).
-- A method runs under m_eventLock and is one function from state to state. The thread's loop is
-- cut where it gives the lock up: `begin_wait` up to the wait, `timed_out` after a wait that
-- reached its time. Of the events of the queue with the least time, top() may be any.
pub mod Steps
pub mod Stopped
pub mod Due
pub mod Ids
mod Tests
use othire.Base.{
  ℕ, zero, suc, ◌+◌, ◌≤◌, ◌≡◌, List, [], ◌∷◌, ◌++◌, Bool, true, false, not, ltb, leb, ◌==◌,
  if◌then◌else◌, Option, none, some,
}

-- 0xFFFFFFFF
abbrev pub last_id : ℕ
last_id = 4294967295

-- SCHEDULER_MINTICKS
abbrev pub min_ticks : ℕ
min_ticks = 50

-- m_eventid, m_expiration and a name for the function m_f
pub record SchedulerTask : Type 0 where
  pub event_id : ℕ
  pub cycle : ℕ
  pub f : ℕ

pub data SchedulerState : Type 0 where
  state_running : SchedulerState
  state_closing : SchedulerState
  state_terminated : SchedulerState

-- m_lastEventId, m_eventList, m_eventIds and m_threadState
pub record Scheduler : Type 0 where
  pub last_event_id : ℕ
  pub event_list : List SchedulerTask
  pub event_ids : List ℕ
  pub thread_state : SchedulerState

abbrev pub is_running : SchedulerState → Bool
is_running state_running = true
is_running state_closing = false
is_running state_terminated = false

abbrev pub is_terminated : SchedulerState → Bool
is_terminated state_running = false
is_terminated state_closing = false
is_terminated state_terminated = true

-- std::set: find, insert and erase
abbrev pub contains : ℕ → List ℕ → Bool
contains i [] = false
contains i (j ∷ js) = if i == j then true else contains i js

abbrev pub insert : ℕ → List ℕ → List ℕ
insert i js = if contains i js then js else i ∷ js

abbrev pub erase : ℕ → List ℕ → List ℕ
erase i [] = []
erase i (j ∷ js) = let rest = erase i js in if i == j then rest else j ∷ rest

-- createSchedulerTask at the time `now`
unfoldable pub create_scheduler_task : (now delay f : ℕ) → SchedulerTask
create_scheduler_task now delay f = record {
  event_id = 0;
  cycle = now + (if ltb delay min_ticks then min_ticks else delay);
  f = f;
}

-- the constructor, then `start`
unfoldable pub started : Scheduler
started = record {
  last_event_id = 0;
  event_list = [];
  event_ids = [];
  thread_state = state_running;
}

-- the identifier that addEvent gives to a task, and m_lastEventId after it
unfoldable pub generate_id : ℕ → ℕ → ℕ × ℕ
generate_id last id =
    if id == 0
    then (let base = if leb last_id last then 0 else last in (suc base, suc base))
    else (id, last)

unfoldable pub add_event : SchedulerTask → Scheduler → ℕ × Scheduler
unfolding generate_id
add_event task s =
    if is_running s.thread_state
    then (let (id, last) = generate_id s.last_event_id task.event_id in
        (
          id,
          record s {
            last_event_id = last;
            event_list = record task { event_id = id } ∷ s.event_list;
            event_ids = insert id s.event_ids;
          },
        ))
    else (task.event_id, s)

unfoldable pub stop_event : ℕ → Scheduler → Bool × Scheduler
stop_event eventid s =
    if eventid == 0
    then (false, s)
    else if contains eventid s.event_ids
    then (true, record s { event_ids = erase eventid s.event_ids })
    else (false, s)

unfoldable pub stop : Scheduler → Scheduler
stop s = record s { thread_state = state_closing }

unfoldable pub shutdown : Scheduler → Scheduler
shutdown s = record s { thread_state = state_terminated; event_list = []; event_ids = [] }

-- Whether no event of the list is to run before the time t.
abbrev pub none_before : ℕ → List SchedulerTask → Bool
none_before t [] = true
none_before t (u ∷ us) = if ltb u.cycle t then false else none_before t us

-- The event at place n of the list, and the others.
abbrev pub take_out : ℕ → List SchedulerTask → Option (SchedulerTask × List SchedulerTask)
take_out n [] = none
take_out zero (t ∷ ts) = some (t, ts)
take_out (suc n) (t ∷ ts) = elim (take_out n ts) [ none ↦ none | some (u, us) ↦ some (u, t ∷ us) ]

-- The loop's body after a wait that timed out, where top() is the event `top` and pop() leaves
-- `rest`: the task for the dispatcher, if any.
unfoldable pub timed_out :
    SchedulerTask → List SchedulerTask → Scheduler → Option SchedulerTask × Scheduler
timed_out top rest s =
    if is_terminated s.thread_state
    then (none, s)
    else if contains top.event_id s.event_ids
    then (some top, record s { event_list = rest; event_ids = erase top.event_id s.event_ids })
    else (none, record s { event_list = rest })
