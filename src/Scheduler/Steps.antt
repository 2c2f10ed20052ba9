-- ===== src/Scheduler/Steps.antt =====
-- The scheduler's thread and its callers (source/scheduler.cpp) as a step relation. A step is what
-- runs between taking and giving up m_eventLock, the call of the dispatcher after it, or the clock.
use othire.Base.{ℕ, suc, ◌≤◌, ◌≡◌, List, [], ◌∷◌, true, false, Option, none, some}
use othire.Scheduler.{
  Scheduler, SchedulerTask, started, add_event, stop_event, stop, shutdown, timed_out, take_out,
  none_before, is_terminated,
}

-- Where the thread is: about to lock, in `wait`, in `timed_wait` until a time, or past the unlock
-- with a task that it has still to hand to the dispatcher.
pub data Place : Type 0 where
  ready : Place
  in_wait : Place
  in_timed_wait : ℕ → Place
  handing_over : SchedulerTask → Place

pub record World : Type 0 where
  pub scheduler : Scheduler
  pub place : Place
  pub now : ℕ

-- What a step shows: the identifier addEvent returned, the task given to the dispatcher, or nothing.
pub data Label : Type 0 where
  added : ℕ → Label
  dispatched : SchedulerTask → Label
  silent : Label

-- top() may be the event at place n.
pub data IsTop (list : List SchedulerTask) (top : SchedulerTask) (rest : List SchedulerTask)
    : Type 0 where
  is_top :
      (n : ℕ)
      → take_out n list ≡ some (top, rest)
      → none_before top.cycle list ≡ true
      → IsTop list top rest

abbrev pub world : Scheduler → Place → ℕ → World
world s p n = record { scheduler = s; place = p; now = n }

-- Where the thread goes when it unlocks after a wait that timed out.
abbrev pub unlocked : Option SchedulerTask → Place
unlocked none = ready
unlocked (some task) = handing_over task

pub data Step : World → Label → World → Type 0 where
  call_add :
      {s : Scheduler} {p : Place} {now : ℕ} (task : SchedulerTask)
      → Step (world s p now) (added (add_event task s).0) (world (add_event task s).1 p now)
  call_stop_event :
      {s : Scheduler} {p : Place} {now : ℕ} (id : ℕ)
      → Step (world s p now) silent (world (stop_event id s).1 p now)
  -- Game::setGameState stops the scheduler before the game shuts it down.
  call_stop :
      {s : Scheduler} {p : Place} {now : ℕ}
      → is_terminated s.thread_state ≡ false
      → Step (world s p now) silent (world (stop s) p now)
  call_shutdown :
      {s : Scheduler} {p : Place} {now : ℕ} → Step (world s p now) silent (world (shutdown s) p now)
  tick : {s : Scheduler} {p : Place} {now : ℕ} → Step (world s p now) silent (world s p (suc now))
  begin_wait :
      {s : Scheduler} {now : ℕ}
      → is_terminated s.thread_state ≡ false
      → s.event_list ≡ []
      → Step (world s ready now) silent (world s in_wait now)
  begin_timed_wait :
      {s : Scheduler} {now : ℕ} {top : SchedulerTask} {rest : List SchedulerTask}
      → is_terminated s.thread_state ≡ false
      → IsTop s.event_list top rest
      → Step (world s ready now) silent (world s (in_timed_wait top.cycle) now)
  signalled : {s : Scheduler} {now : ℕ} → Step (world s in_wait now) silent (world s ready now)
  timed_wait_signalled :
      {s : Scheduler} {now time : ℕ}
      → Step (world s (in_timed_wait time) now) silent (world s ready now)
  time_passed :
      {s : Scheduler} {now time : ℕ} {top : SchedulerTask} {rest : List SchedulerTask}
      → time ≤ now
      → IsTop s.event_list top rest
      → Step
          (world s (in_timed_wait time) now)
          silent
          (world (timed_out top rest s).1 (unlocked (timed_out top rest s).0) now)
  hand_over :
      {s : Scheduler} {task : SchedulerTask} {now : ℕ}
      → Step (world s (handing_over task) now) (dispatched task) (world s ready now)
  time_passed_terminated :
      {s : Scheduler} {now time : ℕ}
      → time ≤ now
      → is_terminated s.thread_state ≡ true
      → Step (world s (in_timed_wait time) now) silent (world s ready now)

-- A run, with what its steps show, the first first.
pub data Run : World → List Label → World → Type 0 where
  done : {w : World} → Run w [] w
  next : {w v u : World} {l : Label} {ls : List Label} → Step w l v → Run v ls u → Run w (l ∷ ls) u

abbrev pub start_world : ℕ → World
start_world now = world started ready now
