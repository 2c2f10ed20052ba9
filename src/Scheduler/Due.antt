-- ===== src/Scheduler/Due.antt =====
-- When an event is handed to the dispatcher (source/scheduler.cpp, schedulerThread).
use othire.Base.{
  ℕ, zero, suc, ◌≤◌, ◌<◌, ◌≡◌, refl, List, [], ◌∷◌, true, false, Option, none, some, arith, ◌⊎◌,
  inl, inr, ◌≢◌, Option-cases,
}
use othire.Scheduler.{
  Scheduler, SchedulerTask, add_event, stop_event, stop, shutdown, take_out, none_before,
  is_terminated, timed_out,
}
use othire.Scheduler.Steps.{
  World, world, Place, Label, IsTop, is_top, Step, Run, start_world, call_add, call_stop_event,
  call_stop, call_shutdown, tick, begin_wait, begin_timed_wait, signalled, timed_wait_signalled,
  hand_over, unlocked, time_passed, time_passed_terminated, done, next, ready, in_wait,
  in_timed_wait, handing_over,
}

-- An event of the queue is for `time` or earlier, or the queue is no longer used.
abbrev pub HasEvent : ℕ → Scheduler → Type 0
HasEvent time s =
    (is_terminated s.thread_state ≡ true) ⊎ (none_before (suc time) s.event_list ≡ false)

-- The thread that waits until a time has an event in the queue for then.
abbrev pub IsTimed : Place → Scheduler → Type 0
IsTimed ready s = Unit {0}
IsTimed in_wait s = Unit {0}
IsTimed (in_timed_wait time) s = HasEvent time s
IsTimed (handing_over task) s = Unit {0}

keeps :
    (p : Place) (s s' : Scheduler)
    → ((time : ℕ) → HasEvent time s → HasEvent time s')
    → IsTimed p s
    → IsTimed p s'
keeps ready s s' f h = tt
keeps in_wait s s' f h = tt
keeps (in_timed_wait time) s s' f h = f time h
keeps (handing_over task) s s' f h = tt

unlocked-IsTimed : (o : Option SchedulerTask) (s : Scheduler) → IsTimed (unlocked o) s
unlocked-IsTimed none s = tt
unlocked-IsTimed (some task) s = tt

-- An event that no event precedes is not after the time by which there is one.
none_before-lt :
    (a b : ℕ) (l : List SchedulerTask) → none_before a l ≡ true → none_before b l ≡ false → a < b
none_before-lt a b [] h k = cc
none_before-lt a b (t ∷ ts) h k = ground (arith, none_before-lt a b ts)

take_out-before :
    (n : ℕ) (l : List SchedulerTask) {top : SchedulerTask} {rest : List SchedulerTask}
    → take_out n l ≡ some (top, rest)
    → none_before (suc top.cycle) l ≡ false
take_out-before n [] h = cc
take_out-before zero (t ∷ ts) h = ground arith
take_out-before (suc n) (t ∷ ts) {top} {rest} h = elim (Option-cases (take_out n ts)) [
  | inl e ↦ ground (arith, e)
  | inr ((u, us), e) ↦ let r = take_out-before n ts e in ground (arith, e, r)
]

IsTop-before :
    {l : List SchedulerTask} {top : SchedulerTask} {rest : List SchedulerTask}
    → IsTop l top rest
    → none_before (suc top.cycle) l ≡ false
IsTop-before (is_top n h k) = take_out-before n _ h

IsTop-le :
    {l : List SchedulerTask} {top : SchedulerTask} {rest : List SchedulerTask} (time : ℕ)
    → IsTop l top rest
    → none_before (suc time) l ≡ false
    → top.cycle ≤ time
IsTop-le {l} {top} time (is_top n h k) e = omega (arith, none_before-lt top.cycle (suc time) l k e)

add_event-HasEvent :
    (task : SchedulerTask) (s : Scheduler) (time : ℕ)
    → HasEvent time s
    → HasEvent time (add_event task s).1
unfolding add_event
add_event-HasEvent task s time h = ground (arith, h)

stop_event-HasEvent :
    (id : ℕ) (s : Scheduler) (time : ℕ) → HasEvent time s → HasEvent time (stop_event id s).1
unfolding stop_event
stop_event-HasEvent id s time h = ground (arith, h)

stop-HasEvent :
    (s : Scheduler)
    → is_terminated s.thread_state ≡ false
    → (time : ℕ) → HasEvent time s
    → HasEvent time (stop s)
unfolding stop
stop-HasEvent s e time h = ground (arith, h, e)

shutdown-HasEvent : (s : Scheduler) (time : ℕ) → HasEvent time s → HasEvent time (shutdown s)
unfolding shutdown
shutdown-HasEvent s time h = inl refl

Step-IsTimed :
    {w v : World} {l : Label}
    → Step w l v
    → IsTimed w.place w.scheduler
    → IsTimed v.place v.scheduler
Step-IsTimed (call_add {s} {p} task) = keeps p s _ (add_event-HasEvent task s)
Step-IsTimed (call_stop_event {s} {p} i) = keeps p s _ (stop_event-HasEvent i s)
Step-IsTimed (call_stop {s} {p} h) = keeps p s _ (stop-HasEvent s h)
Step-IsTimed (call_shutdown {s} {p}) = keeps p s _ (shutdown-HasEvent s)
Step-IsTimed tick = λ h. h
Step-IsTimed (begin_wait h k) = λ _. tt
Step-IsTimed (begin_timed_wait h k) = λ _. inr (IsTop-before k)
Step-IsTimed signalled = λ _. tt
Step-IsTimed timed_wait_signalled = λ _. tt
Step-IsTimed hand_over = λ _. tt
Step-IsTimed (time_passed {s = s} {top = top} {rest = rest} h k) =
    λ _. unlocked-IsTimed (timed_out top rest s).0 _
Step-IsTimed (time_passed_terminated h k) = λ _. tt

pub Run-IsTimed :
    {w v : World} {ls : List Label}
    → Run w ls v
    → IsTimed w.place w.scheduler
    → IsTimed v.place v.scheduler
Run-IsTimed done h = h
Run-IsTimed (next x r) h = Run-IsTimed r (Step-IsTimed x h)

-- Whenever the thread's wait for an event ends because its time has passed, and the scheduler was
-- not shut down, the queue is not empty, and the event that top() gives is due, whichever of the
-- earliest events it is: calls of addEvent and stopEvent during the wait do not change this. It is
-- for runs in which stop() is not called after shutdown().
pub timed_wait-due :
    (start time now : ℕ) {s : Scheduler} {ls : List Label}
    → Run (start_world start) ls (world s (in_timed_wait time) now)
    → is_terminated s.thread_state ≡ false
    → time ≤ now
    → (s.event_list ≢ [])
      × ((top : SchedulerTask) (rest : List SchedulerTask)
          → IsTop s.event_list top rest
          → top.cycle ≤ now)
timed_wait-due start time now {s} r e le = elim (Run-IsTimed r tt) [
  | inl t ↦ cc
  | inr b ↦ (
    (λ n. let q : none_before (suc time) s.event_list ≡ true = rw n refl in cc),
    (λ top rest x. let a = IsTop-le time x b in omega (arith, a, le)),
  )
]
