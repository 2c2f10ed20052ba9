-- ===== src/Scheduler/Stopped.antt =====
-- How often an event is handed to the dispatcher (source/scheduler.cpp).
use othire.Base.{
  ℕ, ◌+◌, ◌≤◌, ◌≡◌, refl, List, [], ◌∷◌, Bool, true, false, arith, inl, inr, ◌==◌, if◌then◌else◌,
  Bool-cases,
}
use othire.Scheduler.{
  Scheduler, SchedulerTask, started, add_event, stop_event, stop, shutdown, timed_out,
  is_terminated, is_running, generate_id, contains, insert, erase,
}
use othire.Scheduler.Steps.{
  World, world, Place, ready, in_wait, in_timed_wait, handing_over, unlocked, Label, added,
  dispatched, silent, Step, Run, start_world, call_add, call_stop_event, call_stop, call_shutdown,
  tick, begin_wait, begin_timed_wait, signalled, timed_wait_signalled, hand_over, time_passed,
  time_passed_terminated, done, next,
}

-- 1 if the tests holds, and 0 if not
abbrev pub one_if : Bool → ℕ
one_if b = if b then 1 else 0

-- How often the label list shows that the identifier was given, or that its event was dispatched.
abbrev pub count_added : ℕ → List Label → ℕ
count_added id [] = 0
count_added id (added i ∷ ls) = one_if (id == i) + count_added id ls
count_added id (dispatched t ∷ ls) = count_added id ls
count_added id (silent ∷ ls) = count_added id ls

abbrev pub count_dispatched : ℕ → List Label → ℕ
count_dispatched id [] = 0
count_dispatched id (added i ∷ ls) = count_dispatched id ls
count_dispatched id (dispatched t ∷ ls) = one_if (id == t.event_id) + count_dispatched id ls
count_dispatched id (silent ∷ ls) = count_dispatched id ls

-- Whether the identifier is of an event that was not stopped.
abbrev pub active : ℕ → World → ℕ
active id w = one_if (contains id w.scheduler.event_ids)

-- Whether the thread has taken an event of the identifier out, and has still to hand it over.
abbrev pub pending : ℕ → Place → ℕ
pending id ready = 0
pending id in_wait = 0
pending id (in_timed_wait time) = 0
pending id (handing_over task) = one_if (id == task.event_id)

pub contains-erase :
    (i j : ℕ) (js : List ℕ) → contains i (erase j js) ≡ (if i == j then false else contains i js)
contains-erase i j [] = ground arith
contains-erase i j (k ∷ ks) = ground (arith, contains-erase i j ks)

pub contains-insert :
    (i j : ℕ) (js : List ℕ) → contains i (insert j js) ≡ (if i == j then true else contains i js)
contains-insert i j js = ground arith

one-erase : (id j : ℕ) (js : List ℕ) → one_if (contains id (erase j js)) ≤ one_if (contains id js)
one-erase id j js = let e = contains-erase id j js in ground (arith, e)

one-erase_self :
    (id j : ℕ) (js : List ℕ)
    → contains j js ≡ true
    → one_if (id == j) + one_if (contains id (erase j js)) ≤ one_if (contains id js)
one-erase_self id j js h = let e = contains-erase id j js in ground (arith, e)

one-insert :
    (id j : ℕ) (js : List ℕ)
    → one_if (contains id (insert j js)) ≤ one_if (contains id js) + one_if (id == j)
one-insert id j js = let e = contains-insert id j js in ground (arith, e)

add_event-active :
    (id : ℕ) (task : SchedulerTask) (s : Scheduler)
    → one_if (contains id (add_event task s).1.event_ids)
      ≤ one_if (contains id s.event_ids) + one_if (id == (add_event task s).0)
unfolding add_event
add_event-active id task s = elim (Bool-cases (is_running s.thread_state)) [
  | inl e ↦ rw e (one-insert id (generate_id s.last_event_id task.event_id).0 s.event_ids)
  | inr e ↦ rw e (omega arith)
]

stop_event-active :
    (id i : ℕ) (s : Scheduler)
    → one_if (contains id (stop_event i s).1.event_ids) ≤ one_if (contains id s.event_ids)
unfolding stop_event
stop_event-active id i s = ground (arith, one-erase id i s.event_ids)

timed_out-active :
    (id : ℕ) (top : SchedulerTask) (rest : List SchedulerTask) (s : Scheduler)
    → pending id (unlocked (timed_out top rest s).0)
        + one_if (contains id (timed_out top rest s).1.event_ids)
      ≤ one_if (contains id s.event_ids)
unfolding timed_out
timed_out-active id top rest s = elim (Bool-cases (is_terminated s.thread_state)) [
  | inl e ↦ rw e (omega arith)
  | inr e ↦ elim (Bool-cases (contains top.event_id s.event_ids)) [
    | inl c ↦ rw (e, c) (omega (arith, one-erase_self id top.event_id s.event_ids c))
    | inr c ↦ rw (e, c) (omega arith)
  ]
]

count_dispatched_one :
    (id : ℕ) (l : Label) (ls : List Label)
    → count_dispatched id (l ∷ ls) ≡ count_dispatched id (l ∷ []) + count_dispatched id ls
count_dispatched_one id (added i) ls = omega arith
count_dispatched_one id (dispatched t) ls = omega arith
count_dispatched_one id silent ls = omega arith

count_added_one :
    (id : ℕ) (l : Label) (ls : List Label)
    → count_added id (l ∷ ls) ≡ count_added id (l ∷ []) + count_added id ls
count_added_one id (added i) ls = omega arith
count_added_one id (dispatched t) ls = omega arith
count_added_one id silent ls = omega arith

shutdown-active : (id : ℕ) (s : Scheduler) → one_if (contains id (shutdown s).event_ids) ≡ 0
unfolding shutdown
shutdown-active id s = refl

stop-active : (id : ℕ) (s : Scheduler) → (stop s).event_ids ≡ s.event_ids
unfolding stop
stop-active id s = refl

Step-active :
    (id : ℕ) {w v : World} {l : Label}
    → Step w l v
    → count_dispatched id (l ∷ []) + active id v + pending id v.place
      ≤ active id w + pending id w.place + count_added id (l ∷ [])
Step-active id (call_add {s} task) = omega (arith, add_event-active id task s)
Step-active id (call_stop_event {s} i) = omega (arith, stop_event-active id i s)
Step-active id (call_stop {s} h) = rw (stop-active id s) (omega arith)
Step-active id (call_shutdown {s}) = omega (arith, shutdown-active id s)
Step-active id tick = omega arith
Step-active id (begin_wait h k) = omega arith
Step-active id (begin_timed_wait h k) = omega arith
Step-active id signalled = omega arith
Step-active id timed_wait_signalled = omega arith
Step-active id hand_over = omega arith
Step-active id (time_passed {s = s} {top = top} {rest = rest} h k) =
    omega (arith, timed_out-active id top rest s)
Step-active id (time_passed_terminated h k) = omega arith

pub Run-active :
    (id : ℕ) {w v : World} {ls : List Label}
    → Run w ls v
    → count_dispatched id ls + active id v + pending id v.place
      ≤ active id w + pending id w.place + count_added id ls
Run-active id done = omega arith
Run-active id (next {l = l} {ls = ls} x r) =
    let a = Step-active id x in
    let b = Run-active id r in
    let c = count_dispatched_one id l ls in
    let d = count_added_one id l ls in omega (arith, a, b, c, d)

stop_event-inactive :
    (id : ℕ) (s : Scheduler)
    → (id == 0) ≡ false
    → one_if (contains id (stop_event id s).1.event_ids) ≡ 0
unfolding stop_event
stop_event-inactive id s h = let e = contains-erase id id s.event_ids in ground (arith, e)

start-active : (id time : ℕ) → active id (start_world time) ≡ 0
unfolding started
start-active id time = refl

-- From the start, an identifier's events are handed to the dispatcher no more often than addEvent
-- returned the identifier.
pub dispatched_le_added :
    (id time : ℕ) {v : World} {ls : List Label}
    → Run (start_world time) ls v
    → count_dispatched id ls ≤ count_added id ls
dispatched_le_added id time r =
    let a = Run-active id r in
    let b : active id (start_world time) ≡ 0 = start-active id time in omega (arith, a, b)

-- After stopEvent for an identifier other than 0, whatever it returned, what is handed over of the
-- identifier while addEvent does not return it again is what the thread had taken out before.
stop_event-pending :
    (id : ℕ) (s : Scheduler) (p : Place) (time : ℕ) {v : World} {ls : List Label}
    → (id == 0) ≡ false
    → Run (world (stop_event id s).1 p time) ls v
    → count_added id ls ≡ 0
    → count_dispatched id ls ≤ pending id p
stop_event-pending id s p time h r k = omega (arith, Run-active id r, stop_event-inactive id s h, k)

stop_event-found :
    (id : ℕ) (s : Scheduler) → (stop_event id s).0 ≡ true → one_if (contains id s.event_ids) ≡ 1
unfolding stop_event
stop_event-found id s h = ground (arith, h)

-- When stopEvent returns true for an identifier other than 0 that addEvent has returned once since
-- the start and does not return again, no event of it is handed to the dispatcher at any time,
-- before the call or after it.
pub stop_event-Silent :
    (id start time : ℕ) {s : Scheduler} {p : Place} {v : World} {before after : List Label}
    → (id == 0) ≡ false
    → Run (start_world start) before (world s p time)
    → count_added id before ≡ 1
    → (stop_event id s).0 ≡ true
    → Run (world (stop_event id s).1 p time) after v
    → count_added id after ≡ 0
    → count_dispatched id before + count_dispatched id after ≡ 0
stop_event-Silent id start time {s} {p} h b one t r k =
    let a = Run-active id b in
    let z : active id (start_world start) ≡ 0 = start-active id start in
    let f = stop_event-found id s t in
    let g = stop_event-pending id s p time h r k in omega (arith, a, z, f, g, one)
