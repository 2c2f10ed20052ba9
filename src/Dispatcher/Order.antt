-- ===== src/Dispatcher/Order.antt =====
-- The order in which the dispatcher takes the tasks (source/tasks.cpp).
use othire.Base.{
  ℕ, List, [], ◌∷◌, ◌++◌, map, true, false, if◌then◌else◌, ◌≡◌, refl, sym, ap, ◌∙◌, append_assoc,
  append-nil, Bool-cases, inl, inr,
}
use othire.Dispatcher.{
  Task, Taken, Dispatcher, DispatcherState, ran, dropped, add_task, dispatch, take_task, execute,
  flush, stop, shutdown, has_expired, is_running, state_closing, state_running, state_terminated,
}

-- What happens to the dispatcher; the tasks are added at the end of the list.
pub data Action : Type 0 where
  call_add_task : Task → Action
  round : ℕ → Action
  call_stop : Action
  call_shutdown : Action

abbrev pub perform : Action → Dispatcher → List Taken × Dispatcher
perform (call_add_task task) d = ([], add_task task false d)
perform (round now) d = dispatch now d
perform call_stop d = ([], stop d)
perform call_shutdown d = shutdown d

abbrev pub perform_all : List Action → Dispatcher → List Taken × Dispatcher
perform_all [] d = ([], d)
perform_all (a ∷ acts) d =
    let r = perform a d in let rest = perform_all acts r.1 in (r.0 ++ rest.0, rest.1)

abbrev pub task_of : Taken → Task
task_of (ran task) = task
task_of (dropped task) = task

-- The task that an action adds, if the dispatcher accepts tasks.
abbrev pub accepted : Action → Dispatcher → List Task
accepted (call_add_task task) d = if is_running d.thread_state then task ∷ [] else []
accepted (round now) d = []
accepted call_stop d = []
accepted call_shutdown d = []

abbrev pub accepted_all : List Action → Dispatcher → List Task
accepted_all [] d = []
accepted_all (a ∷ acts) d = accepted a d ++ accepted_all acts (perform a d).1

task_of-execute : (now : ℕ) (task : Task) → task_of (execute now task) ≡ task
unfolding execute
task_of-execute now task = elim (Bool-cases (has_expired now task)) [
  | inl e ↦ rw e refl
  | inr e ↦ rw e refl
]

map-flush : (tasks : List Task) → map task_of (flush tasks) ≡ tasks
unfolding flush
map-flush [] = refl
map-flush (task ∷ rest) = rw (map-flush rest) refl

map-append : (xs ys : List Taken) → map task_of (xs ++ ys) ≡ map task_of xs ++ map task_of ys
map-append [] ys = refl
map-append (x ∷ xs) ys = rw (map-append xs ys) refl

add_task-order :
    (task : Task) (d : Dispatcher)
    → (add_task task false d).task_list ≡ d.task_list ++ accepted (call_add_task task) d
unfolding add_task
add_task-order task d = elim (Bool-cases (is_running d.thread_state)) [
  | inl e ↦ rw e refl
  | inr e ↦ rw e (sym (append-nil d.task_list))
]

dispatch-order :
    (now : ℕ) (list : List Task) (state : DispatcherState)
    → let d : Dispatcher = record { task_list = list; thread_state = state } in
      map task_of (dispatch now d).0 ++ (dispatch now d).1.task_list ≡ list
unfolding dispatch take_task
dispatch-order now [] state = refl
dispatch-order now (task ∷ rest) state_running = ap (λ t. t ∷ rest) (task_of-execute now task)
dispatch-order now (task ∷ rest) state_closing = ap (λ t. t ∷ rest) (task_of-execute now task)
dispatch-order now (task ∷ rest) state_terminated = refl

-- What one action takes, then what is left, is what was there and what was accepted.
perform-order :
    (a : Action) (d : Dispatcher)
    → map task_of (perform a d).0 ++ (perform a d).1.task_list ≡ d.task_list ++ accepted a d
unfolding stop shutdown
perform-order (call_add_task task) d = add_task-order task d
perform-order (round now) d =
    dispatch-order now d.task_list d.thread_state ∙ sym (append-nil d.task_list)
perform-order call_stop d = sym (append-nil d.task_list)
perform-order call_shutdown d = ap (λ l. l ++ []) (map-flush d.task_list)

-- In any sequence of calls and rounds of the thread, where tasks are added at the end, the tasks
-- taken in the order taken, and then the tasks still in the list, are the tasks in the list at first
-- and then the tasks accepted in the order of their calls: none is lost, doubled or overtaken.
pub perform_all-order :
    (acts : List Action) (d : Dispatcher)
    → map task_of (perform_all acts d).0 ++ (perform_all acts d).1.task_list
      ≡ d.task_list ++ accepted_all acts d
perform_all-order [] d = sym (append-nil d.task_list)
perform_all-order (a ∷ acts) d =
    let r = perform a d in
    let rest = perform_all acts r.1 in
    ap (λ l. l ++ rest.1.task_list) (map-append r.0 rest.0)
    ∙ append_assoc (map task_of r.0) (map task_of rest.0) rest.1.task_list
    ∙ ap (λ l. map task_of r.0 ++ l) (perform_all-order acts r.1)
    ∙ sym (append_assoc (map task_of r.0) r.1.task_list (accepted_all acts r.1))
    ∙ ap (λ l. l ++ accepted_all acts r.1) (perform-order a d)
    ∙ append_assoc d.task_list (accepted a d) (accepted_all acts r.1)

-- Any call but `start`, a task that is added at the front included, or a round of the thread.
pub data Call : Type 0 where
  act : Action → Call
  call_add_task_front : Task → Call

abbrev pub perform_call : Call → Dispatcher → List Taken × Dispatcher
perform_call (act a) d = perform a d
perform_call (call_add_task_front task) d = ([], add_task task true d)

abbrev pub perform_calls : List Call → Dispatcher → List Taken × Dispatcher
perform_calls [] d = ([], d)
perform_calls (c ∷ calls) d =
    let r = perform_call c d in let rest = perform_calls calls r.1 in (r.0 ++ rest.0, rest.1)
