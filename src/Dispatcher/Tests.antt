-- ===== src/Dispatcher/Tests.antt =====
-- Runs of the dispatcher (source/tasks.cpp), and the theorems at a concrete input.
use othire.Base.{◌≡◌, refl, List, [], ◌∷◌, ◌++◌, map, none, some, false}
use othire.Dispatcher.{Task, Dispatcher, ran, dropped, started, stop, add_task, dispatch, shutdown}
use othire.Dispatcher.Order.{
  Action, call_add_task, round, call_stop, call_shutdown, perform_all, accepted_all, task_of, Call,
  act, call_add_task_front, perform_all-order,
}

abbrev task : Task
task = record { expiration = none; f = 1 }

-- a task that has expired at the time 10
abbrev late : Task
late = record { expiration = some 5; f = 2 }

abbrev actions : List Action
actions =
    call_add_task task
    ∷ call_add_task late
    ∷ round 10
    ∷ round 10
    ∷ call_add_task task
    ∷ call_stop
    ∷ call_shutdown
    ∷ []

perform_all-actions : (perform_all actions started).0 ≡ ran task ∷ dropped late ∷ ran task ∷ []
unfolding started add_task dispatch stop shutdown
perform_all-actions = refl

perform_all-order_example :
    map task_of (perform_all actions started).0 ++ (perform_all actions started).1.task_list
    ≡ started.task_list ++ accepted_all actions started
perform_all-order_example = perform_all-order actions started

abbrev busy : Dispatcher
busy = add_task task false started

abbrev calls : List Call
calls =
    call_add_task_front late ∷ act (round 10) ∷ call_add_task_front task ∷ act call_shutdown ∷ []
