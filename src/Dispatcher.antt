-- ===== src/Dispatcher.antt =====
-- The dispatcher of tasks (source/tasks.h, source/tasks.cpp): a queue that one thread empties.
-- A method runs under m_taskLock and is one function from state to state; the thread's loop is cut
-- at its wait, and one round of it is `dispatch`. The tasks run are the result of a round: what a
-- task does to the game is not part of this model, and a task that flush runs is taken to add none
-- (flush holds the lock that addTask takes).
pub mod Order
mod Tests
use othire.Base.{ℕ, List, [], ◌∷◌, ◌++◌, Bool, true, false, ltb, if◌then◌else◌, Option, none, some}

-- m_expiration, where not_a_date_time is none, and a name for the function m_f
pub record Task : Type 0 where
  pub expiration : Option ℕ
  pub f : ℕ

pub data DispatcherState : Type 0 where
  state_running : DispatcherState
  state_closing : DispatcherState
  state_terminated : DispatcherState

-- m_taskList and m_threadState
pub record Dispatcher : Type 0 where
  pub task_list : List Task
  pub thread_state : DispatcherState

-- What becomes of a task that the thread takes from the list.
pub data Taken : Type 0 where
  ran : Task → Taken
  dropped : Task → Taken

abbrev pub is_running : DispatcherState → Bool
is_running state_running = true
is_running state_closing = false
is_running state_terminated = false

abbrev pub is_terminated : DispatcherState → Bool
is_terminated state_running = false
is_terminated state_closing = false
is_terminated state_terminated = true

-- setDontExpire
unfoldable pub set_dont_expire : Task → Task
set_dont_expire task = record task { expiration = none }

unfoldable pub has_expired : (now : ℕ) → Task → Bool
has_expired now task = elim task.expiration [ none ↦ false | some time ↦ ltb time now ]

-- the constructor, then `start`
unfoldable pub started : Dispatcher
started = record { task_list = []; thread_state = state_running }

unfoldable pub add_task : Task → (push_front : Bool) → Dispatcher → Dispatcher
add_task task push_front d =
    if is_running d.thread_state
    then record d {
      task_list = if push_front then task ∷ d.task_list else d.task_list ++ (task ∷ []);
    }
    else d

-- The task that a round of the thread takes, after its wait, and the state.
unfoldable pub take_task : Dispatcher → Option Task × Dispatcher
take_task d = elim d.task_list [
  | [] ↦ (none, d)
  | task ∷ rest ↦
      if is_terminated d.thread_state then (none, d) else (some task, record d { task_list = rest })
]

-- The task is run, unless it has expired.
unfoldable pub execute : (now : ℕ) → Task → Taken
unfolding has_expired
execute now task = if has_expired now task then dropped task else ran task

-- One round of dispatcherThread.
unfoldable pub dispatch : (now : ℕ) → Dispatcher → List Taken × Dispatcher
unfolding take_task execute
dispatch now d =
    let (task, d') = take_task d in (elim task [ none ↦ [] | some t ↦ execute now t ∷ [] ], d')

-- flush runs the tasks that are left, without asking whether they have expired.
unfoldable pub flush : List Task → List Taken
flush [] = []
flush (task ∷ rest) = ran task ∷ flush rest

unfoldable pub stop : Dispatcher → Dispatcher
stop d = record d { thread_state = state_closing }

unfoldable pub shutdown : Dispatcher → List Taken × Dispatcher
unfolding flush
shutdown d = (flush d.task_list, record d { thread_state = state_terminated; task_list = [] })
