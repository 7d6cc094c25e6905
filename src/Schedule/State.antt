-- ===== src/Schedule/State.antt =====
-- task/schedule.c: the states of tasks (`TaskSched` of task/types.h), the list of waiting tasks and
-- the queue of one hart, which is the hart of every task here.
use some_os.Prelude.{
  ℕ, ◌+◌, ◌-◌, ◌/◌, ◌%◌, Bool, true, false, not, ◌&&◌, ◌||◌, Option, none, some, List, [], ◌∷◌, ltb,
  ◌==◌, if◌then◌else◌, min,
}
use some_os.Schedule.{ScheduleQueue, max_priority, push_task_to_queue}

pub data TaskState : Type 0 where
  unknown running enquable ready waiting stopped terminated : TaskState

-- `TaskSched`
pub record Sched : Type 0 where
  pub priority : ℕ
  pub queue_priority : ℕ
  pub run_for : ℕ
  pub state : TaskState

-- All that the functions change; `freed` are the tasks given to `deallocTask`.
pub record System : Type 0 where
  pub sched : ℕ → Sched
  pub waiting_tasks : List ℕ
  pub queue : ScheduleQueue
  pub idle_task : ℕ
  pub freed : List ℕ

abbrev pub set_sched : ℕ → Sched → System → System
set_sched task c s = record s { sched = λ x. if x == task then c else s.sched x }

abbrev pub state_of : ℕ → System → TaskState
state_of task s = (s.sched task).state

abbrev pub with_state : ℕ → TaskState → System → System
with_state task st s = set_sched task (record (s.sched task) { state = st }) s

abbrev pub is_waiting : TaskState → Bool
is_waiting waiting = true
is_waiting _ = false

abbrev pub is_stopped : TaskState → Bool
is_stopped stopped = true
is_stopped _ = false

abbrev pub is_terminated : TaskState → Bool
is_terminated terminated = true
is_terminated _ = false

-- The walk of `awakenTask`, and the list without the task; `none` is a task that does not wait.
unfoldable pub remove_waiting : ℕ → List ℕ → Option (List ℕ)
remove_waiting task [] = none
remove_waiting task (x ∷ xs) =
    let rest : Option (List ℕ) = elim (remove_waiting task xs) [
      | none ↦ none
      | some ys ↦ some (x ∷ ys)
    ] in
    if x == task then some xs else rest

-- `none` is a failed assertion, here and in `moveTaskToState`.
unfoldable pub awaken_task : ℕ → System → Option System
awaken_task task s = elim (remove_waiting task s.waiting_tasks) [
  | none ↦ none
  | some rest ↦
      let s' = record s { waiting_tasks = rest } in
      if is_terminated (state_of task s) || is_stopped (state_of task s)
      then some s'
      else if is_waiting (state_of task s)
      then some (with_state task enquable s')
      else none
]

-- The end of `moveTaskToState`: a terminated task stays so, and a stopped one can only terminate.
unfoldable pub enter_state : ℕ → TaskState → System → System
enter_state task st s =
    if not (is_terminated (state_of task s))
      && (not (is_stopped (state_of task s)) || is_terminated st)
    then with_state task st s
    else s

unfoldable pub move_task_to_state : ℕ → TaskState → System → Option System
move_task_to_state task st s =
    let awakened : Option System = elim (awaken_task task s) [
      | none ↦ none
      | some s' ↦ some (enter_state task st s')
    ] in
    if is_waiting (state_of task s)
    then if is_terminated st || is_stopped st then awakened else none
    else some (enter_state task st s)

-- PRIORITY_DECREASE, at CLOCKS_PER_SEC 10 MHz
abbrev pub priority_decrease : ℕ
priority_decrease = 10000000 / 75

-- The priority and run time with which a task is queued; `Priority` is a byte.
unfoldable pub lowered : Sched → Sched
lowered c =
    if ltb priority_decrease c.run_for
    then record c {
      queue_priority = (c.priority + min (c.run_for / priority_decrease) 5) % 256;
      run_for = c.run_for - priority_decrease / 4;
    }
    else record c { queue_priority = c.priority }

-- The priority is brought into range by `pushTaskToQueue`.
abbrev pub put_in_queue : ℕ → System → System
put_in_queue task s =
    let c = lowered (record (s.sched task) { state = ready }) in
    record (set_sched task (record c { queue_priority = min c.queue_priority (max_priority - 1) })
      s) {
        queue =
            push_task_to_queue (record { id = task; queue_priority = c.queue_priority }) s.queue;
      }

abbrev pub enqueue_by : TaskState → ℕ → System → Option System
enqueue_by waiting task s = some (record s { waiting_tasks = task ∷ s.waiting_tasks })
enqueue_by enquable task s = some (put_in_queue task s)
enqueue_by ready task s = some s
enqueue_by running task s = some s
enqueue_by stopped task s = some s
enqueue_by terminated task s = some (record s { freed = task ∷ s.freed })
enqueue_by unknown task s = none

-- `none` is the panic.
unfoldable pub enqueue_task : ℕ → System → Option System
enqueue_task task s = if s.idle_task == task then some s else enqueue_by (state_of task s) task s
