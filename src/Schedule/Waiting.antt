-- ===== src/Schedule/Waiting.antt =====
-- `enqueueTask` and `moveTaskToState` of task/schedule.c.
use some_os.Prelude.{ℕ, ◌≡◌, Bool, true, false, not, ◌&&◌, ◌||◌, ◌==◌, if◌then◌else◌}
use some_os.Schedule.Tails.{has}
use some_os.Schedule.State.{TaskState, enquable, ready, System, state_of, is_terminated, is_waiting}
use some_os.Schedule.Agreement.{member}

-- Where a task goes that is enqueued.
abbrev pub is_enquable : TaskState → Bool
is_enquable enquable = true
is_enquable _ = false

abbrev pub sends : ℕ → (TaskState → Bool) → System → ℕ → Bool
sends task test s x = (x == task) && (not (s.idle_task == task) && test (state_of task s))

-- The waiting list, the queue and the tasks that are freed have what they had, and the task in the one
-- of its state; a task that is put in the queue is ready, and no other state changes.
abbrev pub IsEnqueued : ℕ → System → System → Type 0
IsEnqueued task s t =
    (x : ℕ)
    → (member x t.waiting_tasks ≡ (sends task is_waiting s x || member x s.waiting_tasks))
      × (has x t.queue.tasks ≡ (sends task is_enquable s x || has x s.queue.tasks))
      × (member x t.freed ≡ (sends task is_terminated s x || member x s.freed))
      × (state_of x t ≡ (if sends task is_enquable s x then ready else state_of x s))
