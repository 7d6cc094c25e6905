-- ===== src/Schedule/Tests.antt =====
-- The scheduler of task/schedule.c at concrete queues and tasks.
use some_os.Prelude.{ℕ, ◌≡◌, refl, none, some, [], ◌∷◌, arith, ◌==◌, if◌then◌else◌}
use some_os.Schedule.{
  Queued, ScheduleQueue, push_task_to_queue, pull_task_from_queue, remove_task_from_queue,
}
use some_os.Schedule.Tails.{last_le, IsQueue, insert}
use some_os.Schedule.Push.{clamped, push-insert}
use some_os.Schedule.Pull.{pull-head}
use some_os.Schedule.State.{TaskState, running, enquable, waiting, stopped, Sched, System}

abbrev task : ℕ → ℕ → Queued
task n p = record { id = n; queue_priority = p }

-- Task 1 at priority 5, and 2 and 3 at 20.
abbrev busy : ScheduleQueue
busy = record {
  tasks = task 1 5 ∷ task 2 20 ∷ task 3 20 ∷ [];
  tails = λ i. last_le i (task 1 5 ∷ task 2 20 ∷ task 3 20 ∷ []);
}

busy-IsQueue : IsQueue busy
busy-IsQueue = record {
  sorted = omega arith;
  distinct = (refl, (refl, (refl, tt)));
  tails = λ i h. refl;
}

push-insert_example :
    ((push_task_to_queue (task 4 5) busy).tasks ≡ insert (clamped (task 4 5)) busy.tasks)
    × IsQueue (push_task_to_queue (task 4 5) busy)
push-insert_example = push-insert (task 4 5) busy busy-IsQueue refl

push_runs :
    (push_task_to_queue (task 4 5) busy).tasks ≡ task 1 5 ∷ task 4 5 ∷ task 2 20 ∷ task 3 20 ∷ []
unfolding push_task_to_queue last_le
push_runs = refl

pull-head_example :
    ((pull_task_from_queue busy).0 ≡ some (task 1 5))
    × ((pull_task_from_queue busy).1.tasks ≡ task 2 20 ∷ task 3 20 ∷ [])
    × IsQueue (pull_task_from_queue busy).1
    × (busy.tasks ≡ [] → (pull_task_from_queue busy).1 ≡ busy)
pull-head_example = pull-head busy busy-IsQueue

-- Looking for a task behind the first one empties the queue.
remove_runs : (remove_task_from_queue 2 busy).1.tasks ≡ []
unfolding remove_task_from_queue
remove_runs = refl

abbrev sched : TaskState → Sched
sched st = record { priority = 20; queue_priority = 20; run_for = 0; state = st }

-- Task 7 waits, task 8 is enquable, and the others run.
abbrev machine : System
machine = record {
  sched = λ x. sched (if x == 7 then waiting else if x == 8 then enquable else running);
  waiting_tasks = 7 ∷ [];
  queue = record { tasks = []; tails = λ _. none };
  idle_task = 0;
  freed = [];
}

-- The same machine with task 9 stopped.
abbrev halted : System
halted = record machine { sched = λ x. sched (if x == 9 then stopped else running) }
