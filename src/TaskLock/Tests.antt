-- ===== src/TaskLock/Tests.antt =====
-- Two tasks at a lock of task/tasklock.c.
use some_os.Prelude.{ℕ, ◌≡◌, refl, true, none, some, [], ◌==◌}
use some_os.TaskLock.{
  init_task_lock, outside, Tasks, locks, acquire, wait_for_task_lock, lock_or_wait_task_lock,
  give_up, task_step, Arrives, here, after,
}
use some_os.TaskLock.Kept.{is_owner, is_in}
use some_os.TaskLock.Exclusion.{Arrives-awake}

abbrev at_start : Tasks
at_start = record {
  lock = record { locked_by = none; num_locks = 0; wait_queue = [] };
  stages = λ _. outside;
}

-- Task 1 has the lock, and task 2 has come too late.
abbrev first_in : Tasks
first_in = acquire 1 at_start

abbrev second_asleep : Tasks
second_asleep = wait_for_task_lock 2 first_in

reaches_asleep : Arrives at_start second_asleep
unfolding task_step lock_or_wait_task_lock
reaches_asleep =
    after first_in second_asleep locks 2 (after at_start first_in locks 1 here refl) refl

Arrives-awake_example :
    (o : ℕ) × (second_asleep.lock.locked_by ≡ some o)
    × ((j : ℕ) → is_owner (second_asleep.stages j) ≡ (j == o))
    × (is_in 2 second_asleep.lock.wait_queue ≡ true)
    × ((give_up o second_asleep).stages 2 ≡ outside)
Arrives-awake_example =
    Arrives-awake at_start second_asleep 2 (refl, refl, λ i. refl) reaches_asleep refl

start_runs : init_task_lock ≡ at_start.lock
unfolding init_task_lock
start_runs = refl
