-- ===== src/TaskLock.antt =====
-- task/tasklock.c: a lock that puts a task to sleep while another one has it.
-- A task is named by a number. What is done between `lockUnsafeLock` and `unlockUnsafeLock` is one
-- step; the writes of `num_locks`, which only the owner makes, are steps of their own. Tasks take
-- steps in any order. The list of all locks that debug builds keep is left out.
pub mod Kept
pub mod Exclusion
mod Tests
use some_os.Prelude.{
  ℕ, ◌≡◌, Bool, true, false, ◌||◌, Option, none, some, List, [], ◌∷◌, add64, sub64, ◌==◌,
  if◌then◌else◌,
}

pub record TaskLock : Type 0 where
  pub locked_by : Option ℕ
  pub num_locks : ℕ
  pub wait_queue : List ℕ

unfoldable pub init_task_lock : TaskLock
init_task_lock = record { locked_by = none; num_locks = 0; wait_queue = [] }

-- Where a task stands: it has nothing of the lock, or sleeps, or has it and has yet to count, or has
-- counted it, or has counted down to 0 and has yet to give it up.
pub data Stage : Type 0 where
  outside : Stage
  asleep : Stage
  acquired : Stage
  counted : Stage
  leaving : Stage

pub record Tasks : Type 0 where
  pub lock : TaskLock
  pub stages : ℕ → Stage

pub data TaskCall : Type 0 where
  locks : TaskCall
  tries : TaskCall
  unlocks : TaskCall

abbrev pub set_stage : ℕ → Stage → (ℕ → Stage) → ℕ → Stage
set_stage t p stages i = if i == t then p else stages i

abbrev pub is_taken : Option ℕ → Bool
is_taken none = false
is_taken (some _) = true

abbrev pub acquire : ℕ → Tasks → Tasks
acquire t s = record s {
  lock = record s.lock { locked_by = some t };
  stages = set_stage t acquired s.stages;
}

-- `waitForTaskLock`
abbrev pub wait_for_task_lock : ℕ → Tasks → Tasks
wait_for_task_lock t s = record s {
  lock = record s.lock { wait_queue = t ∷ s.lock.wait_queue };
  stages = set_stage t asleep s.stages;
}

-- A round of the loop of `lockTaskLock`; a task that is awakened makes another one.
unfoldable pub lock_or_wait_task_lock : ℕ → Tasks → Tasks
lock_or_wait_task_lock t s =
    if is_taken s.lock.locked_by then wait_for_task_lock t s else acquire t s

-- `tryLockingTaskLock`
unfoldable pub try_locking_task_lock : ℕ → Tasks → Tasks
try_locking_task_lock t s = if is_taken s.lock.locked_by then s else acquire t s

-- `lock->num_locks++`
unfoldable pub count_lock : ℕ → Tasks → Tasks
count_lock t s = record s {
  lock = record s.lock { num_locks = add64 s.lock.num_locks 1 };
  stages = set_stage t counted s.stages;
}

-- `unlockTaskLock` up to its test.
unfoldable pub count_down : ℕ → Tasks → Tasks
count_down t s =
    let left = sub64 s.lock.num_locks 1 in
    record s {
      lock = record s.lock { num_locks = left };
      stages = set_stage t (if left == 0 then leaving else counted) s.stages;
    }

-- The loop that awakens the tasks of the queue.
abbrev pub awaken_all : List ℕ → (ℕ → Stage) → ℕ → Stage
awaken_all [] stages = stages
awaken_all (t ∷ ts) stages = awaken_all ts (set_stage t outside stages)

-- The rest of `unlockTaskLock`.
unfoldable pub give_up : ℕ → Tasks → Tasks
give_up t s = record s {
  lock = record s.lock { locked_by = none; wait_queue = [] };
  stages = set_stage t outside (awaken_all s.lock.wait_queue s.stages);
}

-- A task that sleeps takes no step, and one that is outside does not unlock.
abbrev pub step_at : Stage → TaskCall → ℕ → Tasks → Option Tasks
step_at outside locks t s = some (lock_or_wait_task_lock t s)
step_at outside tries t s = some (try_locking_task_lock t s)
step_at outside unlocks t s = none
step_at asleep call t s = none
step_at acquired call t s = some (count_lock t s)
step_at counted locks t s = some (count_lock t s)
step_at counted tries t s = some (count_lock t s)
step_at counted unlocks t s = some (count_down t s)
step_at leaving call t s = some (give_up t s)

unfoldable pub task_step : TaskCall → ℕ → Tasks → Option Tasks
task_step call t s = step_at (s.stages t) call t s

-- The states that tasks reach from a state, one step of one task at a time.
pub data Arrives (s : Tasks) : Tasks → Type 0 where
  here : Arrives s s
  after :
      (u v : Tasks) (call : TaskCall) (t : ℕ)
      → Arrives s u
      → task_step call t u ≡ some v
      → Arrives s v
