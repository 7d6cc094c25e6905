-- ===== src/Schedule.antt =====
-- task/schedule.c: the ready queue of a hart, and the states of a task (task/types.h).
-- The queue is a list linked through `sched_next`, the head first; `tails` holds, for each of the 40
-- priorities, a pointer to a task of it. A task is named by a number. Each function holds the locks
-- of the queue, of the waiting list and of the task while it works on them.
pub mod Tails
pub mod Push
pub mod Pull
pub mod State
pub mod Agreement
pub mod Moved
pub mod Waiting
mod Tests
use some_os.Prelude.{
  ℕ, zero, suc, ◌+◌, ◌-◌, Bool, true, false, ◌&&◌, Option, none, some, List, [], ◌∷◌, ltb, leb,
  ◌==◌, if◌then◌else◌,
}

-- MAX_PRIORITY, and LOWEST_PRIORITY, one less; 0 is the highest.
abbrev pub max_priority : ℕ
max_priority = 40

-- A task in a queue, with its `queue_priority`.
pub record Queued : Type 0 where
  pub id : ℕ
  pub queue_priority : ℕ

pub record ScheduleQueue : Type 0 where
  pub tasks : List Queued
  pub tails : ℕ → Option ℕ

-- Equality of pointers that may be null.
abbrev pub same : Option ℕ → Option ℕ → Bool
same none none = true
same (some a) (some b) = a == b
same _ _ = false

abbrev pub set_tail : (ℕ → Option ℕ) → ℕ → Option ℕ → ℕ → Option ℕ
set_tail tails i t j = if j == i then t else tails j

-- `new->sched_next = t->sched_next; t->sched_next = new`, `t` being the task with that number.
unfoldable pub insert_after : ℕ → Queued → List Queued → List Queued
insert_after t new [] = []
insert_after t new (x ∷ xs) = if x.id == t then x ∷ new ∷ xs else x ∷ insert_after t new xs

-- `for (i = ...; i < MAX_PRIORITY && tails[i] == old; i++) tails[i] = new;`, with `n` rounds left.
unfoldable pub spread : ℕ → ℕ → Option ℕ → Option ℕ → (ℕ → Option ℕ) → ℕ → Option ℕ
spread zero i old new tails = tails
spread (suc n) i old new tails =
    let further = spread n (i + 1) old new (set_tail tails i new) in
    if same (tails i) old then further else tails

abbrev pub insert_at : Option ℕ → Queued → List Queued → List Queued
insert_at none new ts = new ∷ ts
insert_at (some t) new ts = insert_after t new ts

unfoldable pub push_task_to_queue : Queued → ScheduleQueue → ScheduleQueue
unfolding insert_after spread
push_task_to_queue task q =
    let p = if ltb 39 task.queue_priority then 39 else task.queue_priority in
    let old = q.tails p in
    record {
      tasks = insert_at old (record task { queue_priority = p }) q.tasks;
      tails = spread (max_priority - p) p old (some task.id) q.tails;
    }

-- The loop of `pullTaskFromQueue`, which copies `tails[i - 1]` to `tails[i]`.
unfoldable pub spread_down : ℕ → ℕ → Option ℕ → (ℕ → Option ℕ) → ℕ → Option ℕ
spread_down zero i old tails = tails
spread_down (suc n) i old tails =
    let further = spread_down n (i + 1) old (set_tail tails i (tails (i - 1))) in
    if same (tails i) old then further else tails

abbrev pub pull_tails : Queued → (ℕ → Option ℕ) → ℕ → Option ℕ
pull_tails t tails =
    let p = t.queue_priority in
    let below = if p == 0 then none else tails (p - 1) in
    let fixed = spread_down (max_priority - (p + 1)) (p + 1) (some t.id) (set_tail tails p below) in
    if same (tails p) (some t.id) then fixed else tails

abbrev pub pull_from : List Queued → ScheduleQueue → Option Queued × ScheduleQueue
pull_from [] q = (none, q)
pull_from (t ∷ ts) q = (some t, record { tasks = ts; tails = pull_tails t q.tails })

unfoldable pub pull_task_from_queue : ScheduleQueue → Option Queued × ScheduleQueue
unfolding spread_down
pull_task_from_queue q = pull_from q.tasks q

-- The source writes NULL to the head when the first task is not the one that is looked for.
abbrev pub remove_from : ℕ → List Queued → ScheduleQueue → Option ℕ × ScheduleQueue
remove_from task [] q = (none, q)
remove_from task (t ∷ ts) q =
    if t.id == task then (some task, record q { tasks = ts }) else (none, record q { tasks = [] })

unfoldable pub remove_task_from_queue : ℕ → ScheduleQueue → Option ℕ × ScheduleQueue
remove_task_from_queue task q = remove_from task q.tasks q
