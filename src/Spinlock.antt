-- ===== src/Spinlock.antt =====
-- task/spinlock.c, with the `amoswap` locks of util/riscv64/lock.S: one spin lock, and the harts that
-- lock and unlock it, step by step in any order.
-- A step is one atomic access that other harts can see, with what the hart does for itself before or
-- behind it: the test of `locked_by` for the hart itself, the swap that takes the lock, the writes to
-- the fields under it, and the swap that gives it back. `criticalEnter` takes the running task off
-- its hart, and `criticalReturn` puts it back. It is the lock before any panic. Every caller is a hart:
-- the start of the kernel, where `criticalEnter` returns NULL and only `locked` is used, is left out.
pub mod Exclusion
pub mod Nesting
mod Tests
use some_os.Prelude.{
  ℕ, Bool, true, false, Option, none, some, add64, sub64, ◌==◌, ◌≡◌, if◌then◌else◌,
}

-- `SpinLock`; `locked` is its `unsafelock`.
pub record SpinLock : Type 0 where
  pub locked : Bool
  pub locked_by : Option ℕ
  pub num_locks : ℕ
  pub crit_ret_frame : Option ℕ

abbrev pub init_spin_lock : SpinLock
init_spin_lock = record { locked = false; locked_by = none; num_locks = 0; crit_ret_frame = none }

-- Where a hart stands: in `lockSpinLock` before the swap and behind it, between the calls, and in
-- `unlockSpinLock` before the swap, with the task that it will go back to.
pub data Phase : Type 0 where
  outside : Phase
  spinning : Option ℕ → Phase
  acquired : Option ℕ → Phase
  holds : Phase
  leaving : Option ℕ → Phase

pub record Harts : Type 0 where
  pub lock : SpinLock
  pub phases : ℕ → Phase
  pub current_task : ℕ → Option ℕ

-- The calls that a hart may make next.
pub data Call : Type 0 where
  locks : Call
  unlocks : Call

abbrev pub set_phase : ℕ → Phase → (ℕ → Phase) → ℕ → Phase
set_phase h p phases i = if i == h then p else phases i

abbrev pub set_task : ℕ → Option ℕ → (ℕ → Option ℕ) → ℕ → Option ℕ
set_task h t tasks i = if i == h then t else tasks i

abbrev pub is_hart : Option ℕ → ℕ → Bool
is_hart none h = false
is_hart (some o) h = o == h

-- `lockSpinLock` up to the test of `locked_by`, and to its end if the hart has the lock.
unfoldable pub enter_lock : ℕ → Harts → Harts
enter_lock h s =
    let again : Harts = record s {
      lock = record s.lock { num_locks = add64 s.lock.num_locks 1 };
      phases = set_phase h holds s.phases;
      current_task = set_task h none s.current_task;
    } in
    let first : Harts = record s {
      phases = set_phase h (spinning (s.current_task h)) s.phases;
      current_task = set_task h none s.current_task;
    } in
    if is_hart s.lock.locked_by h then again else first

-- The swap of `lockUnsafeLock`; `none` is one more round of its loop.
unfoldable pub try_acquire : ℕ → Option ℕ → Harts → Option Harts
try_acquire h task s =
    if s.lock.locked
    then none
    else some (record s {
      lock = record s.lock { locked = true };
      phases = set_phase h (acquired task) s.phases;
    })

-- The writes behind it.
unfoldable pub fill_lock : ℕ → Option ℕ → Harts → Harts
fill_lock h task s = record s {
  lock = record s.lock {
    locked_by = some h;
    crit_ret_frame = task;
    num_locks = add64 s.lock.num_locks 1;
  };
  phases = set_phase h holds s.phases;
}

-- `unlockSpinLock` up to the swap, and to its end if the hart keeps the lock.
unfoldable pub leave_lock : ℕ → Harts → Harts
leave_lock h s =
    let left = sub64 s.lock.num_locks 1 in
    let kept : Harts = record s { lock = record s.lock { num_locks = left } } in
    let last : Harts = record s {
      lock = record s.lock { num_locks = left; locked_by = none; crit_ret_frame = none };
      phases = set_phase h (leaving s.lock.crit_ret_frame) s.phases;
    } in
    if left == 0 then last else kept

abbrev pub critical_return : ℕ → Option ℕ → (ℕ → Option ℕ) → ℕ → Option ℕ
critical_return h none tasks = tasks
critical_return h (some t) tasks = set_task h (some t) tasks

-- The swap of `unlockUnsafeLock`.
unfoldable pub release : ℕ → Option ℕ → Harts → Harts
release h task s = record s {
  lock = record s.lock { locked = false };
  phases = set_phase h outside s.phases;
  current_task = critical_return h task s.current_task;
}

-- A hart that is outside does not unlock.
abbrev pub step_from : Phase → Call → ℕ → Harts → Option Harts
step_from outside locks h s = some (enter_lock h s)
step_from outside unlocks h s = none
step_from (spinning task) call h s = try_acquire h task s
step_from (acquired task) call h s = some (fill_lock h task s)
step_from holds locks h s = some (enter_lock h s)
step_from holds unlocks h s = some (leave_lock h s)
step_from (leaving task) call h s = some (release h task s)

unfoldable pub step : Call → ℕ → Harts → Option Harts
step call h s = step_from (s.phases h) call h s

-- The states that harts reach from a state, one step of one hart at a time.
pub data Reaches (s : Harts) : Harts → Type 0 where
  here : Reaches s s
  after : (t u : Harts) (call : Call) (h : ℕ) → Reaches s t → step call h t ≡ some u → Reaches s u
