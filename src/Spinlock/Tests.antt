-- ===== src/Spinlock/Tests.antt =====
-- The lock of task/spinlock.c at concrete states.
use some_os.Prelude.{ℕ, ◌≡◌, refl, true, some}
use some_os.Spinlock.{
  outside, acquired, Harts, locks, step, init_spin_lock, enter_lock, try_acquire, fill_lock,
  set_phase, Reaches, here, after,
}
use some_os.Spinlock.Exclusion.{IsFree, Reaches-exclusive}

-- Hart `i` runs task `i`.
abbrev at_start : Harts
at_start = record { lock = init_spin_lock; phases = λ _. outside; current_task = λ i. some i }

abbrev first_hart : ℕ
first_hart = 1

-- Hart 1 takes the lock, and hart 2 waits for it.
abbrev entered : Harts
entered = enter_lock 1 at_start

abbrev swapped : Harts
swapped = record entered {
  lock = record entered.lock { locked = true };
  phases = set_phase 1 (acquired (some 1)) entered.phases;
}

abbrev filled : Harts
filled = fill_lock 1 (some 1) swapped

abbrev contended : Harts
contended = enter_lock 2 filled

at_start-IsFree : IsFree at_start
at_start-IsFree = record { unlocked = refl; nobody = refl; all_out = λ _. refl }

at_start-filled : Reaches at_start filled
unfolding step enter_lock try_acquire fill_lock
at_start-filled =
    after swapped filled locks 1
      (after entered swapped locks 1 (after at_start entered locks 1 here refl) refl) refl

at_start-contended : Reaches at_start contended
unfolding step enter_lock try_acquire fill_lock
at_start-contended = after filled contended locks 2 at_start-filled refl

Reaches-exclusive_example : first_hart ≡ first_hart
unfolding enter_lock fill_lock
Reaches-exclusive_example =
    Reaches-exclusive at_start contended first_hart first_hart at_start-IsFree at_start-contended
      refl refl
