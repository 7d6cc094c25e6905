-- ===== src/Spinlock/Nesting.antt =====
-- Nested calls of one hart.
use some_os.Prelude.{
  ℕ, ◌+◌, ◌<◌, ◌≡◌, refl, ◌∙◌, true, false, none, some, arith, ◌==◌, word, add64, sub64, add64-eq,
  sub64-eq,
}
use some_os.Spinlock.{holds, Harts, is_hart, enter_lock, leave_lock}

-- A hart that holds the lock, has locked it fewer than 2 ^ 64 - 1 times and runs no task may lock it
-- again without waiting and unlock it again: the lock is as before, and each hart is where it was and
-- runs the task that it ran.
pub leave-enter :
    (h : ℕ) (s : Harts)
    → s.phases h ≡ holds
    → s.lock.locked_by ≡ some h
    → s.current_task h ≡ none
    → 0 < s.lock.num_locks
    → s.lock.num_locks + 1 < word
    → let t = leave_lock h (enter_lock h s) in
      (t.lock ≡ s.lock)
      × ((i : ℕ) → t.phases i ≡ s.phases i)
      × ((i : ℕ) → t.current_task i ≡ s.current_task i)
unfolding leave_lock enter_lock
leave-enter h s at mine idle held fits =
    let again : is_hart s.lock.locked_by h ≡ true = ground (arith, mine) in
    let up : add64 s.lock.num_locks 1 ≡ s.lock.num_locks + 1 = add64-eq s.lock.num_locks 1 fits in
    let down : sub64 (s.lock.num_locks + 1) 1 ≡ s.lock.num_locks =
      sub64-eq (s.lock.num_locks + 1) 1 (omega arith) fits ∙ omega arith in
    let kept : (s.lock.num_locks == 0) ≡ false = ground arith in
    rw (again, up, down, kept) (refl, λ i. ground (arith, at), λ i. ground (arith, idle))
