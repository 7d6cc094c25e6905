-- ===== src/TaskLock/Exclusion.antt =====
-- The owner of a lock of task/tasklock.c, and the tasks that sleep.
use mathlib.Core.Bool.{false≢true}
use mathlib.Core.Path.{subst}
use mathlib.Core.Option.{some_inj}
use some_os.Prelude.{
  ℕ, ◌≡◌, refl, sym, ◌∙◌, true, none, some, [], ◌==◌, Bool-cases, Option-cases, ==_iff, inl, inr,
}
use some_os.TaskLock.{outside, Tasks, give_up, task_step, Arrives, here, after}
use some_os.TaskLock.Kept.{
  is_in, awaken_all-eq, is_owner, is_asleep, IsKept, AllKept, step_at-AllKept, not_some,
}

-- The lock as it is initialised, and no task that has to do with it.
abbrev pub AreOutside : Tasks → Type 0
AreOutside s =
    (s.lock.locked_by ≡ none) × (s.lock.wait_queue ≡ []) × ((i : ℕ) → s.stages i ≡ outside)

start-IsKept : (s : Tasks) → AreOutside s → IsKept s
start-IsKept s h = record {
  owned = λ i e. absurd (false≢true (rw (h.2 i) at e));
  owner = λ o e. absurd (false≢true (not_some s.lock.locked_by o h.0 e));
  unlocked = λ e. h.1;
  queued = λ i e. absurd (false≢true (rw (h.2 i) at e));
}

Arrives-IsKept : (s u : Tasks) → AreOutside s → Arrives s u → IsKept u
unfolding task_step AllKept
Arrives-IsKept s u h here = start-IsKept s h
Arrives-IsKept s u h (after v w call t before e) =
    let kept = step_at-AllKept (v.stages t) call t v refl (Arrives-IsKept s v h before) in
    subst (λ o. AllKept o) e kept

owner_unique :
    (u : Tasks) (o j : ℕ) → IsKept u → u.lock.locked_by ≡ some o → is_owner (u.stages j) ≡ (j == o)
owner_unique u o j k held = elim (Bool-cases (j == o)) [
  | inl e ↦ let same = (==_iff j o).0 e in rw e (rw same (k.owner o held))
  | inr e ↦ elim (Bool-cases (is_owner (u.stages j))) [
    | inl mine ↦
        let same : j ≡ o = some_inj.0 (sym (k.owned j mine) ∙ held) in
        absurd (false≢true (sym e ∙ (==_iff j o).1 same))
    | inr other ↦ other ∙ sym e
  ]
]

-- The task that gives up the lock is awake, and so is every task of the queue.
give_up-awake :
    (u : Tasks) (o i : ℕ) → is_in i u.lock.wait_queue ≡ true → (give_up o u).stages i ≡ outside
unfolding give_up
give_up-awake u o i queued = elim (Bool-cases (i == o)) [
  | inl e ↦ rw e refl
  | inr e ↦ rw e (awaken_all-eq u.lock.wait_queue u.stages i ∙ rw queued refl)
]

-- In any order of steps from a lock as it is initialised: while a task sleeps, it is in the wait queue
-- of the lock, the lock has an owner and no other task has it, and when the owner gives the lock up, the
-- task is awakened. That the owner comes to give it up is not said.
pub Arrives-awake :
    (s u : Tasks) (i : ℕ)
    → AreOutside s
    → Arrives s u
    → is_asleep (u.stages i) ≡ true
    → (o : ℕ) × (u.lock.locked_by ≡ some o)
      × ((j : ℕ) → is_owner (u.stages j) ≡ (j == o))
      × (is_in i u.lock.wait_queue ≡ true)
      × ((give_up o u).stages i ≡ outside)
Arrives-awake s u i h reaches sleeps =
    let k = Arrives-IsKept s u h reaches in
    let queue = k.queued i sleeps in
    elim (Option-cases u.lock.locked_by) [
      | inl free ↦ let nobody = k.unlocked free in absurd (false≢true (rw nobody at queue))
      | inr (o, held) ↦ (o, held, λ j. owner_unique u o j k held, queue, give_up-awake u o i queue)
    ]
