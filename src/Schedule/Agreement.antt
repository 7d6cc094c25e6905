-- ===== src/Schedule/Agreement.antt =====
-- The invariant of the states of task/schedule.c, and the waiting list.
use some_os.Prelude.{
  ℕ, ◌≡◌, inl, inr, refl, Bool, true, false, some, List, [], ◌∷◌, arith, ◌==◌, if◌then◌else◌,
  Option-cases, Bool-cases,
}
use some_os.Schedule.Tails.{IsQueue, has}
use some_os.Schedule.State.{
  TaskState, ready, waiting, stopped, terminated, System, state_of, remove_waiting,
}

abbrev pub member : ℕ → List ℕ → Bool
member a [] = false
member a (x ∷ xs) = if x == a then true else member a xs

abbrev pub IsUnique : List ℕ → Type 0
IsUnique [] = Unit
IsUnique (x ∷ xs) = (member x xs ≡ false) × IsUnique xs

-- A task in the queue is ready, or was stopped or terminated there.
abbrev pub may_be_queued : TaskState → Bool
may_be_queued ready = true
may_be_queued stopped = true
may_be_queued terminated = true
may_be_queued _ = false

-- The waiting list holds waiting tasks, each once; the queue is valid and holds no other tasks than
-- such that may be in it.
pub record IsSystem (s : System) : Type 0 where
  pub unique : IsUnique s.waiting_tasks
  pub waits : (x : ℕ) → member x s.waiting_tasks ≡ true → state_of x s ≡ waiting
  pub queue : IsQueue s.queue
  pub queued : (x : ℕ) → has x s.queue.tasks ≡ true → may_be_queued (state_of x s) ≡ true

pub remove-member :
    (task x : ℕ) (xs ys : List ℕ)
    → IsUnique xs
    → remove_waiting task xs ≡ some ys
    → member x ys ≡ (if x == task then false else member x xs)
unfolding remove_waiting
remove-member task x [] ys u e = cc
remove-member task x (y ∷ xs) ys u e = elim (Option-cases (remove_waiting task xs)) [
  | inl gone ↦ ground arith
  | inr (zs, found) ↦ ground (arith, remove-member task x xs zs)
]

pub remove-IsUnique :
    (task : ℕ) (xs ys : List ℕ) → IsUnique xs → remove_waiting task xs ≡ some ys → IsUnique ys
unfolding remove_waiting
remove-IsUnique task [] ys u e = cc
remove-IsUnique task (y ∷ xs) ys u e = elim (Option-cases (remove_waiting task xs)) [
  | inl gone ↦ ground arith
  | inr (zs, found) ↦ ground (arith, remove-IsUnique task xs zs, remove-member task y xs zs)
]

pub remove_waiting-some :
    (task : ℕ) (xs : List ℕ)
    → member task xs ≡ true
    → (ys : List ℕ) × (remove_waiting task xs ≡ some ys)
unfolding remove_waiting
remove_waiting-some task [] h = cc
remove_waiting-some task (x ∷ xs) h = elim (Bool-cases (x == task)) [
  | inl here ↦ (xs, rw here refl)
  | inr further ↦
      let (ys, e) = remove_waiting-some task xs (rw further at h) in (x ∷ ys, rw (further, e) refl)
]
