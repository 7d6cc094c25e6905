-- ===== src/Schedule/Moved.antt =====
-- `awakenTask` and the change of a state in task/schedule.c, and what they keep.
use some_os.Prelude.{
  ℕ, ◌≡◌, ◌⊎◌, ◌∙◌, inl, inr, refl, true, false, not, ◌&&◌, ◌||◌, some, arith, ◌==◌, if◌then◌else◌,
  ==_refl, Bool-cases,
}
use some_os.Schedule.Tails.{has}
use some_os.Schedule.State.{
  TaskState, unknown, running, enquable, ready, waiting, stopped, terminated, System, state_of,
  with_state, awaken_task, enter_state, is_terminated, is_stopped,
}
use some_os.Schedule.Agreement.{
  member, may_be_queued, IsSystem, remove-member, remove-IsUnique, remove_waiting-some,
}

-- A change of the state of a task that does not wait.
with_state-IsSystem :
    (task : ℕ) (st : TaskState) (s : System)
    → IsSystem s
    → member task s.waiting_tasks ≡ false
    → (has task s.queue.tasks ≡ false) ⊎ (may_be_queued st ≡ true)
    → IsSystem (with_state task st s)
with_state-IsSystem task st s v out h = record {
  unique = v.unique;
  waits = λ x m. ground (arith, v.waits x);
  queue = v.queue;
  queued = λ x m. ground (arith, v.queued x);
}

pub enter_state-IsSystem :
    (task : ℕ) (st : TaskState) (s : System)
    → IsSystem s
    → member task s.waiting_tasks ≡ false
    → (has task s.queue.tasks ≡ false) ⊎ (may_be_queued st ≡ true)
    → IsSystem (enter_state task st s) × (member task (enter_state task st s).waiting_tasks ≡ false)
unfolding enter_state
enter_state-IsSystem task st s v out h =
    elim (Bool-cases (
      not (is_terminated (state_of task s))
      && (not (is_stopped (state_of task s)) || is_terminated st))) [
        | inl enters ↦ rw enters (with_state-IsSystem task st s v out h, out)
        | inr stays ↦ rw stays (v, out)
      ]

-- The task is in its new state and not in the waiting list; no other state, and nothing else of the
-- lists, has changed.
abbrev pub IsMoved : ℕ → TaskState → System → System → Type 0
IsMoved task st s t =
    (x : ℕ)
    → (state_of x t ≡ (if x == task then st else state_of x s))
      × (member x t.waiting_tasks ≡ (if x == task then false else member x s.waiting_tasks))
      × (t.queue ≡ s.queue)
      × (t.freed ≡ s.freed)

-- `awakenTask` of a waiting task takes it out of the waiting list and makes it enquable.
pub awaken-IsSystem :
    (task : ℕ) (s : System)
    → IsSystem s
    → member task s.waiting_tasks ≡ true
    → (t : System) × (awaken_task task s ≡ some t)
      × IsSystem t
      × (member task t.waiting_tasks ≡ false)
      × (has task t.queue.tasks ≡ false)
      × IsMoved task enquable s t
unfolding awaken_task
awaken-IsSystem task s v m =
    let (ys, e) = remove_waiting-some task s.waiting_tasks m in
    let h = v.waits task m in
    let out : has task s.queue.tasks ≡ false = (elim (Bool-cases (has task s.queue.tasks)) [
      | inr absent ↦ absent
      | inl in_queue ↦ let q = v.queued task in_queue in ground arith
    ]) in
    let gone : member task ys ≡ false =
      ground (arith, remove-member task task s.waiting_tasks ys v.unique e) in
    let s' = record s { waiting_tasks = ys } in
    let w : IsSystem s' = record {
      unique = remove-IsUnique task s.waiting_tasks ys v.unique e;
      waits = λ x k. ground (arith, v.waits x, remove-member task x s.waiting_tasks ys v.unique e);
      queue = v.queue;
      queued = v.queued;
    } in
    (
      with_state task enquable s',
      ground arith,
      with_state-IsSystem task enquable s' w gone (inl out),
      gone,
      out,
      λ x. (
        ground arith,
        ground (arith, remove-member task x s.waiting_tasks ys v.unique e),
        refl,
        refl,
      ),
    )

-- The state that a task enters: a terminated task stays so, and a stopped one unless it is terminated.
abbrev pub entered : TaskState → TaskState → TaskState
entered terminated st = terminated
entered stopped st = if is_terminated st then st else stopped
entered _ st = st

pub enter_state-IsMoved :
    (task : ℕ) (st : TaskState) (s : System)
    → member task s.waiting_tasks ≡ false
    → IsMoved task (entered (state_of task s) st) s (enter_state task st s)
unfolding enter_state
enter_state-IsMoved task st s out x = go (state_of task s) refl
  where
    listed : member x s.waiting_tasks ≡ (if x == task then false else member x s.waiting_tasks)
    listed = ground (arith, out)

    go :
        (c : TaskState)
        → state_of task s ≡ c
        → (state_of x (enter_state task st s)
            ≡ (if x == task then entered (state_of task s) st else state_of x s))
          × (member x (enter_state task st s).waiting_tasks
              ≡ (if x == task then false else member x s.waiting_tasks))
          × ((enter_state task st s).queue ≡ s.queue)
          × ((enter_state task st s).freed ≡ s.freed)
    go terminated e = rw e (ground (arith, e), listed, refl, refl)
    go stopped e = elim (Bool-cases (is_terminated st)) [
      | inl ends ↦ rw (e, ends) (ground (arith, e), listed, refl, refl)
      | inr stays ↦ rw (e, stays) (ground (arith, e), listed, refl, refl)
    ]
    go unknown e = rw e (ground (arith, e), listed, refl, refl)
    go running e = rw e (ground (arith, e), listed, refl, refl)
    go enquable e = rw e (ground (arith, e), listed, refl, refl)
    go ready e = rw e (ground (arith, e), listed, refl, refl)
    go waiting e = rw e (ground (arith, e), listed, refl, refl)

-- What a waiting task goes through.
pub awakened-IsMoved :
    (task : ℕ) (st : TaskState) (s t u : System)
    → state_of task s ≡ waiting
    → IsMoved task enquable s t
    → IsMoved task (entered (state_of task t) st) t u
    → IsMoved task (entered (state_of task s) st) s u
awakened-IsMoved task st s t u e first second x =
    let (a, b, c, d) = first x in
    let (a', b', c', d') = second x in
    let awake : state_of task t ≡ enquable = (first task).0 ∙ rw (==_refl task) refl in
    (a' ∙ rw (awake, e) (ground (arith, a)), b' ∙ ground (arith, b), c' ∙ c, d' ∙ d)
