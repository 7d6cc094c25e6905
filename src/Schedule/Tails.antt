-- ===== src/Schedule/Tails.antt =====
-- The tails of a ready queue of task/schedule.c: the last task up to each priority.
use some_os.Prelude.{
  ℕ, ◌≤◌, ◌<◌, ◌≡◌, refl, Bool, true, false, Option, none, some, List, [], ◌∷◌, arith, leb, ◌==◌,
  if◌then◌else◌, Option-cases, inl, inr,
}
use some_os.Schedule.{max_priority, Queued, ScheduleQueue, insert_after, insert_at}

-- The last task of the list with a priority of at most `i`.
unfoldable pub last_le : ℕ → List Queued → Option ℕ
last_le i [] = none
last_le i (t ∷ ts) = elim (last_le i ts) [
  | some x ↦ some x
  | none ↦ if leb t.queue_priority i then some t.id else none
]

-- The priorities do not fall, from `lo` on, and stay below 40.
abbrev pub IsSortedFrom : ℕ → List Queued → Type 0
IsSortedFrom lo [] = Unit
IsSortedFrom lo (t ∷ ts) =
    (lo ≤ t.queue_priority) × (t.queue_priority < max_priority) × IsSortedFrom t.queue_priority ts

abbrev pub has : ℕ → List Queued → Bool
has a [] = false
has a (t ∷ ts) = if t.id == a then true else has a ts

abbrev pub IsDistinct : List Queued → Type 0
IsDistinct [] = Unit
IsDistinct (t ∷ ts) = (has t.id ts ≡ false) × IsDistinct ts

pub record IsQueue (q : ScheduleQueue) : Type 0 where
  pub sorted : IsSortedFrom 0 q.tasks
  pub distinct : IsDistinct q.tasks
  pub tails : (i : ℕ) → i < max_priority → q.tails i ≡ last_le i q.tasks

-- A new task goes behind all tasks of its own priority or a higher one (a smaller number).
unfoldable pub insert : Queued → List Queued → List Queued
insert new [] = new ∷ []
insert new (t ∷ ts) =
    if leb t.queue_priority new.queue_priority then t ∷ insert new ts else new ∷ t ∷ ts

pub insert-IsSortedFrom :
    (lo : ℕ) (new : Queued) (ts : List Queued)
    → IsSortedFrom lo ts
    → lo ≤ new.queue_priority
    → new.queue_priority < max_priority
    → IsSortedFrom lo (insert new ts)
unfolding insert
insert-IsSortedFrom lo new [] s h k = (h, k, tt)
insert-IsSortedFrom lo new (t ∷ ts) s h k =
    ground (arith, insert-IsSortedFrom t.queue_priority new ts)

pub has-insert :
    (a : ℕ) (new : Queued) (ts : List Queued)
    → has a (insert new ts) ≡ (if new.id == a then true else has a ts)
unfolding insert
has-insert a new [] = refl
has-insert a new (t ∷ ts) = ground (arith, has-insert a new ts)

pub insert-IsDistinct :
    (new : Queued) (ts : List Queued)
    → IsDistinct ts
    → has new.id ts ≡ false
    → IsDistinct (insert new ts)
unfolding insert
insert-IsDistinct new [] d h = (refl, tt)
insert-IsDistinct new (t ∷ ts) d h =
    ground (arith, insert-IsDistinct new ts, has-insert t.id new ts)

-- From a larger priority on, nothing is at most `i`.
pub last_le-none : (i lo : ℕ) (ts : List Queued) → IsSortedFrom lo ts → i < lo → last_le i ts ≡ none
unfolding last_le
last_le-none i lo [] s h = refl
last_le-none i lo (t ∷ ts) s h = ground (arith, last_le-none i t.queue_priority ts)

-- What `last_le` finds is in the list.
pub has-last_le : (i a : ℕ) (ts : List Queued) → last_le i ts ≡ some a → has a ts ≡ true
unfolding last_le
has-last_le i a [] h = cc
has-last_le i a (t ∷ ts) h = elim (Option-cases (last_le i ts)) [
  | inl gone ↦ ground arith
  | inr (x, found) ↦ ground (arith, has-last_le i a ts)
]

-- Putting the new task behind the last one up to its priority is the ordered insertion.
pub insert_at-insert :
    (lo : ℕ) (new : Queued) (ts : List Queued)
    → IsSortedFrom lo ts
    → IsDistinct ts
    → insert_at (last_le new.queue_priority ts) new ts ≡ insert new ts
unfolding last_le insert insert_after
insert_at-insert lo new [] s d = refl
insert_at-insert lo new (t ∷ ts) s d = elim (Option-cases (last_le new.queue_priority ts)) [
  | inl gone ↦ ground (arith, insert_at-insert t.queue_priority new ts)
  | inr (x, found) ↦ ground (
    arith,
    insert_at-insert t.queue_priority new ts,
    has-last_le new.queue_priority x ts,
    last_le-none new.queue_priority t.queue_priority ts,
  )
]
