-- ===== src/Schedule/Pull.antt =====
-- `pullTaskFromQueue` of task/schedule.c.
use mathlib.Core.Path.{subst}
use some_os.Prelude.{
  ℕ, zero, suc, ◌+◌, ◌-◌, ◌≤◌, ◌<◌, ◌≡◌, ◌≢◌, ◌∙◌, refl, sym, ap, true, false, Option, none, some,
  List, [], ◌∷◌, arith, leb, ◌==◌, if◌then◌else◌, Bool-cases, Option-cases, inl, inr, leb→le,
  leb→lt,
}
use some_os.Schedule.{
  max_priority, Queued, ScheduleQueue, same, set_tail, spread, spread_down, pull_tails, pull_from,
  pull_task_from_queue,
}
use some_os.Schedule.Tails.{last_le, IsSortedFrom, IsDistinct, IsQueue, last_le-none, has-last_le}
use some_os.Schedule.Push.{
  same-eq, same_refl, last_le-none_mono, last_le-between, spread-below, spread-above,
}

-- After an empty tail the loop that copies the tail before only clears.
spread_down-spread :
    (n i : ℕ) (old : Option ℕ) (tails : ℕ → Option ℕ)
    → tails i ≡ none
    → spread_down n (i + 1) old tails ≡ spread n (i + 1) old none tails
unfolding spread_down spread
spread_down-spread zero i old tails h = refl
spread_down-spread (suc n) i old tails h =
    let e : i + 1 - 1 ≡ i = omega arith in
    let f : (i + 1 == i + 1) ≡ true = ground arith in
    rw (e, h) (rw (spread_down-spread n (i + 1) old (set_tail tails (i + 1) none) (rw f refl)) refl)

-- Without its first task, a priority's last task is the same, if that was not the first.
last_le-tail :
    (i : ℕ) (t : Queued) (ts : List Queued)
    → IsDistinct (t ∷ ts)
    → last_le i ts ≡ (if same (last_le i (t ∷ ts)) (some t.id) then none else last_le i (t ∷ ts))
unfolding last_le
last_le-tail i t ts d = elim (Option-cases (last_le i ts)) [
  | inl gone ↦ ground arith
  | inr (x, found) ↦ ground (arith, has-last_le i x ts)
]

module _ (t : Queued) (ts : List Queued) (tails : ℕ → Option ℕ) (sorted : IsSortedFrom 0 (t ∷ ts))
    (distinct : IsDistinct (t ∷ ts))
    (are : (i : ℕ) → i < max_priority → tails i ≡ last_le i (t ∷ ts)) where
  -- The first task has the highest priority, so a higher one has no task.
  above-none : (i : ℕ) → i < t.queue_priority → last_le i (t ∷ ts) ≡ none
  above-none i h = last_le-none i t.queue_priority (t ∷ ts) (omega arith, sorted.1, sorted.2) h

  below-none : (if t.queue_priority == 0 then none else tails (t.queue_priority - 1)) ≡ none
  below-none = elim (Bool-cases (t.queue_priority == 0)) [
    | inl e ↦ rw e refl
    | inr e ↦
        let ne : t.queue_priority ≢ 0 = ground arith in
        rw e (
          are (t.queue_priority - 1) (omega arith)
          ∙ above-none (t.queue_priority - 1) (omega arith))
  ]

  -- The first task is the last one up to some priority only if it is so at its own.
  first-own :
      (i : ℕ) → last_le i (t ∷ ts) ≡ some t.id → last_le t.queue_priority (t ∷ ts) ≡ some t.id
  unfolding last_le
  first-own i e = elim (Option-cases (last_le i ts)) [
    | inr (x, found) ↦ ground (arith, has-last_le i x ts)
    | inl gone ↦ ground (arith, last_le-none_mono t.queue_priority i ts)
  ]

  pull_tails-last_le : (i : ℕ) → i < max_priority → pull_tails t tails i ≡ last_le i ts
  pull_tails-last_le i h =
      let p = t.queue_priority in
      let bound : p < max_priority = sorted.1 in
      elim (Bool-cases (same (tails p) (some t.id))) [
        | inr other ↦ rw other (
            are i h ∙ (elim (Bool-cases (same (last_le i (t ∷ ts)) (some t.id))) [
              | inr e ↦ sym (last_le-tail i t ts distinct ∙ rw e refl)
              | inl e ↦
                  let f = first-own i (same-eq (last_le i (t ∷ ts)) (some t.id) e) in
                  let g : same (tails p) (some t.id) ≡ true =
                    rw (are p bound, f) (same_refl (some t.id)) in
                  cc
            ]))
        | inl mine ↦
            let own : last_le p (t ∷ ts) ≡ some t.id =
              sym (are p bound) ∙ same-eq (tails p) (some t.id) mine in
            let n = max_priority - (p + 1) in
            let cleared = set_tail tails p none in
            let here : (p == p) ≡ true = ground arith in
            let loop : spread_down n (p + 1) (some t.id) cleared
                ≡ spread n (p + 1) (some t.id) none cleared =
              spread_down-spread n p (some t.id) cleared (rw here refl) in
            let row : (k j : ℕ)
                → p + 1 ≤ k
                → k ≤ j
                → j < p + 1 + n
                → cleared j ≡ some t.id
                → cleared k ≡ some t.id =
              λ k j l m o e.
                let fk : (k == p) ≡ false = ground arith in
                let fj : (j == p) ≡ false = ground arith in
                rw fk (
                  are k (omega arith)
                  ∙ last_le-between p k j (t ∷ ts) distinct (omega arith) m
                      (sym (are j (omega arith)) ∙ (rw fj at e) ∙ sym own)
                  ∙ own) in
            rw (mine, below-none, loop)
              (elim (Bool-cases (leb (p + 1) i)) [
                | inl up ↦
                    let le = leb→le (p + 1) i up in
                    let f : (i == p) ≡ false = ground arith in
                    spread-above n (p + 1) (some t.id) none cleared row i le (omega arith)
                    ∙ rw (f, are i h) (sym (last_le-tail i t ts distinct))
                | inr down ↦
                    let lt = leb→lt (p + 1) i down in
                    spread-below n (p + 1) i (some t.id) none cleared lt
                    ∙ (elim (Bool-cases (i == p)) [
                      | inl e ↦
                          let f : i ≡ p = ground arith in
                          rw e (
                            sym (
                              last_le-tail i t ts distinct
                              ∙ rw (f, own) (rw (same_refl (some t.id)) refl)))
                      | inr e ↦
                          let ne : i < p = ground arith in
                          let top = above-none i ne in
                          rw (e, are i h) (top ∙ sym (last_le-tail i t ts distinct ∙ rw top refl))
                    ])
              ])
      ]

pull-first :
    (q : ScheduleQueue) (t : Queued) (ts : List Queued)
    → IsQueue q
    → q.tasks ≡ t ∷ ts
    → ((pull_task_from_queue q).0 ≡ some t)
      × ((pull_task_from_queue q).1.tasks ≡ ts)
      × IsQueue (pull_task_from_queue q).1
unfolding pull_task_from_queue
pull-first q t ts v e =
    let sorted = subst (IsSortedFrom 0) e v.sorted in
    let distinct = subst IsDistinct e v.distinct in
    rw e (
      refl,
      refl,
      record {
        sorted = lower t.queue_priority ts sorted.2;
        distinct = distinct.1;
        tails =
            pull_tails-last_le t ts q.tails sorted distinct λ i h. v.tails i h ∙ ap (last_le i) e;
      },
    )
  where
    lower : (lo : ℕ) (xs : List Queued) → IsSortedFrom lo xs → IsSortedFrom 0 xs
    lower lo [] s = tt
    lower lo (x ∷ xs) s = (omega arith, s.1, s.2)

abbrev pub first_of : List Queued → Option Queued
first_of [] = none
first_of (t ∷ ts) = some t

abbrev pub others_of : List Queued → List Queued
others_of [] = []
others_of (t ∷ ts) = ts

-- `pullTaskFromQueue` returns null for an empty queue, which it leaves as it is; otherwise it takes
-- the first task, of the highest priority and there the longest in the queue. The other tasks stay as
-- they are, and a valid queue stays valid.
pub pull-head :
    (q : ScheduleQueue)
    → IsQueue q
    → ((pull_task_from_queue q).0 ≡ first_of q.tasks)
      × ((pull_task_from_queue q).1.tasks ≡ others_of q.tasks)
      × IsQueue (pull_task_from_queue q).1
      × (q.tasks ≡ [] → (pull_task_from_queue q).1 ≡ q)
unfolding pull_task_from_queue
pull-head q v = go q.tasks refl
  where
    go :
        (xs : List Queued)
        → q.tasks ≡ xs
        → ((pull_task_from_queue q).0 ≡ first_of q.tasks)
          × ((pull_task_from_queue q).1.tasks ≡ others_of q.tasks)
          × IsQueue (pull_task_from_queue q).1
          × (q.tasks ≡ [] → (pull_task_from_queue q).1 ≡ q)
    go [] e =
        let same = ap (λ xs. pull_from xs q) e in
        (
          ap (λ r. r.0) same ∙ sym (ap first_of e),
          ap (λ r. r.1.tasks) same ∙ e ∙ sym (ap others_of e),
          subst (λ r. IsQueue r.1) (sym same) v,
          λ h. ap (λ r. r.1) same,
        )
    go (t ∷ ts) e =
        let (first, left, kept) = pull-first q t ts v e in
        (first ∙ rw e refl, left ∙ rw e refl, kept, λ h. cc)
