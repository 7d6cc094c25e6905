-- ===== src/Schedule/Push.antt =====
-- `pushTaskToQueue` of task/schedule.c.
use native.Mathlib.Decide.{ℕ_discrete}
use some_os.Prelude.{
  ℕ, zero, suc, ◌+◌, ◌-◌, ◌≤◌, ◌<◌, ◌≡◌, ◌∙◌, refl, sym, ap, true, false, ◌&&◌, Option, none, some,
  List, [], ◌∷◌, arith, ltb, leb, ◌==◌, if◌then◌else◌, Bool-cases, Option-cases, inl, inr, leb→le,
  leb→lt,
}
use some_os.Schedule.{
  max_priority, Queued, ScheduleQueue, same, set_tail, spread, insert_at, push_task_to_queue,
}
use some_os.Schedule.Tails.{
  last_le, IsSortedFrom, IsDistinct, IsQueue, has, insert, insert-IsSortedFrom, insert-IsDistinct,
  last_le-none, has-last_le, insert_at-insert,
}

pub same-eq : (a b : Option ℕ) → same a b ≡ true → a ≡ b
same-eq none none h = refl
same-eq none (some b) h = cc
same-eq (some a) none h = cc
same-eq (some a) (some b) h = ground arith

pub same_refl : (a : Option ℕ) → same a a ≡ true
same_refl none = refl
same_refl (some a) = ground arith

pub last_le-none_mono :
    (k j : ℕ) (ts : List Queued) → k ≤ j → last_le j ts ≡ none → last_le k ts ≡ none
unfolding last_le
last_le-none_mono k j [] h e = refl
last_le-none_mono k j (t ∷ ts) h e = elim (Option-cases (last_le j ts)) [
  | inl gone ↦ ground (arith, last_le-none_mono k j ts)
  | inr (x, found) ↦ ground arith
]

-- Where two priorities have the same last task, so has every priority between them.
pub last_le-between :
    (p k j : ℕ) (ts : List Queued)
    → IsDistinct ts
    → p ≤ k
    → k ≤ j
    → last_le j ts ≡ last_le p ts
    → last_le k ts ≡ last_le p ts
unfolding last_le
last_le-between p k j [] d h l e = refl
last_le-between p k j (t ∷ ts) d h l e = elim (Option-cases (last_le j ts)) [
  | inl gone ↦ ground (arith, last_le-none_mono k j ts, last_le-none_mono p j ts)
  | inr (x, found) ↦ elim (Option-cases (last_le p ts)) [
    | inl gone ↦ ground (arith, has-last_le j x ts)
    | inr (y, found') ↦ ground (arith, last_le-between p k j ts)
  ]
]

-- What a priority's last task is after an insertion.
pub last_le-insert :
    (lo i : ℕ) (new : Queued) (ts : List Queued)
    → IsSortedFrom lo ts
    → IsDistinct ts
    → last_le i (insert new ts) ≡ (
        if leb new.queue_priority i && same (last_le i ts) (last_le new.queue_priority ts)
        then some new.id
        else last_le i ts)
unfolding last_le insert
last_le-insert lo i new [] s d = ground arith
last_le-insert lo i new (t ∷ ts) s d =
    let p = new.queue_priority in
    let ih = last_le-insert t.queue_priority i new ts s.2 d.1 in
    let later = last_le-none p t.queue_priority ts s.2 in
    elim (Option-cases (last_le i ts)) [
      | inl gone ↦ elim (Option-cases (last_le p ts)) [
        | inl gone' ↦ ground arith
        | inr (y, found') ↦ ground (arith, last_le-none_mono p i ts)
      ]
      | inr (x, found) ↦ elim (Option-cases (last_le p ts)) [
        | inl gone' ↦ ground (arith, has-last_le i x ts)
        | inr (y, found') ↦ ground arith
      ]
    ]

pub spread-below :
    (n i j : ℕ) (old new : Option ℕ) (tails : ℕ → Option ℕ)
    → j < i
    → spread n i old new tails j ≡ tails j
unfolding spread
spread-below zero i j old new tails h = refl
spread-below (suc n) i j old new tails h =
    ground (arith, spread-below n (i + 1) j old new (set_tail tails i new))

-- The loop changes the tails from `i` on that are `old`, if these stand in a row.
pub spread-above :
    (n i : ℕ) (old new : Option ℕ) (tails : ℕ → Option ℕ)
    → ((k j : ℕ) → i ≤ k → k ≤ j → j < i + n → tails j ≡ old → tails k ≡ old)
    → (j : ℕ) → i ≤ j
    → j < i + n
    → spread n i old new tails j ≡ (if same (tails j) old then new else tails j)
unfolding spread
spread-above zero i old new tails row j h k = absurd (omega arith)
spread-above (suc n) i old new tails row j h k = elim (Bool-cases (same (tails i) old)) [
  | inr stops ↦
      let first : tails j ≡ old → tails i ≡ old = λ e. row i j (omega arith) h k e in
      let other : same (tails j) old ≡ false = (elim (Bool-cases (same (tails j) old)) [
        | inr e ↦ e
        | inl e ↦
            let f = first (same-eq (tails j) old e) in
            let g : same (tails i) old ≡ true = rw f (same_refl old) in cc
      ]) in
      rw stops (rw other refl)
  | inl goes ↦ rw goes (elim (ℕ_discrete j i) [
    | yes e ↦
        let f : (j == i) ≡ true = ground arith in
        let g : same (tails j) old ≡ true = rw e goes in
        spread-below n (i + 1) j old new (set_tail tails i new) (omega arith) ∙ rw (f, g) refl
    | no ne ↦
        let f : (j == i) ≡ false = ground arith in
        rw f at (
          spread-above n (i + 1) old new (set_tail tails i new)
            (λ a b l m o e.
              let fa : (a == i) ≡ false = ground arith in
              let fb : (b == i) ≡ false = ground arith in
              rw fa (row a b (omega arith) m (omega arith) (rw fb at e)))
            j (omega arith) (omega arith))
  ])
]

abbrev pub clamped : Queued → Queued
clamped t = record t { queue_priority = if ltb 39 t.queue_priority then 39 else t.queue_priority }

-- `pushTaskToQueue` puts a task that is not in the queue behind all tasks of its priority or a
-- higher one and before all others, a priority beyond the lowest counting as the lowest, and keeps
-- the queue valid: ordered by priority, with no task twice, each tail at the last task up to its
-- priority.
pub push-insert :
    (task : Queued) (q : ScheduleQueue)
    → IsQueue q
    → has task.id q.tasks ≡ false
    → ((push_task_to_queue task q).tasks ≡ insert (clamped task) q.tasks)
      × IsQueue (push_task_to_queue task q)
unfolding push_task_to_queue
push-insert task q v out =
    let new = clamped task in
    let p = new.queue_priority in
    let bound : p < max_priority = ground arith in
    let old = v.tails p bound in
    let ts = q.tasks in
    let placed : insert_at (q.tails p) new ts ≡ insert new ts =
      ap (λ o. insert_at o new ts) old ∙ insert_at-insert 0 new ts v.sorted v.distinct in
    let row : (k j : ℕ)
        → p ≤ k
        → k ≤ j
        → j < p + (max_priority - p)
        → q.tails j ≡ q.tails p
        → q.tails k ≡ q.tails p =
      λ k j l m h e.
        v.tails k (omega arith)
        ∙ last_le-between p k j ts v.distinct l m (sym (v.tails j (omega arith)) ∙ (e ∙ old))
        ∙ sym old in
    let after : (i : ℕ)
        → i < max_priority
        → spread (max_priority - p) p (q.tails p) (some task.id) q.tails i
          ≡ last_le i (insert new ts) =
      λ i h. (elim (Bool-cases (leb p i)) [
        | inl up ↦
            spread-above (max_priority - p) p (q.tails p) (some task.id) q.tails row i
              (leb→le p i up) (omega arith)
            ∙ rw (v.tails i h, old) (rw (last_le-insert 0 i new ts v.sorted v.distinct, up) refl)
        | inr down ↦
            spread-below (max_priority - p) p i (q.tails p) (some task.id) q.tails (leb→lt p i down)
            ∙ rw (v.tails i h) (rw (last_le-insert 0 i new ts v.sorted v.distinct, down) refl)
      ]) in
    (
      placed,
      record {
        sorted = rw placed (insert-IsSortedFrom 0 new ts v.sorted (omega arith) bound);
        distinct = rw placed (insert-IsDistinct new ts v.distinct out);
        tails = λ i h. rw placed (after i h);
      },
    )
