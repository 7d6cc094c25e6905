-- ===== src/TaskLock/Kept.antt =====
-- What each step of task/tasklock.c keeps of the lock and its tasks.
use mathlib.Core.Bool.{false≢true}
use mathlib.Core.Option.{some_inj}
use some_os.Prelude.{
  ℕ, ◌≡◌, refl, sym, ◌∙◌, Bool, true, false, ◌||◌, Option, none, some, List, [], ◌∷◌, ◌==◌,
  if◌then◌else◌, Bool-cases, Option-cases, ==_iff, ==_refl, inl, inr, add64, sub64,
}
use some_os.TaskLock.{
  Stage, outside, asleep, acquired, counted, leaving, Tasks, TaskCall, locks, tries, unlocks,
  set_stage, is_taken, acquire, wait_for_task_lock, lock_or_wait_task_lock, try_locking_task_lock,
  count_lock, count_down, awaken_all, give_up, step_at,
}

abbrev pub is_owner : Stage → Bool
is_owner outside = false
is_owner asleep = false
is_owner acquired = true
is_owner counted = true
is_owner leaving = true

abbrev pub is_asleep : Stage → Bool
is_asleep outside = false
is_asleep asleep = true
is_asleep acquired = false
is_asleep counted = false
is_asleep leaving = false

abbrev pub is_in : ℕ → List ℕ → Bool
is_in i [] = false
is_in i (t ∷ ts) = i == t || is_in i ts

pub record IsKept (s : Tasks) : Type 0 where
  pub owned : (i : ℕ) → is_owner (s.stages i) ≡ true → s.lock.locked_by ≡ some i
  pub owner : (o : ℕ) → s.lock.locked_by ≡ some o → is_owner (s.stages o) ≡ true
  pub unlocked : s.lock.locked_by ≡ none → s.lock.wait_queue ≡ []
  pub queued : (i : ℕ) → is_asleep (s.stages i) ≡ true → is_in i s.lock.wait_queue ≡ true

pub awaken_all-eq :
    (ts : List ℕ) (stages : ℕ → Stage) (i : ℕ)
    → awaken_all ts stages i ≡ (if is_in i ts then outside else stages i)
awaken_all-eq [] stages i = refl
awaken_all-eq (t ∷ ts) stages i = elim (Bool-cases (i == t)) [
  | inl e ↦ elim (Bool-cases (is_in i ts)) [
    | inl f ↦ rw (awaken_all-eq ts (set_stage t outside stages) i, e, f) refl
    | inr f ↦ rw (awaken_all-eq ts (set_stage t outside stages) i, e, f) refl
  ]
  | inr e ↦ rw (awaken_all-eq ts (set_stage t outside stages) i, e) refl
]

pub not_some : (o : Option ℕ) (i : ℕ) → o ≡ none → o ≡ some i → false ≡ true
not_some o i e f = cc

-- The owner goes from one of its stages to another.
owner-IsKept :
    (t : ℕ) (p : Stage) (n : ℕ) (s : Tasks)
    → is_owner (s.stages t) ≡ true
    → is_owner p ≡ true
    → is_asleep p ≡ false
    → IsKept s
    → IsKept (record s { lock = record s.lock { num_locks = n }; stages = set_stage t p s.stages })
owner-IsKept t p n s mine still awake k = record {
  owned = λ i h. elim (Bool-cases (i == t)) [
    | inl e ↦ let same = (==_iff i t).0 e in rw same (k.owned t mine)
    | inr e ↦ k.owned i (rw e at h)
  ];
  owner = λ o h. elim (Bool-cases (o == t)) [ inl e ↦ rw e still | inr e ↦ rw e (k.owner o h) ];
  unlocked = k.unlocked;
  queued = λ i h. elim (Bool-cases (i == t)) [
    | inl e ↦ absurd (false≢true (sym awake ∙ (rw e at h)))
    | inr e ↦ k.queued i (rw e at h)
  ];
}

acquire-IsKept : (t : ℕ) (s : Tasks) → s.lock.locked_by ≡ none → IsKept s → IsKept (acquire t s)
acquire-IsKept t s free k = record {
  owned = λ i h. elim (Bool-cases (i == t)) [
    | inl e ↦ let same = (==_iff i t).0 e in rw same refl
    | inr e ↦ absurd (false≢true (not_some s.lock.locked_by i free (k.owned i (rw e at h))))
  ];
  owner = λ o h. let same : t ≡ o = some_inj.0 h in rw⁻¹ same (rw (==_refl t) refl);
  unlocked = λ h. absurd (false≢true (not_some (some t) t h refl));
  queued = λ i h. elim (Bool-cases (i == t)) [
    | inl e ↦ absurd (false≢true (rw e at h))
    | inr e ↦ k.queued i (rw e at h)
  ];
}

wait-IsKept :
    (t : ℕ) (s : Tasks)
    → s.stages t ≡ outside
    → is_taken s.lock.locked_by ≡ true
    → IsKept s
    → IsKept (wait_for_task_lock t s)
wait-IsKept t s out taken k = record {
  owned = λ i h. elim (Bool-cases (i == t)) [
    | inl e ↦ absurd (false≢true (rw e at h))
    | inr e ↦ k.owned i (rw e at h)
  ];
  owner = λ o h. elim (Bool-cases (o == t)) [
    | inl e ↦
        let same = (==_iff o t).0 e in
        let mine = k.owner o h in absurd (false≢true (rw (same, out) at mine))
    | inr e ↦ rw e (k.owner o h)
  ];
  unlocked = λ h. absurd (false≢true (rw h at taken));
  queued = λ i h. elim (Bool-cases (i == t)) [
    | inl e ↦ rw e refl
    | inr e ↦ rw e (k.queued i (rw e at h))
  ];
}

give_up-IsKept :
    (t : ℕ) (s : Tasks) → is_owner (s.stages t) ≡ true → IsKept s → IsKept (give_up t s)
unfolding give_up
give_up-IsKept t s mine k = record {
  owned = λ i h. elim (Bool-cases (i == t)) [
    | inl e ↦ absurd (false≢true (rw e at h))
    | inr e ↦ elim (Bool-cases (is_in i s.lock.wait_queue)) [
      | inl f ↦ absurd (false≢true (rw (e, awaken_all-eq s.lock.wait_queue s.stages i, f) at h))
      | inr f ↦
          let theirs = k.owned i (rw (e, awaken_all-eq s.lock.wait_queue s.stages i, f) at h) in
          let same : i ≡ t = some_inj.0 (sym theirs ∙ k.owned t mine) in
          absurd (false≢true (sym e ∙ (==_iff i t).1 same))
    ]
  ];
  owner = λ o h. absurd (false≢true (not_some none o refl h));
  unlocked = λ h. refl;
  queued = λ i h. elim (Bool-cases (i == t)) [
    | inl e ↦ absurd (false≢true (rw e at h))
    | inr e ↦ elim (Bool-cases (is_in i s.lock.wait_queue)) [
      | inl f ↦ absurd (false≢true (rw (e, awaken_all-eq s.lock.wait_queue s.stages i, f) at h))
      | inr f ↦
          let sleeps = k.queued i (rw (e, awaken_all-eq s.lock.wait_queue s.stages i, f) at h) in
          absurd (false≢true (sym f ∙ sleeps))
    ]
  ];
}

-- What a step makes, when there is one.
unfoldable pub AllKept : Option Tasks → Type 0
AllKept none = Unit
AllKept (some s) = IsKept s

lock_or_wait-AllKept :
    (t : ℕ) (s : Tasks) → s.stages t ≡ outside → IsKept s → IsKept (lock_or_wait_task_lock t s)
unfolding lock_or_wait_task_lock
lock_or_wait-AllKept t s out k = elim (Option-cases s.lock.locked_by) [
  | inl free ↦ rw free (acquire-IsKept t s free k)
  | inr (o, held) ↦
      let taken : is_taken s.lock.locked_by ≡ true = rw held refl in
      rw taken (wait-IsKept t s out taken k)
]

try_locking-AllKept : (t : ℕ) (s : Tasks) → IsKept s → IsKept (try_locking_task_lock t s)
unfolding try_locking_task_lock
try_locking-AllKept t s k = elim (Option-cases s.lock.locked_by) [
  | inl free ↦ rw free (acquire-IsKept t s free k)
  | inr (o, held) ↦ let taken : is_taken s.lock.locked_by ≡ true = rw held refl in rw taken k
]

count_down-IsKept :
    (t : ℕ) (s : Tasks) → is_owner (s.stages t) ≡ true → IsKept s → IsKept (count_down t s)
unfolding count_down
count_down-IsKept t s mine k = elim (Bool-cases (sub64 s.lock.num_locks 1 == 0)) [
  | inl e ↦ rw e (owner-IsKept t leaving (sub64 s.lock.num_locks 1) s mine refl refl k)
  | inr e ↦ rw e (owner-IsKept t counted (sub64 s.lock.num_locks 1) s mine refl refl k)
]

pub step_at-AllKept :
    (p : Stage) (call : TaskCall) (t : ℕ) (s : Tasks)
    → s.stages t ≡ p
    → IsKept s
    → AllKept (step_at p call t s)
unfolding AllKept count_lock
step_at-AllKept outside locks t s at k = lock_or_wait-AllKept t s at k
step_at-AllKept outside tries t s at k = try_locking-AllKept t s k
step_at-AllKept outside unlocks t s at k = tt
step_at-AllKept asleep call t s at k = tt
step_at-AllKept acquired call t s at k =
    owner-IsKept t counted (add64 s.lock.num_locks 1) s (rw at refl) refl refl k
step_at-AllKept counted locks t s at k =
    owner-IsKept t counted (add64 s.lock.num_locks 1) s (rw at refl) refl refl k
step_at-AllKept counted tries t s at k =
    owner-IsKept t counted (add64 s.lock.num_locks 1) s (rw at refl) refl refl k
step_at-AllKept counted unlocks t s at k = count_down-IsKept t s (rw at refl) k
step_at-AllKept leaving call t s at k = give_up-IsKept t s (rw at refl) k
