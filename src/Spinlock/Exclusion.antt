-- ===== src/Spinlock/Exclusion.antt =====
-- At most one hart is between the two swaps of the lock.
use mathlib.Core.Path.{subst}
use some_os.Prelude.{
  ℕ, ◌≡◌, refl, sym, ap, ◌∙◌, Bool, true, false, Option, none, some, arith, ◌==◌, Bool-cases, sub64,
  inl, inr, ◌⊎◌, ==_iff,
}
use some_os.Spinlock.{
  Phase, outside, spinning, acquired, holds, leaving, Harts, Call, locks, unlocks, is_hart,
  enter_lock, try_acquire, fill_lock, leave_lock, release, step_from, step, Reaches, here, after,
}

-- The hart has the swapped lock.
abbrev pub is_owner : Phase → Bool
is_owner outside = false
is_owner (spinning _) = false
is_owner (acquired _) = true
is_owner holds = true
is_owner (leaving _) = true

-- What `locked_by` says of a hart in a phase.
abbrev pub named : ℕ → Phase → Option ℕ
named h holds = some h
named h _ = none

-- No hart has the lock.
pub record IsFree (s : Harts) : Type 0 where
  pub unlocked : s.lock.locked ≡ false
  pub nobody : s.lock.locked_by ≡ none
  pub all_out : (h : ℕ) → is_owner (s.phases h) ≡ false

-- Just the hart `o` has it.
pub record IsOwned (o : ℕ) (s : Harts) : Type 0 where
  pub is_locked : s.lock.locked ≡ true
  pub owner : is_owner (s.phases o) ≡ true
  pub by : s.lock.locked_by ≡ named o (s.phases o)
  pub others_out : (h : ℕ) → (h == o) ≡ false → is_owner (s.phases h) ≡ false

abbrev pub IsSafe : Harts → Type 0
IsSafe s = IsFree s ⊎ ((o : ℕ) × IsOwned o s)

-- A step that is not made is safe.
abbrev pub IsSafeAfter : Option Harts → Type 0
IsSafeAfter none = Unit
IsSafeAfter (some u) = IsSafe u

enter-IsFree : (h : ℕ) (s : Harts) → IsFree s → IsFree (enter_lock h s)
unfolding enter_lock
enter-IsFree h s v =
    let not_mine : is_hart s.lock.locked_by h ≡ false = ap (λ o. is_hart o h) v.nobody in
    rw not_mine (record {
      unlocked = v.unlocked;
      nobody = v.nobody;
      all_out = λ i. ground (arith, v.all_out i);
    })

-- The owner takes the lock again.
enter-again : (h : ℕ) (s : Harts) → IsOwned h s → s.phases h ≡ holds → IsOwned h (enter_lock h s)
unfolding enter_lock
enter-again h s v e =
    let mine : is_hart s.lock.locked_by h ≡ true = ground (arith, v.by, e) in
    rw mine (record {
      is_locked = v.is_locked;
      owner = ground (arith);
      by = ground (arith, v.by, e);
      others_out = λ i n. ground (arith, v.others_out i n);
    })

is_hart-named : (h o : ℕ) (p : Phase) → (h == o) ≡ false → is_hart (named o p) h ≡ false
is_hart-named h o outside n = refl
is_hart-named h o (spinning _) n = refl
is_hart-named h o (acquired _) n = refl
is_hart-named h o holds n = ground arith
is_hart-named h o (leaving _) n = refl

enter-other : (h o : ℕ) (s : Harts) → IsOwned o s → (h == o) ≡ false → IsOwned o (enter_lock h s)
unfolding enter_lock
enter-other h o s v n =
    let not_mine : is_hart s.lock.locked_by h ≡ false =
      ap (λ b. is_hart b h) v.by ∙ is_hart-named h o (s.phases o) n in
    rw not_mine (record {
      is_locked = v.is_locked;
      owner = ground (arith, v.owner);
      by = ground (arith, v.by);
      others_out = λ i n. ground (arith, v.others_out i n);
    })

acquire-IsSafeAfter :
    (h : ℕ) (task : Option ℕ) (s : Harts) → IsSafe s → IsSafeAfter (try_acquire h task s)
unfolding try_acquire
acquire-IsSafeAfter h task s (inl v) = rw v.unlocked (
    inr (
      h,
      record {
        is_locked = refl;
        owner = ground arith;
        by = ground (arith, v.nobody);
        others_out = λ i n. ground (arith, v.all_out i);
      },
    ))
acquire-IsSafeAfter h task s (inr (o, v)) = rw v.is_locked tt

fill-IsOwned : (h : ℕ) (task : Option ℕ) (s : Harts) → IsOwned h s → IsOwned h (fill_lock h task s)
unfolding fill_lock
fill-IsOwned h task s v = record {
  is_locked = v.is_locked;
  owner = ground arith;
  by = ground arith;
  others_out = λ i n. ground (arith, v.others_out i n);
}

leave-IsOwned : (h : ℕ) (s : Harts) → IsOwned h s → IsOwned h (leave_lock h s)
unfolding leave_lock
leave-IsOwned h s v = elim (Bool-cases (sub64 s.lock.num_locks 1 == 0)) [
  | inl last ↦ rw last (record {
    is_locked = v.is_locked;
    owner = ground arith;
    by = ground arith;
    others_out = λ i n. ground (arith, v.others_out i n);
  })
  | inr kept ↦
      rw kept
        (record { is_locked = v.is_locked; owner = v.owner; by = v.by; others_out = v.others_out })
]

release-IsFree :
    (h : ℕ) (task : Option ℕ) (s : Harts)
    → IsOwned h s
    → s.phases h ≡ leaving task
    → IsFree (release h task s)
unfolding release
release-IsFree h task s v e = record {
  unlocked = refl;
  nobody = ground (arith, v.by, e);
  all_out = λ i. ground (arith, v.others_out i);
}

-- A hart in one of the owner's phases is the owner.
owner-IsOwned : (h : ℕ) (s : Harts) → IsSafe s → is_owner (s.phases h) ≡ true → IsOwned h s
owner-IsOwned h s (inl v) e = absurd (ground (arith, v.all_out h, e))
owner-IsOwned h s (inr (o, v)) e = elim (Bool-cases (h == o)) [
  | inl same ↦ subst (λ i. IsOwned i s) (sym ((==_iff h o).0 same)) v
  | inr other ↦ absurd (ground (arith, v.others_out h other, e))
]

-- A hart that enters and is not the owner starts to spin.
enter-IsSafe :
    (h : ℕ) (s : Harts) → is_owner (s.phases h) ≡ false → IsSafe s → IsSafe (enter_lock h s)
enter-IsSafe h s e (inl v) = inl (enter-IsFree h s v)
enter-IsSafe h s e (inr (o, v)) =
    let other : (h == o) ≡ false = ground (arith, v.owner, e) in inr (o, enter-other h o s v other)

step_from-IsSafeAfter :
    (p : Phase) (call : Call) (h : ℕ) (s : Harts)
    → s.phases h ≡ p
    → IsSafe s
    → IsSafeAfter (step_from p call h s)
step_from-IsSafeAfter outside locks h s e v = enter-IsSafe h s (ap is_owner e) v
step_from-IsSafeAfter outside unlocks h s e v = tt
step_from-IsSafeAfter (spinning task) call h s e v = acquire-IsSafeAfter h task s v
step_from-IsSafeAfter (acquired task) call h s e v =
    inr (h, fill-IsOwned h task s (owner-IsOwned h s v (ap is_owner e)))
step_from-IsSafeAfter holds locks h s e v =
    inr (h, enter-again h s (owner-IsOwned h s v (ap is_owner e)) e)
step_from-IsSafeAfter holds unlocks h s e v =
    inr (h, leave-IsOwned h s (owner-IsOwned h s v (ap is_owner e)))
step_from-IsSafeAfter (leaving task) call h s e v =
    inl (release-IsFree h task s (owner-IsOwned h s v (ap is_owner e)) e)

-- From a state in which no hart has the lock, whatever harts do in whatever order, the lock is free
-- or has one owner; its fields name the owner when, and only when, that hart holds it.
pub Reaches-IsSafe : (s t : Harts) → IsFree s → Reaches s t → IsSafe t
unfolding step
Reaches-IsSafe s _ v here = inl v
Reaches-IsSafe s _ v (after t u call h r e) =
    subst IsSafeAfter e (step_from-IsSafeAfter (t.phases h) call h t refl (Reaches-IsSafe s t v r))

-- Mutual exclusion: from a state in which no hart has the lock, no two harts come to be between the
-- swap that takes the lock and the swap that gives it back at the same time.
pub Reaches-exclusive :
    (s t : Harts) (h i : ℕ)
    → IsFree s
    → Reaches s t
    → is_owner (t.phases h) ≡ true
    → is_owner (t.phases i) ≡ true
    → h ≡ i
Reaches-exclusive s t h i v r e f =
    let safe = Reaches-IsSafe s t v r in
    let mine = owner-IsOwned h t safe e in
    elim (Bool-cases (i == h)) [
      | inl same ↦ sym ((==_iff i h).0 same)
      | inr other ↦ absurd (ground (arith, mine.others_out i other, f))
    ]
