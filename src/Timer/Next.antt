-- ===== src/Timer/Next.antt =====
-- The time of the next timer interrupt.
use some_os.Prelude.{
  ℕ, ◌+◌, ◌≤◌, ◌<◌, ◌≡◌, ◌⊎◌, inl, inr, refl, true, false, Bool, List, [], ◌∷◌, arith, ltb, ◌==◌,
  ◌||◌, add64-eq, word, ◌^◌, ◌-◌, if◌then◌else◌, Bool-cases,
}
use some_os.Timer.{Entry, Timers, earliest, set_preemption_timer, max_time, max_idle_time}

-- `n` is at most each time of the list.
unfoldable pub IsBelow : ℕ → List Entry → Type 0
IsBelow n [] = Unit
IsBelow n (e ∷ es) = (n ≤ e.time) × IsBelow n es

unfoldable pub is_time_of : ℕ → List Entry → Bool
is_time_of n [] = false
is_time_of n (e ∷ es) = (e.time == n) || is_time_of n es

earliest-bound : (next : ℕ) (es : List Entry) → earliest next es ≤ next
unfolding earliest
earliest-bound next [] = omega arith
earliest-bound next (e ∷ es) = ground (arith, earliest-bound e.time es, earliest-bound next es)

earliest-IsBelow : (next n : ℕ) (es : List Entry) → n ≤ earliest next es → IsBelow n es
unfolding earliest IsBelow
earliest-IsBelow next n [] h = tt
earliest-IsBelow next n (e ∷ es) h = elim (Bool-cases (ltb e.time next)) [
  | inl less ↦
      let h' : n ≤ earliest e.time es = ground arith in
      (omega (arith, h', earliest-bound e.time es), earliest-IsBelow e.time n es h')
  | inr not_less ↦
      let h' : n ≤ earliest next es = ground arith in
      (ground (arith, h', earliest-bound next es), earliest-IsBelow next n es h')
]

earliest-is_time_of :
    (next : ℕ) (es : List Entry)
    → (earliest next es ≡ next) ⊎ (is_time_of (earliest next es) es ≡ true)
unfolding earliest is_time_of
earliest-is_time_of next [] = inl refl
earliest-is_time_of next (e ∷ es) =
    ground (arith, earliest-is_time_of e.time es, earliest-is_time_of next es)

-- The earlier of a limit and the times of a list.
sooner-least :
    (next limit : ℕ) (es : List Entry)
    → limit ≤ next
    → let at = if ltb (earliest next es) limit then earliest next es else limit in
      IsBelow at es × (at ≤ limit) × ((at ≡ limit) ⊎ (is_time_of at es ≡ true))
sooner-least next limit es h = elim (Bool-cases (ltb (earliest next es) limit)) [
  | inl sooner ↦ rw sooner (
    earliest-IsBelow next (earliest next es) es (omega arith),
    ground arith,
    ground (arith, earliest-is_time_of next es),
  )
  | inr later ↦ rw later (earliest-IsBelow next limit es (ground arith), omega arith, inl refl)
]

-- With a clock that is not about to overflow, setPreemptionTimer sets the timer to a time that is
-- after no pending timeout and within the time slice of the task (a hundredth of a second, or a
-- second for the idle task), and that is the time of a pending timeout or the end of the slice.
set_preemption-least :
    (now : ℕ) (is_idle : Bool) (s : Timers)
    → now + max_idle_time + 1 < word
    → let at = set_preemption_timer now is_idle s in
      let limit = now + (if is_idle then max_idle_time else max_time) in
      IsBelow at s.timeouts × (at ≤ limit) × ((at ≡ limit) ⊎ (is_time_of at s.timeouts ≡ true))
unfolding set_preemption_timer
set_preemption-least now true s h =
    rw (add64-eq now max_idle_time (omega arith))
      (sooner-least (2 ^ 64 - 1) (now + max_idle_time) s.timeouts (omega arith))
set_preemption-least now false s h =
    rw (add64-eq now max_time (omega arith))
      (sooner-least (2 ^ 64 - 1) (now + max_time) s.timeouts (omega arith))
