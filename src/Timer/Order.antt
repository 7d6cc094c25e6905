-- ===== src/Timer/Order.antt =====
-- The pending timeouts stand in the order in which they were set, and fire in it.
use mathlib.Core.Path.{subst}
use some_os.Prelude.{
  ℕ, ◌+◌, ◌≤◌, ◌<◌, ◌≡◌, refl, true, Option, List, [], ◌∷◌, arith, leb, ◌==◌, word, if◌then◌else◌,
  Bool-cases, inl, inr, add64-eq, leb→le, leb→lt, ◌++◌, ap, sym, ◌∙◌, append_assoc, none, some,
  Option-cases,
}
use some_os.Timer.{
  Entry, Timers, set_timeout_time, remove_timeout, clear_timeout, take_due, call_entry, call_all,
  handle_timer_interrupt,
}

-- The ids fall along the list, from below `hi`.
unfoldable pub IsFalling : ℕ → List Entry → Type 0
IsFalling hi [] = Unit
IsFalling hi (e ∷ es) = (e.id < hi) × IsFalling e.id es

-- The ids rise along the list, from `lo` on.
unfoldable pub IsRising : ℕ → List Entry → Type 0
IsRising lo [] = Unit
IsRising lo (e ∷ es) = (lo ≤ e.id) × IsRising (e.id + 1) es

unfoldable pub IsTimers : Timers → Type 0
unfolding IsFalling
IsTimers s = IsFalling s.next_id s.timeouts

-- How often an id stands in a list.
unfoldable pub count_id : ℕ → List Entry → ℕ
count_id i [] = 0
count_id i (e ∷ es) = (if e.id == i then 1 else 0) + count_id i es

unfoldable pub AreDue : ℕ → List Entry → Type 0
AreDue now [] = Unit
AreDue now (e ∷ es) = (e.time ≤ now) × AreDue now es

unfoldable pub AreNotDue : ℕ → List Entry → Type 0
AreNotDue now [] = Unit
AreNotDue now (e ∷ es) = (now < e.time) × AreNotDue now es

IsRising-weaken : (lo lo' : ℕ) (es : List Entry) → lo' ≤ lo → IsRising lo es → IsRising lo' es
unfolding IsRising
IsRising-weaken lo lo' [] h r = tt
IsRising-weaken lo lo' (e ∷ es) h r = (omega (arith, r.0), r.1)

IsFalling-weaken : (hi hi' : ℕ) (es : List Entry) → hi ≤ hi' → IsFalling hi es → IsFalling hi' es
unfolding IsFalling
IsFalling-weaken hi hi' [] h f = tt
IsFalling-weaken hi hi' (e ∷ es) h f = (omega (arith, f.0), f.1)

take_due-IsRising :
    (now hi : ℕ) (es to_call : List Entry)
    → IsFalling hi es
    → IsRising hi to_call
    → IsRising 0 (take_due now es to_call).0
unfolding take_due IsFalling IsRising
take_due-IsRising now hi [] to_call f r = IsRising-weaken hi 0 to_call (omega arith) r
take_due-IsRising now hi (e ∷ es) to_call f r = elim (Bool-cases (leb e.time now)) [
  | inl due ↦ rw due (
      take_due-IsRising now e.id es (e ∷ to_call) f.1
        (omega arith, IsRising-weaken hi (e.id + 1) to_call (omega (arith, f.0)) r))
  | inr not_due ↦ rw not_due (
      take_due-IsRising now e.id es to_call f.1
        (IsRising-weaken hi e.id to_call (omega (arith, f.0)) r))
]

take_due-IsFalling :
    (now hi : ℕ) (es to_call : List Entry)
    → IsFalling hi es
    → IsFalling hi (take_due now es to_call).1
unfolding take_due IsFalling
take_due-IsFalling now hi [] to_call f = tt
take_due-IsFalling now hi (e ∷ es) to_call f = elim (Bool-cases (leb e.time now)) [
  | inl due ↦ rw due (
      take_due-IsFalling now hi es (e ∷ to_call)
        (IsFalling-weaken e.id hi es (omega (arith, f.0)) f.1))
  | inr not_due ↦ rw not_due (f.0, take_due-IsFalling now e.id es to_call f.1)
]

take_due-AreDue :
    (now : ℕ) (es to_call : List Entry)
    → AreDue now to_call
    → AreDue now (take_due now es to_call).0
unfolding take_due AreDue
take_due-AreDue now [] to_call d = d
take_due-AreDue now (e ∷ es) to_call d = elim (Bool-cases (leb e.time now)) [
  | inl due ↦ rw due (take_due-AreDue now es (e ∷ to_call) (leb→le e.time now due, d))
  | inr not_due ↦ rw not_due (take_due-AreDue now es to_call d)
]

take_due-AreNotDue : (now : ℕ) (es to_call : List Entry) → AreNotDue now (take_due now es to_call).1
unfolding take_due AreNotDue
take_due-AreNotDue now [] to_call = tt
take_due-AreNotDue now (e ∷ es) to_call = elim (Bool-cases (leb e.time now)) [
  | inl due ↦ rw due (take_due-AreNotDue now es (e ∷ to_call))
  | inr not_due ↦ rw not_due (leb→lt e.time now not_due, take_due-AreNotDue now es to_call)
]

take_due-count_id :
    (i now : ℕ) (es to_call : List Entry)
    → count_id i (take_due now es to_call).0 + count_id i (take_due now es to_call).1
      ≡ count_id i es + count_id i to_call
unfolding take_due count_id
take_due-count_id i now [] to_call = omega arith
take_due-count_id i now (e ∷ es) to_call = elim (Bool-cases (leb e.time now)) [
  | inl due ↦ rw due (omega (arith, take_due-count_id i now es (e ∷ to_call)))
  | inr not_due ↦ rw not_due (omega (arith, take_due-count_id i now es to_call))
]

-- The timeouts that are due, in the order in which they were set, and those that are not, in theirs.
abbrev pub due_first : ℕ → List Entry → List Entry
due_first now [] = []
due_first now (e ∷ es) =
    let rest = due_first now es in if leb e.time now then rest ++ (e ∷ []) else rest

abbrev pub not_due : ℕ → List Entry → List Entry
not_due now [] = []
not_due now (e ∷ es) = let rest = not_due now es in if leb e.time now then rest else e ∷ rest

take_due-filters :
    (now : ℕ) (es to_call : List Entry)
    → take_due now es to_call ≡ (due_first now es ++ to_call, not_due now es)
unfolding take_due
take_due-filters now [] to_call = refl
take_due-filters now (e ∷ es) to_call = elim (Bool-cases (leb e.time now)) [
  | inl due ↦ rw due (
      take_due-filters now es (e ∷ to_call)
      ∙ ap (λ l. (l, not_due now es)) (sym (append_assoc (due_first now es) (e ∷ []) to_call)))
  | inr later ↦ rw later (ap (λ r. (r.0, e ∷ r.1)) (take_due-filters now es to_call))
]

append_nil : (es : List Entry) → es ++ [] ≡ es
append_nil [] = refl
append_nil (e ∷ es) = ap (λ l. e ∷ l) (append_nil es)

take_due-eq : (now : ℕ) (es : List Entry) → take_due now es [] ≡ (due_first now es, not_due now es)
take_due-eq now es =
    take_due-filters now es [] ∙ ap (λ l. (l, not_due now es)) (append_nil (due_first now es))

-- The functions of the entries that have one, with the entry's `udata`.
abbrev pub calls_of : List Entry → List (ℕ × ℕ)
calls_of [] = []
calls_of (e ∷ es) = elim e.function [ none ↦ calls_of es | some f ↦ (f, e.udata) ∷ calls_of es ]

-- The order of what is called and of what is left: the ones called are due and rise in their ids, the
-- ones left are not due and fall in theirs, and each id is in one of the lists as often as before.
abbrev pub IsHandled : ℕ → Timers → List Entry → List Entry → Type 0
IsHandled now s to_call left =
    IsRising 0 to_call
    × AreDue now to_call
    × AreNotDue now left
    × IsFalling s.next_id left
    × ((i : ℕ) → count_id i to_call + count_id i left ≡ count_id i s.timeouts)

take_due-IsHandled :
    (now : ℕ) (s : Timers)
    → IsTimers s
    → IsHandled now s (take_due now s.timeouts []).0 (take_due now s.timeouts []).1
unfolding IsTimers IsRising AreDue count_id
take_due-IsHandled now s h = (
  take_due-IsRising now s.next_id s.timeouts [] h tt,
  take_due-AreDue now s.timeouts [] tt,
  take_due-AreNotDue now s.timeouts [],
  take_due-IsFalling now s.next_id s.timeouts [] h,
  λ i. ground (arith, take_due-count_id i now s.timeouts []),
)

module _ {W : Type 0} (call : ℕ → ℕ → ℕ → Timers × W → Timers × W) where
  -- The given functions called one after the other.
  abbrev pub call_each : ℕ → List (ℕ × ℕ) → Timers × W → Timers × W
  call_each now [] w = w
  call_each now ((f, udata) ∷ fs) w = call_each now fs (call f now udata w)

  call_all-call_each :
      (now : ℕ) (es : List Entry) (w : Timers × W)
      → call_all call now es w ≡ call_each now (calls_of es) w
  unfolding call_all call_entry
  call_all-call_each now [] w = refl
  call_all-call_each now (e ∷ es) w = elim (Option-cases e.function) [
    | inl missing ↦ rw missing (call_all-call_each now es w)
    | inr (f, found) ↦ rw found (call_all-call_each now es (call f now e.udata w))
  ]

  -- With the ids in order, handleTimerInterrupt leaves in the list exactly the timeouts that are not
  -- due, as they were, and after that calls the function of every timeout that is due and has one, with
  -- the time and the timeout's own data, one after the other in the order in which they were set. The
  -- ones that are due rise in their ids, the ones left fall in theirs, and each id is in one of the two
  -- as often as before. What the functions do to the timeouts and to other state is arbitrary.
  pub handle-IsHandled :
      (now : ℕ) (s : Timers) (w : W)
      → IsTimers s
      → IsHandled now s (due_first now s.timeouts) (not_due now s.timeouts)
        × (handle_timer_interrupt call now (s, w)
            ≡ call_each now
                (calls_of (due_first now s.timeouts))
                (record s { timeouts = not_due now s.timeouts }, w))
  unfolding handle_timer_interrupt
  handle-IsHandled now s w h = (
    subst (λ r. IsHandled now s r.0 r.1) (take_due-eq now s.timeouts) (take_due-IsHandled now s h),
    rw (take_due-eq now s.timeouts) (
        call_all-call_each now (due_first now s.timeouts)
          (record s { timeouts = not_due now s.timeouts }, w)),
  )

remove_timeout-above :
    (i hi : ℕ) (es : List Entry) → IsFalling hi es → hi ≤ i → remove_timeout i es ≡ es
unfolding remove_timeout IsFalling
remove_timeout-above i hi [] f h = refl
remove_timeout-above i hi (e ∷ es) f h =
    ground (arith, f.0, remove_timeout-above i e.id es f.1 (omega (arith, f.0)))

count_id-above : (i hi : ℕ) (es : List Entry) → IsFalling hi es → hi ≤ i → count_id i es ≡ 0
unfolding count_id IsFalling
count_id-above i hi [] f h = refl
count_id-above i hi (e ∷ es) f h =
    ground (arith, f.0, count_id-above i e.id es f.1 (omega (arith, f.0)))

-- With the ids in order and fewer than 2 ^ 64 of them given out, setTimeoutTime gives out an id that
-- no pending timeout has and keeps the ids in order, and clearTimeout with that id takes out the new
-- timeout and no other.
set-clear :
    (time : ℕ) (function : Option ℕ) (udata : ℕ) (s : Timers)
    → IsTimers s
    → s.next_id + 1 < word
    → let (i, s') = set_timeout_time time function udata s in
      IsTimers s' × (count_id i s.timeouts ≡ 0) × ((clear_timeout i s').timeouts ≡ s.timeouts)
unfolding set_timeout_time clear_timeout IsTimers
set-clear time function udata s h k =
    let e = add64-eq s.next_id 1 k in
    let same : (s.next_id == s.next_id) ≡ true = ground arith in
    (
      (omega (arith, e), h),
      count_id-above s.next_id s.next_id s.timeouts h (omega arith),
      rw same (remove_timeout-above s.next_id s.next_id s.timeouts h (omega arith)),
    )
