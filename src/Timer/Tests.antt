-- ===== src/Timer/Tests.antt =====
-- The timeouts of interrupt/timer.c at concrete states.
use some_os.Prelude.{◌≡◌, refl, false, some, [], ◌∷◌, arith, add64, List, ℕ}
use some_os.Timer.{Entry, Timers, handle_timer_interrupt, set_preemption_timer}
use some_os.Timer.Order.{
  IsTimers, IsFalling, IsHandled, due_first, not_due, calls_of, call_each, handle-IsHandled,
}

abbrev first : Entry
first = record { id = 0; time = 50; function = some 7; udata = 1 }

abbrev second : Entry
second = record { id = 1; time = 90; function = some 7; udata = 2 }

abbrev third : Entry
third = record { id = 2; time = 40; function = some 7; udata = 3 }

abbrev three : Timers
three = record { next_id = 3; timeouts = third ∷ second ∷ first ∷ [] }

-- A function that writes down its `udata`.
abbrev note : ℕ → ℕ → ℕ → Timers × List ℕ → Timers × List ℕ
note f now udata (s, w) = (s, udata ∷ w)

three-IsTimers : IsTimers three
unfolding IsTimers IsFalling
three-IsTimers = (omega arith, (omega arith, (omega arith, tt)))

handle-IsHandled_example :
    IsHandled 60 three (due_first 60 three.timeouts) (not_due 60 three.timeouts)
    × (handle_timer_interrupt note 60 (three, [])
        ≡ call_each note 60
            (calls_of (due_first 60 three.timeouts))
            (record three { timeouts = not_due 60 three.timeouts }, []))
handle-IsHandled_example = handle-IsHandled note 60 three [] three-IsTimers

handle_runs :
    handle_timer_interrupt note 60 (three, [])
    ≡ (record three { timeouts = second ∷ [] }, 3 ∷ 1 ∷ [])
unfolding handle_timer_interrupt
handle_runs = refl

set_preemption_runs : set_preemption_timer 30 false three ≡ 40
unfolding set_preemption_timer add64
set_preemption_runs = refl
