-- ===== src/Timer.antt =====
-- interrupt/timer.c: the pending timeouts, and the time of the next timer interrupt.
-- The list is linked through `next`, the newest timeout first. Each function holds `timeout_lock`
-- while it works on the list, so it is one step, but for setTimeoutTime: it releases the lock between
-- taking the id and linking the entry, so that two harts can link theirs in the other order. Here no other
-- hart sets a timeout in between, and setTimeoutTime is one step too; `getTime` is the argument `now`, and `setTimeCmp`
-- is the value that it is called with. A null function is none. Times and ids are 64-bit words.
pub mod Order
pub mod Next
mod Tests
use some_os.Prelude.{
  ℕ, ◌-◌, Bool, Option, none, some, List, [], ◌∷◌, add64, ltb, leb, ◌==◌, if◌then◌else◌, ◌^◌,
}

-- `TimeoutEntry`
pub record Entry : Type 0 where
  pub id : ℕ
  pub time : ℕ
  pub function : Option ℕ
  pub udata : ℕ

pub record Timers : Type 0 where
  pub next_id : ℕ
  pub timeouts : List Entry

-- MAX_TIME of a build that is not for debugging, and MAX_IDLE_TIME, at 10 MHz.
abbrev pub max_time : ℕ
max_time = 100000

abbrev pub max_idle_time : ℕ
max_idle_time = 10000000

unfoldable pub set_timeout_time : ℕ → Option ℕ → ℕ → Timers → ℕ × Timers
set_timeout_time time function udata s =
    let entry : Entry = record {
      id = s.next_id;
      time = time;
      function = function;
      udata = udata;
    } in
    (s.next_id, record { next_id = add64 s.next_id 1; timeouts = entry ∷ s.timeouts })

unfoldable pub set_timeout : ℕ → ℕ → Option ℕ → ℕ → Timers → ℕ × Timers
unfolding set_timeout_time
set_timeout now delay function udata s = set_timeout_time (add64 now delay) function udata s

-- The loop of `clearTimeout`, which goes on behind an entry that it has removed.
unfoldable pub remove_timeout : ℕ → List Entry → List Entry
remove_timeout timeout [] = []
remove_timeout timeout (e ∷ es) =
    let rest = remove_timeout timeout es in if e.id == timeout then rest else e ∷ rest

unfoldable pub clear_timeout : ℕ → Timers → Timers
unfolding remove_timeout
clear_timeout timeout s = record s { timeouts = remove_timeout timeout s.timeouts }

-- The first loop of `handleTimerInterrupt`: the list `to_call`, and the timeouts that are left.
unfoldable pub take_due : ℕ → List Entry → List Entry → List Entry × List Entry
take_due now [] to_call = (to_call, [])
take_due now (e ∷ es) to_call =
    let taken = take_due now es (e ∷ to_call) in
    let kept = take_due now es to_call in if leb e.time now then taken else (kept.0, e ∷ kept.1)

-- The functions of the timeouts may set timeouts, and change other state, which is `W`: a function
-- is called with the time and its `udata`, and after the lock has been released.
module _ {W : Type 0} (call : ℕ → ℕ → ℕ → Timers × W → Timers × W) where
  unfoldable pub call_entry : ℕ → Entry → Timers × W → Timers × W
  call_entry now e w = elim e.function [ none ↦ w | some f ↦ call f now e.udata w ]

  unfoldable pub call_all : ℕ → List Entry → Timers × W → Timers × W
  unfolding call_entry
  call_all now [] w = w
  call_all now (e ∷ es) w = call_all now es (call_entry now e w)

  unfoldable pub handle_timer_interrupt : ℕ → Timers × W → Timers × W
  unfolding take_due call_all
  handle_timer_interrupt now (s, w) =
      let (to_call, left) = take_due now s.timeouts [] in
      call_all now to_call (record s { timeouts = left }, w)

-- The loop of `setPreemptionTimer`.
unfoldable pub earliest : ℕ → List Entry → ℕ
earliest next [] = next
earliest next (e ∷ es) = earliest (if ltb e.time next then e.time else next) es

-- `UINT64_MAX` is where the search begins.
unfoldable pub set_preemption_timer : ℕ → Bool → Timers → ℕ
unfolding earliest
set_preemption_timer now is_idle s =
    let next = earliest (2 ^ 64 - 1) s.timeouts in
    let limit = add64 now (if is_idle then max_idle_time else max_time) in
    if ltb next limit then next else limit
