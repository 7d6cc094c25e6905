-- ===== src/Process.antt =====
-- process/process.c: waiting for the children of a process.
-- The list of the children is linked through `child_next`, the newest first. A child without tasks is
-- done. The process lock is held from the first access to the last, so a wait is one step. What is
-- written to the memory of the caller and to its registers is part of the answer.
pub mod Wait
mod Tests
use Prim.Native.Nat.{bit_and, bit_or}
use some_os.Prelude.{
  ℕ, zero, suc, ◌+◌, ◌*◌, ◌/◌, Bool, true, false, not, ◌&&◌, ◌||◌, List, [], ◌∷◌, add64, ℤ, pos,
  negsuc, ◌==◌, if◌then◌else◌,
}
use some_os.Signals.{PendingSignal, ProcessSignals, clear_pending_child_signals}

-- What a wait reads of a child.
pub record Child : Type 0 where
  pub pid : ℕ
  pub pgid : ℕ
  pub status : ℕ
  pub is_done : Bool
  pub user_time : ℕ
  pub system_time : ℕ
  pub user_child_time : ℕ
  pub system_child_time : ℕ

-- The process of the task that waits, and the times of that task.
pub record Parent : Type 0 where
  pub pgid : ℕ
  pub children : List Child
  pub signals : ProcessSignals
  pub user_child_time : ℕ
  pub system_child_time : ℕ

-- WNOHANG, WUNTRACED and WCONTINUED
abbrev pub wnohang : ℕ
wnohang = 1

abbrev pub wuntraced : ℕ
wuntraced = 2

abbrev pub wcontinued : ℕ
wcontinued = 4

-- STATUS_EXIT, STATUS_TERM, STATUS_STOP and STATUS_CONT
abbrev pub status_exit : ℕ
status_exit = 0

abbrev pub status_term : ℕ
status_term = 1

abbrev pub status_stop : ℕ
status_stop = 2

abbrev pub status_cont : ℕ
status_cont = 3

abbrev pub is_set : ℕ → ℕ → Bool
is_set flags flag = not (bit_and flags flag == 0)

-- Whether the child is one that is waited for. For a group, it is the parent's group that is compared.
abbrev pub is_wanted : ℤ → ℕ → Child → Bool
is_wanted (negsuc zero) own child = true
is_wanted (negsuc (suc n)) own child = own == suc (suc n)
is_wanted (pos zero) own child = own == child.pgid
is_wanted (pos (suc n)) own child = child.pid == suc n

unfoldable pub is_reportable : ℕ → Child → Bool
is_reportable flags child =
    child.is_done
    || (is_set flags wuntraced && child.status / 256 == status_stop)
    || (is_set flags wcontinued && child.status / 256 == status_cont)

-- What the walk comes to: a child that is reported with the children that are left, or the number of
-- those that are waited for.
pub data Walk : Type 0 where
  reports : Child → List Child → Walk
  finds : ℕ → Walk

abbrev pub past : Child → Walk → Walk
past child (reports reported left) = reports reported (child ∷ left)
past child (finds n) = finds n

-- A child that is done is taken out of the list, another one has its status reset.
abbrev pub left_after : Child → List Child → List Child
left_after child rest = if child.is_done then rest else record child { status = 0 } ∷ rest

unfoldable pub walk_children : ℤ → ℕ → ℕ → ℕ → List Child → Walk
unfolding is_reportable
walk_children pid own flags found [] = finds found
walk_children pid own flags found (child ∷ rest) =
    let skipped = walk_children pid own flags found rest in
    let next = walk_children pid own flags (found + 1) rest in
    if is_wanted pid own child
    then (if is_reportable flags child
        then reports child (left_after child rest)
        else past child next)
    else past child skipped

-- The pid and the status of a child, or an error.
pub data WaitAnswer : Type 0 where
  answer : ℕ → ℕ → WaitAnswer
  eagain : WaitAnswer
  eintr : WaitAnswer
  echild : WaitAnswer

-- What is done with the child that the walk comes to.
unfoldable pub answered : ℕ → Parent → Walk → WaitAnswer × Parent
unfolding clear_pending_child_signals
answered flags p (reports child left) = (
  answer child.pid child.status,
  record p {
    children = left;
    signals = clear_pending_child_signals child.pid p.signals;
    user_child_time = add64 p.user_child_time (add64 child.user_time child.user_child_time);
    system_child_time = add64 p.system_child_time (add64 child.system_time child.system_child_time);
  },
)
answered flags p (finds n) =
    (if n == 0 then echild else if is_set flags wnohang then eagain else eintr, p)

unfoldable pub basic_process_wait : ℤ → ℕ → Parent → WaitAnswer × Parent
unfolding walk_children answered
basic_process_wait pid flags p = answered flags p (walk_children pid p.pgid flags 0 p.children)

-- Whether the task that waits is awakened, and with which result.
pub data Wakeup : Type 0 where
  awakens : WaitAnswer → Wakeup
  sleeps : Wakeup

abbrev pub is_none : List PendingSignal → Bool
is_none [] = true
is_none (_ ∷ _) = false

abbrev pub wakeup_of : WaitAnswer → Wakeup
wakeup_of (answer pid status) = awakens (answer pid status)
wakeup_of eagain = awakens eagain
wakeup_of eintr = sleeps
wakeup_of echild = awakens echild

unfoldable pub execute_process_wait : ℤ → ℕ → Parent → Wakeup × Parent
unfolding basic_process_wait
execute_process_wait pid flags p =
    let (result, p') = basic_process_wait pid flags p in (wakeup_of result, p')

-- A task that sleeps is awakened by a child, or by a signal that is pending.
abbrev pub wakeup_by : WaitAnswer → List PendingSignal → Wakeup
wakeup_by (answer pid status) pending = awakens (answer pid status)
wakeup_by eagain pending = if is_none pending then sleeps else awakens eintr
wakeup_by eintr pending = if is_none pending then sleeps else awakens eintr
wakeup_by echild pending = if is_none pending then sleeps else awakens eintr

unfoldable pub handle_process_wait_wakeup : ℤ → ℕ → Parent → Wakeup × Parent
unfolding basic_process_wait
handle_process_wait_wakeup pid flags p =
    let (result, p') = basic_process_wait pid flags p in (wakeup_by result p'.signals.signals, p')

-- The status that `exitProcess`, `stopProcess` and `continueProcess` set.
unfoldable pub exit_process : ℕ → ℕ → Child → Child
exit_process signal exit child = record child {
  status =
      if signal == 0
      then bit_or (bit_and exit 255) (status_exit * 256)
      else bit_or (bit_and signal 255) (status_term * 256);
}

unfoldable pub stop_process : ℕ → Child → Child
stop_process signal child = record child {
  status = bit_or (bit_and signal 255) (status_stop * 256);
}

unfoldable pub continue_process : ℕ → Child → Child
continue_process signal child = record child {
  status = bit_or (bit_and signal 255) (status_cont * 256);
}
