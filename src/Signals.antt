-- ===== src/Signals.antt =====
-- process/signals.c: the pending signals of a process, the choice of the one to handle, and the
-- entry into a handler and the return from it.
-- The list is linked through `next`, the oldest signal first, and `signals_tail` points to its last
-- entry; a `PendingSignal*` is an address, and what `kalloc` returns is the argument `fresh`. Each
-- function holds the lock of the process, so it is one step. The calls of `exitProcess`,
-- `stopProcess` and `continueProcess` are values: the effect that is asked for.
pub mod Pending
pub mod Choice
pub mod Ignored
pub mod Handler
pub mod Restore
mod Tests
use some_os.Prelude.{
  ℕ, ◌-◌, ◌^◌, Bool, true, false, not, ◌&&◌, ◌||◌, Option, none, some, List, [], ◌∷◌, ltb, leb,
  ◌==◌, if◌then◌else◌,
}
use Prim.Native.Nat.{bit_and, bit_or}

-- `PendingSignal` without its link, with its address.
pub record PendingSignal : Type 0 where
  pub address : ℕ
  pub signal : ℕ
  pub child_pid : ℕ

pub record SignalHandler : Type 0 where
  pub handler : ℕ
  pub mask : ℕ
  pub flags : ℕ
  pub restorer : ℕ

pub record ProcessSignals : Type 0 where
  pub signals : List PendingSignal
  pub signals_tail : Option ℕ
  pub handlers : ℕ → SignalHandler
  pub current_signal : ℕ
  pub restore_frame : ℕ
  pub alarm_at : ℕ
  pub altstack : ℕ
  pub mask : ℕ

-- The values of `Signal`.
abbrev pub sig_none : ℕ
sig_none = 0

abbrev pub sig_kill : ℕ
sig_kill = 9

abbrev pub sig_alrm : ℕ
sig_alrm = 14

abbrev pub sig_stop : ℕ
sig_stop = 17

abbrev pub sig_cont : ℕ
sig_cont = 19

abbrev pub sig_chld : ℕ
sig_chld = 20

abbrev pub sig_count : ℕ
sig_count = 32

-- SIG_DFL and SIG_IGN
abbrev pub sig_dfl : ℕ
sig_dfl = 0

abbrev pub sig_ign : ℕ
sig_ign = 1

-- SIGCHLD, SIGURG, SIGWINCH, SIGUSR1, SIGUSR2 and SIGCONT
abbrev pub is_ignored_by_default : ℕ → Bool
is_ignored_by_default signal =
    signal == sig_chld
    || signal == 16
    || signal == 28
    || signal == 30
    || signal == 31
    || signal == sig_cont

unfoldable pub should_ignore_signal : ProcessSignals → ℕ → Bool
should_ignore_signal s signal =
    let action = s.handlers signal in
    not (signal == sig_kill)
    && not (signal == sig_stop)
    && (action.handler == sig_ign || (action.handler == sig_dfl && is_ignored_by_default signal))

-- `tail->next = entry`, where `entry->next` is null; `none` is a tail that is no entry of the list.
unfoldable pub append_behind : ℕ → PendingSignal → List PendingSignal → Option (List PendingSignal)
append_behind tail entry [] = none
append_behind tail entry (p ∷ ps) =
    let further : Option (List PendingSignal) = elim (append_behind tail entry ps) [
      | none ↦ none
      | some qs ↦ some (p ∷ qs)
    ] in
    if p.address == tail then some (p ∷ entry ∷ []) else further

-- The insertion into the list of `addSignalToProcess`; `none` is a write through a tail that is no
-- entry any more.
unfoldable pub append_signal : PendingSignal → ProcessSignals → Option ProcessSignals
unfolding append_behind
append_signal entry s = elim s.signals_tail [
  | none ↦ some (record s { signals = entry ∷ []; signals_tail = some entry.address })
  | some tail ↦ elim (append_behind tail entry s.signals) [
    | none ↦ none
    | some ps ↦ some (record s { signals = ps; signals_tail = some entry.address })
  ]
]

-- With it, whether `continueProcess` is called first.
unfoldable pub add_signal_to_process : ℕ → ℕ → ℕ → ProcessSignals → Bool × Option ProcessSignals
unfolding append_signal should_ignore_signal
add_signal_to_process fresh signal child_pid s =
    let entry : PendingSignal = record {
      address = fresh;
      signal = signal;
      child_pid = child_pid;
    } in
    (
      signal == sig_cont,
      if ltb sig_none signal && ltb signal sig_count && not (should_ignore_signal s signal)
          then append_signal entry s
          else some s,
    )

-- SIGKILL, SIGSTOP, and any signal outside the mask.
unfoldable pub is_deliverable : ℕ → ℕ → Bool
is_deliverable mask signal =
    signal == sig_kill || signal == sig_stop || bit_and mask (2 ^ (signal - 1)) == 0

abbrev pub points_to : Option ℕ → ℕ → Bool
points_to none a = false
points_to (some b) a = b == a

-- The walk of `getSignalToHandle` with the entry before: the signal, the list without it and the
-- tail.
unfoldable pub take_signal :
    ℕ → Option ℕ → Option ℕ → List PendingSignal → Option ℕ × List PendingSignal × Option ℕ
unfolding is_deliverable
take_signal mask previous tail [] = (none, [], tail)
take_signal mask previous tail (p ∷ ps) =
    let further = take_signal mask (some p.address) tail ps in
    if is_deliverable mask p.signal
    then (some p.signal, ps, if points_to tail p.address then previous else tail)
    else (further.0, p ∷ further.1, further.2)

-- `none` is SIGNONE.
unfoldable pub get_signal_to_handle : ProcessSignals → Option ℕ × ProcessSignals
unfolding take_signal
get_signal_to_handle s =
    let (signal, ps, tail) = take_signal s.mask none s.signals_tail s.signals in
    (signal, record s { signals = ps; signals_tail = tail })

abbrev pub is_child_signal : ℕ → PendingSignal → Bool
is_child_signal child_pid p = p.signal == sig_chld && p.child_pid == child_pid

unfoldable pub remove_child_signals : ℕ → List PendingSignal → List PendingSignal
remove_child_signals child_pid [] = []
remove_child_signals child_pid (p ∷ ps) =
    let rest = remove_child_signals child_pid ps in
    if is_child_signal child_pid p then rest else p ∷ rest

abbrev pub tail_unless_empty : List PendingSignal → Option ℕ → Option ℕ
tail_unless_empty [] tail = none
tail_unless_empty (_ ∷ _) tail = tail

unfoldable pub clear_pending_child_signals : ℕ → ProcessSignals → ProcessSignals
unfolding remove_child_signals
clear_pending_child_signals child_pid s =
    let ps = remove_child_signals child_pid s.signals in
    record s { signals = ps; signals_tail = tail_unless_empty ps s.signals_tail }

abbrev pub cleared : SignalHandler → SignalHandler
cleared h = record h { flags = 0; handler = if h.handler == sig_ign then h.handler else sig_dfl }

unfoldable pub clear_signals : ProcessSignals → ProcessSignals
clear_signals s = record s {
  signals = [];
  signals_tail = none;
  altstack = 0;
  current_signal = 0;
  restore_frame = 0;
  handlers = λ i. if ltb i sig_count then cleared (s.handlers i) else s.handlers i;
}
