-- ===== src/Signals/Handler.antt =====
-- The entry into a signal handler and the return from it, of process/signals.c.
-- The user's memory maps an address to the value of the object that begins there; that the pages are
-- mapped is assumed, as the source does. The frame that is pushed lies below the stack pointer, so
-- its objects do not overlap.
use some_os.Prelude.{
  ℕ, ◌+◌, ◌-◌, ◌*◌, ◌/◌, ◌%◌, ◌^◌, Bool, not, ◌&&◌, ◌||◌, none, some, ltb, leb, ◌==◌, if◌then◌else◌,
  add64, sub64,
}
use Prim.Native.Nat.{bit_and, bit_or}
use some_os.Signals.{
  ProcessSignals, SignalHandler, sig_kill, sig_stop, sig_none, sig_alrm, sig_count, sig_dfl,
  sig_ign, is_ignored_by_default, get_signal_to_handle,
}

-- The part of `TrapFrame` that a handler's frame saves: 31 registers, 32 floating point registers
-- and the program counter.
pub record TrapFrame : Type 0 where
  pub regs : ℕ → ℕ
  pub fregs : ℕ → ℕ
  pub pc : ℕ

pub record Task : Type 0 where
  pub frame : TrapFrame
  pub memory : ℕ → ℕ
  pub process_signals : ProcessSignals

-- What `handleActualSignal` asks of the process. It returns true for `runs` alone.
pub data Effect : Type 0 where
  runs : Effect
  exits : ℕ → Effect
  stops : ℕ → Effect

unfoldable pub store_word : ℕ → ℕ → (ℕ → ℕ) → ℕ → ℕ
store_word a v memory b = if b == a then v else memory b

-- An array of `n` 8-byte words.
unfoldable pub store_words : ℕ → ℕ → (ℕ → ℕ) → (ℕ → ℕ) → ℕ → ℕ
store_words a n v memory b =
    if leb a b && ltb b (a + 8 * n) && (b - a) % 8 == 0 then v ((b - a) / 8) else memory b

abbrev pub load_words : ℕ → (ℕ → ℕ) → ℕ → ℕ
load_words a memory i = memory (a + 8 * i)

-- REG_RETURN_ADDRESS, REG_STACK_POINTER and REG_ARGUMENT_0 to 2
abbrev pub reg_return_address : ℕ
reg_return_address = 0

abbrev pub reg_stack_pointer : ℕ
reg_stack_pointer = 1

abbrev pub set_reg : ℕ → ℕ → (ℕ → ℕ) → ℕ → ℕ
set_reg r v regs i = if i == r then v else regs i

-- The sizes of what is pushed: `SigInfo`, the mask, the restore frame, the signal, the program
-- counter, and the two register files.
unfoldable pub push_frame : ℕ → Task → ℕ × (ℕ → ℕ)
unfolding store_word store_words
push_frame signal t =
    let s = t.process_signals in
    let a1 = sub64 (t.frame.regs reg_stack_pointer) 16 in
    let a2 = sub64 a1 8 in
    let a3 = sub64 a2 8 in
    let a4 = sub64 a3 4 in
    let a5 = sub64 a4 8 in
    let a6 = sub64 a5 256 in
    let a7 = sub64 a6 248 in
    (
      a7,
      store_words a7 31 t.frame.regs (
          store_words a6 32 t.frame.fregs (
            store_word a5 t.frame.pc (
              store_word a4 s.current_signal (
                store_word a3 s.restore_frame (
                  store_word a2 s.mask (
                    store_word a1 signal
                      (store_word (add64 a1 4) 0 (store_word (add64 a1 8) 0 t.memory)))))))),
    )

-- SA_RESETHAND, SA_SIGINFO and SA_NODEFER
abbrev pub sa_resethand : ℕ
sa_resethand = 4

abbrev pub sa_siginfo : ℕ
sa_siginfo = 16

abbrev pub sa_nodefer : ℕ
sa_nodefer = 64

unfoldable pub mask_in_handler : ℕ → SignalHandler → ℕ → ℕ
mask_in_handler signal action mask =
    let with_action = bit_or mask action.mask in
    if bit_and action.flags sa_nodefer == 0
    then with_action
    else bit_or with_action (2 ^ (signal - 1))

unfoldable pub reset_handler : SignalHandler → SignalHandler
reset_handler action =
    if bit_and action.flags sa_resethand == 0
    then action
    else record action { handler = sig_dfl; flags = action.flags - bit_and action.flags sa_siginfo }

-- The last branch of `handleActualSignal`.
unfoldable pub enter_handler : ℕ → Task → Task
unfolding push_frame mask_in_handler reset_handler
enter_handler signal t =
    let s = t.process_signals in
    let action = s.handlers signal in
    let info_address = sub64 (t.frame.regs reg_stack_pointer) 16 in
    let (stack_pointer, memory) = push_frame signal t in
    let with_arguments =
      set_reg 9 signal (set_reg 10 info_address (set_reg 11 stack_pointer t.frame.regs)) in
    record {
      frame = record t.frame {
        pc = action.handler;
        regs =
            set_reg reg_stack_pointer stack_pointer
              (set_reg reg_return_address action.restorer with_arguments);
      };
      memory = memory;
      process_signals = record s {
        mask = mask_in_handler signal action s.mask;
        restore_frame = stack_pointer;
        current_signal = signal;
        handlers = λ i. if i == signal then reset_handler action else s.handlers i;
      };
    }

-- SIGTSTP, SIGTTIN and SIGTTOU
abbrev pub is_stopping : ℕ → Bool
is_stopping signal = signal == 18 || signal == 21 || signal == 22

unfoldable pub default_effect : ℕ → Effect
default_effect signal =
    if is_ignored_by_default signal
    then runs
    else if is_stopping signal
    then stops signal
    else exits signal

unfoldable pub handle_actual_signal : ℕ → Task → Effect × Task
unfolding default_effect
handle_actual_signal signal t =
    let action = t.process_signals.handlers signal in
    if signal == sig_kill
    then (exits signal, t)
    else if signal == sig_stop
    then (stops signal, t)
    else if leb sig_count signal || signal == sig_none
    then (runs, t)
    else if action.handler == sig_dfl
    then (default_effect signal, t)
    else if action.handler == sig_ign
    then (runs, t)
    else (runs, enter_handler signal t)

abbrev pub without_alarm : Task → Task
without_alarm t = record t { process_signals = record t.process_signals { alarm_at = 0 } }

abbrev pub with_signals : Task → ProcessSignals → Task
with_signals t s = record t { process_signals = s }

abbrev pub handle_alarm : ℕ → Task → Effect × Task
handle_alarm now t =
    let at = t.process_signals.alarm_at in
    let (effect, t') = handle_actual_signal sig_alrm t in
    if not (at == 0) && leb at now then (effect, without_alarm t') else (runs, t)

unfoldable pub handle_pending_signals : ℕ → Task → Effect × Task
unfolding handle_actual_signal get_signal_to_handle
handle_pending_signals now t =
    let (found, s) = get_signal_to_handle t.process_signals in
    elim found [
      | none ↦ handle_alarm now (with_signals t s)
      | some signal ↦ handle_actual_signal signal (with_signals t s)
    ]

unfoldable pub return_from_signal : Task → Task
return_from_signal t =
    let s = t.process_signals in
    let b1 = s.restore_frame in
    let b2 = add64 b1 248 in
    let b3 = add64 b2 256 in
    let b4 = add64 b3 8 in
    let b5 = add64 b4 4 in
    let b6 = add64 b5 8 in
    if s.current_signal == sig_none then t else record t {
      frame = record {
        regs = load_words b1 t.memory;
        fregs = load_words b2 t.memory;
        pc = t.memory b3;
      };
      process_signals = record s {
        current_signal = t.memory b4;
        restore_frame = t.memory b5;
        mask = t.memory b6;
      };
    }
