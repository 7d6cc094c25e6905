-- ===== src/Signals/Tests.antt =====
-- The signals of process/signals.c at concrete states.
use some_os.Prelude.{if◌then◌else◌, ◌==◌, ℕ, ◌<◌, ◌≡◌, refl, some, [], ◌∷◌, arith}
use some_os.Signals.{
  PendingSignal, ProcessSignals, add_signal_to_process, get_signal_to_handle, should_ignore_signal,
}
use some_os.Signals.Pending.{
  IsQueue, IsAppended, AreDistinct, has_address, last_address, add_signal-IsAppended,
}
use some_os.Signals.Handler.{Task, enter_handler, return_from_signal}
use some_os.Signals.Restore.{return-enter}

abbrev interrupt : PendingSignal
interrupt = record { address = 100; signal = 2; child_pid = 0 }

abbrev child_exit : PendingSignal
child_exit = record { address = 200; signal = 20; child_pid = 7 }

-- SIGINT is blocked, and SIGCHLD has a handler.
abbrev blocked_interrupt : ProcessSignals
blocked_interrupt = record {
  signals = interrupt ∷ child_exit ∷ [];
  signals_tail = some 200;
  handlers = λ _. record { handler = 4096; mask = 0; flags = 0; restorer = 8192 };
  current_signal = 0;
  restore_frame = 0;
  alarm_at = 0;
  altstack = 0;
  mask = 2;
}

abbrev running : Task
running = record {
  frame = record { regs = λ i. if i == 1 then 1000000 else i; fregs = λ i. i; pc = 16384 };
  memory = λ _. 0;
  process_signals = blocked_interrupt;
}

blocked_interrupt-IsQueue : IsQueue blocked_interrupt
unfolding AreDistinct has_address last_address
blocked_interrupt-IsQueue = record { distinct = (refl, (refl, tt)); tail = refl }

add_signal-IsAppended_example :
    IsAppended
      (record { address = 300; signal = 15; child_pid = 0 })
      blocked_interrupt
      (add_signal_to_process 300 15 0 blocked_interrupt).1
unfolding has_address should_ignore_signal
add_signal-IsAppended_example =
    add_signal-IsAppended 300 15 0 blocked_interrupt blocked_interrupt-IsQueue refl (omega arith)
      (omega arith) refl

get_signal_runs :
    get_signal_to_handle blocked_interrupt
    ≡ (some 20, record blocked_interrupt { signals = interrupt ∷ []; signals_tail = some 100 })
unfolding get_signal_to_handle
get_signal_runs = refl

-- The handler of SIGCHLD has the frame that it was entered with, in other registers.
abbrev at_return : Task
at_return = record (enter_handler 20 running) {
  frame = record { regs = λ _. 0; fregs = λ _. 0; pc = 8200 };
}

return-enter_example :
    let r = return_from_signal at_return in
    ((i : ℕ) → i < 31 → r.frame.regs i ≡ running.frame.regs i)
    × ((i : ℕ) → i < 32 → r.frame.fregs i ≡ running.frame.fregs i)
    × (r.frame.pc ≡ 16384)
    × (r.process_signals.mask ≡ 2)
    × (r.process_signals.current_signal ≡ 0)
    × (r.process_signals.restore_frame ≡ 0)
unfolding enter_handler
return-enter_example =
    return-enter 20 running (omega arith) (omega arith) at_return (λ a h k. refl) refl (omega arith)
