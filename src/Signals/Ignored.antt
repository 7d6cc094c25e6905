-- ===== src/Signals/Ignored.antt =====
-- Ignored signals of process/signals.c.
use some_os.Prelude.{ℕ, ◌≡◌, true, arith}
use some_os.Signals.{should_ignore_signal}
use some_os.Signals.Handler.{Task, runs, handle_actual_signal, default_effect}

-- A signal that addSignalToProcess drops because the process ignores it is one that
-- handleActualSignal would do nothing about: no effect on the process and none on the task.
ignore-handle :
    (signal : ℕ) (t : Task)
    → should_ignore_signal t.process_signals signal ≡ true
    → handle_actual_signal signal t ≡ (runs, t)
unfolding should_ignore_signal handle_actual_signal default_effect
ignore-handle signal t h = ground arith
