-- ===== src/Process/Tests.antt =====
-- The waits of process/process.c for concrete children.
use some_os.Prelude.{ℕ, ◌≡◌, refl, Bool, true, false, [], ◌∷◌, none, pos, negsuc}
use some_os.Process.{
  Child, Parent, answer, eagain, echild, basic_process_wait, exit_process, stop_process,
  execute_process_wait, sleeps,
}
use some_os.Process.Wait.{IsAnswered, wait-IsAnswered}

abbrev child_of : ℕ → Bool → Child
child_of pid is_done = record {
  pid = pid;
  pgid = 2;
  status = 0;
  is_done = is_done;
  user_time = 5;
  system_time = 1;
  user_child_time = 0;
  system_child_time = 0;
}

-- A child that runs, one that is stopped by SIGTSTP, and one that has called exit with 7.
abbrev shell : Parent
shell = record {
  pgid = 1;
  children =
      child_of 3 false
      ∷ stop_process 18 (child_of 4 false)
      ∷ exit_process 0 7 (child_of 5 true)
      ∷ [];
  signals = record {
    signals = [];
    signals_tail = none;
    handlers = λ _. record { handler = 0; mask = 0; flags = 0; restorer = 0 };
    current_signal = 0;
    restore_frame = 0;
    alarm_at = 0;
    altstack = 0;
    mask = 0;
  };
  user_child_time = 0;
  system_child_time = 0;
}

wait-IsAnswered_example : IsAnswered (negsuc 0) 2 shell (basic_process_wait (negsuc 0) 2 shell)
wait-IsAnswered_example = wait-IsAnswered (negsuc 0) 2 shell

-- Any child, with and without WUNTRACED; the running one, with WNOHANG and without; and no child.
any_runs : (basic_process_wait (negsuc 0) 0 shell).0 ≡ answer 5 7
unfolding basic_process_wait exit_process stop_process
any_runs = refl

stopped_runs : (basic_process_wait (negsuc 0) 2 shell).0 ≡ answer 4 530
unfolding basic_process_wait exit_process stop_process
stopped_runs = refl

running_runs : (basic_process_wait (pos 3) 1 shell).0 ≡ eagain
unfolding basic_process_wait exit_process stop_process
running_runs = refl

sleeps_runs : (execute_process_wait (pos 3) 0 shell).0 ≡ sleeps
unfolding execute_process_wait exit_process stop_process
sleeps_runs = refl

other_runs : (basic_process_wait (pos 9) 0 shell).0 ≡ echild
unfolding basic_process_wait exit_process stop_process
other_runs = refl

-- The children of group 2 are not found by their group.
group_runs : (basic_process_wait (negsuc 1) 0 shell).0 ≡ echild
unfolding basic_process_wait exit_process stop_process
group_runs = refl
