-- ===== src/Pipe/Tests.antt =====
-- The pipe of files/special/pipe.c at concrete states.
use some_os.Prelude.{◌≡◌, refl, true, none, some, [], ◌∷◌, ◌++◌, arith}
use some_os.Pipe.{Pipe, read_ring, write_ring, store, do_operation_on_pipe}
use some_os.Pipe.Stream.{stream, IsPipe}
use some_os.Pipe.Termination.{IsIdle, do_operation_lem}
use some_os.Pipe.Waiting.{waiting, write, execute_pipe_operation}
use some_os.Pipe.Requests.{reader, writer, execute-stream}

-- Open for reading and writing, with the ring at its last byte.
abbrev ends : Pipe
ends = record {
  ref_count = 2;
  write_count = 1;
  buffer = λ _. 0;
  read_pos = 511;
  count = 0;
  waiting_reads = [];
  waiting_reads_tail = none;
  waiting_writes = [];
  waiting_writes_tail = none;
  delivered = [];
  woken = [];
}

-- A reader of two bytes meets a writer of three.
abbrev meeting : Pipe
meeting = record ends {
  waiting_reads = reader 8 2 ∷ [];
  waiting_reads_tail = some 8;
  waiting_writes = writer 9 (1 ∷ 2 ∷ 3 ∷ []) ∷ [];
  waiting_writes_tail = some 9;
}

do_operation_lem_example :
    (q : Pipe) × (do_operation_on_pipe 10 meeting ≡ some q)
    × (stream q ≡ stream meeting)
    × IsPipe q
    × IsIdle q
do_operation_lem_example =
    do_operation_lem 10 meeting (omega arith) (λ z. absurd (omega arith)) (omega arith)

-- The writer is done, the reader has its two bytes, and the third stays in the ring.
abbrev met : Pipe
unfolding do_operation_on_pipe read_ring write_ring
met = elim (do_operation_on_pipe 10 meeting) [ none ↦ ends | some q ↦ q ]

meeting_runs :
    (met.delivered ≡ 1 ∷ 2 ∷ [])
    × (met.count ≡ 1)
    × (met.read_pos ≡ 1)
    × (met.woken ≡ (9, 3) ∷ (8, 2) ∷ [])
unfolding do_operation_on_pipe read_ring write_ring store
meeting_runs = (refl, refl, refl, refl)

execute-stream_example :
    (q : Pipe) × (execute_pipe_operation 20 9 (write (1 ∷ 2 ∷ 3 ∷ [])) true ends ≡ waiting q)
    × (stream q ≡ stream ends ++ (1 ∷ 2 ∷ 3 ∷ []))
    × IsPipe q
    × IsIdle q
execute-stream_example =
    execute-stream 20 9 (write (1 ∷ 2 ∷ 3 ∷ [])) true ends (omega arith) (λ z. absurd (omega arith))
      refl (omega arith) refl (omega arith)
