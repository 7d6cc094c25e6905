-- ===== src/Pipe/Requests.antt =====
-- files/special/pipe.c: what `executePipeOperation` does to the bytes in a pipe.
use some_os.Prelude.{
  ℕ, ◌+◌, ◌<◌, ◌≡◌, ◌∙◌, refl, sym, Bool, true, false, some, List, [], ◌∷◌, ◌++◌, arith, length,
  ◌==◌, append_assoc, append-nil,
}
use some_os.Pipe.{Pipe, ReadOp, WriteOp, do_operation_on_pipe}
use some_os.Pipe.Stream.{stream, IsPipe}
use some_os.Pipe.Termination.{IsOpen, IsIdle, work, do_operation_lem}
use some_os.Pipe.Waiting.{
  Request, read, write, waiting, may_start, queued, queue_read, queue_write, execute_pipe_operation,
  run_queued,
}

-- The bytes that a request brings into the pipe.
abbrev pub brought : Request → List ℕ
brought (read n) = []
brought (write bytes) = bytes

-- No other operation of the request's kind is waiting.
abbrev pub IsFirst : Request → Pipe → Type 0
IsFirst (read n) p = p.waiting_reads ≡ []
IsFirst (write bytes) p = p.waiting_writes ≡ []

-- The rounds that a request adds.
abbrev pub request_work : Request → ℕ
request_work (read n) = n + 1
request_work (write bytes) = length bytes + 1

abbrev pub reader : ℕ → ℕ → ReadOp
reader task n = record { wakeup = task; size = n; written = 0 }

abbrev pub writer : ℕ → List ℕ → WriteOp
writer task bytes = record { wakeup = task; pending = bytes; written = 0 }

-- The pipe with the request queued.
abbrev pub with_request : ℕ → Request → Pipe → Pipe
with_request task (read n) p = record p {
  waiting_reads = reader task n ∷ [];
  waiting_reads_tail = some task;
}
with_request task (write bytes) p = record p {
  waiting_writes = writer task bytes ∷ [];
  waiting_writes_tail = some task;
}

queued-with_request :
    (task : ℕ) (r : Request) (p : Pipe)
    → IsFirst r p
    → queued task r p ≡ some (with_request task r p)
unfolding queue_read queue_write
queued-with_request task (read n) p h = rw h refl
queued-with_request task (write bytes) p h = rw h refl

with_request-stream :
    (task : ℕ) (r : Request) (p : Pipe)
    → IsFirst r p
    → stream (with_request task r p) ≡ stream p ++ brought r
with_request-stream task (read n) p h = sym (append-nil (stream p))
with_request-stream task (write bytes) p h = simp (h, append-nil, append_assoc)

with_request-IsPipe :
    (task : ℕ) (r : Request) (p : Pipe) → IsPipe p → IsPipe (with_request task r p)
with_request-IsPipe task (read n) p v = record { pos_in = v.pos_in; count_in = v.count_in }
with_request-IsPipe task (write bytes) p v = record { pos_in = v.pos_in; count_in = v.count_in }

with_request-IsOpen :
    (task : ℕ) (r : Request) (p : Pipe) → 0 < p.write_count → IsOpen (with_request task r p)
with_request-IsOpen task (read n) p h = λ z. absurd (omega arith)
with_request-IsOpen task (write bytes) p h = λ z. absurd (omega arith)

with_request-work :
    (task : ℕ) (r : Request) (p : Pipe)
    → IsFirst r p
    → work (with_request task r p) ≡ work p + request_work r
with_request-work task (read n) p h = rw h (omega arith)
with_request-work task (write bytes) p h = rw h (omega arith)

execute-starts :
    (fuel task : ℕ) (r : Request) (block : Bool) (p : Pipe)
    → 0 < p.write_count
    → may_start r block p ≡ true
    → execute_pipe_operation fuel task r block p ≡ run_queued fuel (queued task r p)
unfolding execute_pipe_operation
execute-starts fuel task r block p h may =
    let open' : (p.write_count == 0) ≡ false = ground arith in rw (open', may) (ground arith)

run_queued-waiting :
    (fuel : ℕ) (p q : Pipe)
    → do_operation_on_pipe fuel p ≡ some q
    → run_queued fuel (some p) ≡ waiting q
run_queued-waiting fuel p q e = ground arith

-- On a valid pipe with both ends open (IsOpen), among them one that can write (0 < write_count), for a
-- request that may start and of whose kind no other waits (IsFirst), with enough fuel:
-- `executePipeOperation` queues it and the loop ends. A write adds its bytes behind all that went before,
-- and neither a read nor a write loses, repeats or reorders any. The pipe stays valid, and afterwards no
-- waiting operation can go on.
pub execute-stream :
    (fuel task : ℕ) (r : Request) (block : Bool) (p : Pipe)
    → IsPipe p
    → IsOpen p
    → IsFirst r p
    → 0 < p.write_count
    → may_start r block p ≡ true
    → work p + request_work r < fuel
    → (q : Pipe) × (execute_pipe_operation fuel task r block p ≡ waiting q)
      × (stream q ≡ stream p ++ brought r)
      × IsPipe q
      × IsIdle q
execute-stream fuel task r block p v o first open' may room =
    let p' = with_request task r p in
    let (q, run, same, valid, idle) =
      do_operation_lem fuel p' (with_request-IsPipe task r p v) (with_request-IsOpen task r p open')
        (omega (arith, with_request-work task r p first)) in
    (
      q,
      execute-starts fuel task r block p open' may
          ∙ rw (queued-with_request task r p first) (run_queued-waiting fuel p' q run),
      same ∙ with_request-stream task r p first,
      valid,
      idle,
    )
