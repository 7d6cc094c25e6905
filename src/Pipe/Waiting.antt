-- ===== src/Pipe/Waiting.antt =====
-- files/special/pipe.c: the operations that wait, the references to the pipe, and its readiness.
use some_os.Prelude.{
  ℕ, ◌+◌, ◌-◌, ◌^◌, ◌<◌, ◌≡◌, refl, Bool, true, false, not, ◌&&◌, ◌||◌, Option, none, some, List,
  [], ◌∷◌, arith, length, ◌==◌, leb, if◌then◌else◌, add64, sub64, map,
}
use some_os.Pipe.{capacity, ReadOp, WriteOp, Pipe, do_operation_on_pipe}

-- `tail->next = &op`, where the tail is the operation of task `t`: what stood behind it is cut off.
-- If the tail is no longer in the list, the write goes elsewhere.
unfoldable pub put_behind {ℓ} : {A : Type ℓ} → (A → ℕ) → A → ℕ → List A → List A
put_behind key new t [] = []
put_behind key new t (x ∷ xs) =
    let rest = put_behind key new t xs in if key x == t then x ∷ new ∷ [] else x ∷ rest

-- The list and its tail after `op` is queued; `none` is a write through a null tail.
unfoldable pub queue_op {ℓ} :
    {A : Type ℓ} → (A → ℕ) → A → List A → Option ℕ → Option (List A × Option ℕ)
unfolding put_behind
queue_op key new [] tail = some (new ∷ [], some (key new))
queue_op key new (x ∷ xs) none = none
queue_op key new (x ∷ xs) (some t) = some (put_behind key new t (x ∷ xs), some t)

unfoldable pub queue_read : ReadOp → Pipe → Option Pipe
unfolding queue_op
queue_read op p = elim (queue_op ReadOp.wakeup op p.waiting_reads p.waiting_reads_tail) [
  | none ↦ none
  | some (ops, t) ↦ some (record p { waiting_reads = ops; waiting_reads_tail = t })
]

unfoldable pub queue_write : WriteOp → Pipe → Option Pipe
unfolding queue_op
queue_write op p = elim (queue_op WriteOp.wakeup op p.waiting_writes p.waiting_writes_tail) [
  | none ↦ none
  | some (ops, t) ↦ some (record p { waiting_writes = ops; waiting_writes_tail = t })
]

abbrev pub sum_sizes : List ℕ → ℕ
sum_sizes [] = 0
sum_sizes (n ∷ ns) = n + sum_sizes ns

unfoldable pub current_read_capacity : Pipe → ℕ
current_read_capacity p = p.count + sum_sizes (map (λ op. length op.pending) p.waiting_writes)

unfoldable pub current_write_capacity : Pipe → ℕ
current_write_capacity p = capacity - p.count + sum_sizes (map ReadOp.size p.waiting_reads)

-- A caller's request: a read of so many bytes, or a write of these.
pub data Request : Type 0 where
  read : ℕ → Request
  write : List ℕ → Request

-- What `executePipeOperation` does before the caller waits.
pub data Started : Type 0 where
  end_of_file : Started
  would_block : Started
  waiting : Pipe → Started
  fault : Started

abbrev pub may_start : Request → Bool → Pipe → Bool
may_start (read n) block p = block || not (current_read_capacity p == 0)
may_start (write bytes) block p = block || leb (length bytes) (current_write_capacity p)

abbrev pub queued : ℕ → Request → Pipe → Option Pipe
queued task (read n) p = queue_read (record { wakeup = task; size = n; written = 0 }) p
queued task (write bytes) p = queue_write (record { wakeup = task; pending = bytes; written = 0 }) p

-- `waitForPipeOperation` runs the loop; `fuel` bounds its rounds.
abbrev pub run_queued : ℕ → Option Pipe → Started
run_queued fuel none = fault
run_queued fuel (some p) = elim (do_operation_on_pipe fuel p) [ none ↦ fault | some q ↦ waiting q ]

unfoldable pub execute_pipe_operation : ℕ → ℕ → Request → Bool → Pipe → Started
unfolding queue_read queue_write do_operation_on_pipe current_read_capacity current_write_capacity
execute_pipe_operation fuel task request block p =
    if current_read_capacity p == 0 && p.write_count == 0
    then end_of_file
    else if may_start request block p
    then run_queued fuel (queued task request p)
    else would_block

unfoldable pub create_pipe_shared_data : Bool → Pipe
create_pipe_shared_data for_write = record {
  ref_count = 1;
  write_count = if for_write then 1 else 0;
  buffer = λ _. 0;
  read_pos = 0;
  count = 0;
  waiting_reads = [];
  waiting_reads_tail = none;
  waiting_writes = [];
  waiting_writes_tail = none;
  delivered = [];
  woken = [];
}

unfoldable pub copy_pipe_shared_data : Bool → Pipe → Pipe
copy_pipe_shared_data for_write p = record p {
  ref_count = add64 p.ref_count 1;
  write_count = if for_write then add64 p.write_count 1 else p.write_count;
}

-- The pipe that is left, and whether it was freed.
unfoldable pub free_pipe_shared_data : ℕ → Bool → Pipe → Option (Pipe × Bool)
free_pipe_shared_data fuel for_write p =
    let refs = sub64 p.ref_count 1 in
    let writes = if for_write then sub64 p.write_count 1 else p.write_count in
    let p' = record p { ref_count = refs; write_count = writes } in
    let last : Option Pipe =
      if for_write && writes == 0 then do_operation_on_pipe fuel p' else some p' in
    elim last [ none ↦ none | some q ↦ some (q, q.ref_count == 0) ]

unfoldable pub pipe_is_ready : Bool → Pipe → Bool
unfolding current_read_capacity current_write_capacity
pipe_is_ready for_write p =
    if for_write
    then not (current_write_capacity p == 0)
    else not (current_read_capacity p == 0) || p.write_count == 0

-- `handlePipeWakeup` for a task of which a signal is pending: only the readers are searched.
unfoldable pub drop_waiting : ℕ → List ReadOp → List ReadOp
drop_waiting task [] = []
drop_waiting task (op ∷ ops) = if op.wakeup == task then ops else op ∷ drop_waiting task ops

abbrev pub tail_of_rest : List ReadOp → Option ℕ → Option ℕ
tail_of_rest [] t = none
tail_of_rest (_ ∷ _) t = t

abbrev pub is_waiting : ℕ → List ReadOp → Bool
is_waiting task [] = false
is_waiting task (op ∷ ops) = if op.wakeup == task then true else is_waiting task ops

unfoldable pub handle_pipe_wakeup : Bool → ℕ → Pipe → Bool × Pipe
unfolding drop_waiting
handle_pipe_wakeup signal_pending task p =
    let ops = drop_waiting task p.waiting_reads in
    let p' = record p {
      waiting_reads = ops;
      waiting_reads_tail = tail_of_rest ops p.waiting_reads_tail;
    } in
    if signal_pending then (true, if is_waiting task p.waiting_reads then p' else p) else (false, p)

abbrev pub bind_pipe : Option Pipe → (Pipe → Option Pipe) → Option Pipe
bind_pipe none f = none
bind_pipe (some p) f = f p

-- Of three readers that have to wait, the second is lost: the tail of the list stays at the first.
queue_third :
    (a b c : ReadOp) (p : Pipe)
    → p.waiting_reads ≡ []
    → (q : Pipe) × (bind_pipe (bind_pipe (queue_read a p) (queue_read b)) (queue_read c) ≡ some q)
      × (q.waiting_reads ≡ a ∷ c ∷ [])
unfolding queue_read
queue_third a b c p e = (
  record p { waiting_reads = a ∷ c ∷ []; waiting_reads_tail = some a.wakeup },
  ground arith,
  refl,
)

-- `freePipeSharedData` undoes `copyPipeSharedData` for a pipe that is in use, and does not free it;
-- a copy for writing is made of a pipe that is open for writing.
free-copy :
    (fuel : ℕ) (for_write : Bool) (p : Pipe)
    → 0 < p.ref_count
    → p.ref_count + 1 < 2 ^ 64
    → 0 < p.write_count
    → p.write_count + 1 < 2 ^ 64
    → free_pipe_shared_data fuel for_write (copy_pipe_shared_data for_write p) ≡ some (p, false)
unfolding free_pipe_shared_data copy_pipe_shared_data add64 sub64
free-copy fuel for_write p a b c d = ground arith
