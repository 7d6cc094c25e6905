-- ===== src/Pipe.antt =====
-- files/special/pipe.c: the shared part of a pipe, a ring of 512 bytes with waiting readers and
-- writers. Each function holds the pipe's lock, so it is one step. A waiting operation lies on the
-- stack of its task and is named by it. `memcpyBetweenVirtPtr` is a list of bytes that goes from one
-- place to another: a writer brings the bytes that it has left, and what is copied into the memory
-- of a reader is added to `delivered`.
pub mod Ring
pub mod Stream
pub mod Termination
pub mod Waiting
pub mod Requests
mod Tests
use some_os.Prelude.{
  ℕ, zero, suc, ◌+◌, ◌-◌, ◌%◌, Bool, true, false, not, ◌&&◌, ◌||◌, Option, none, some, List, [],
  ◌∷◌, ◌++◌, ltb, leb, ◌==◌, if◌then◌else◌, length, take, drop, min,
}

-- PIPE_BUFFER_CAPACITY
abbrev pub capacity : ℕ
capacity = 512

-- `WaitingPipeOperation` of a reader, and of a writer, whose `size` is the number of its bytes.
pub record ReadOp : Type 0 where
  pub wakeup : ℕ
  pub size : ℕ
  pub written : ℕ

pub record WriteOp : Type 0 where
  pub wakeup : ℕ
  pub pending : List ℕ
  pub written : ℕ

-- `PipeSharedData`, with what has been copied to readers and the tasks that have been woken, with
-- the value of `written` that each finds.
pub record Pipe : Type 0 where
  pub ref_count : ℕ
  pub write_count : ℕ
  pub buffer : ℕ → ℕ
  pub read_pos : ℕ
  pub count : ℕ
  pub waiting_reads : List ReadOp
  pub waiting_reads_tail : Option ℕ
  pub waiting_writes : List WriteOp
  pub waiting_writes_tail : Option ℕ
  pub delivered : List ℕ
  pub woken : List (ℕ × ℕ)

-- The `n` bytes of the buffer from `pos` on.
abbrev pub slice : (ℕ → ℕ) → ℕ → ℕ → List ℕ
slice b pos zero = []
slice b pos (suc n) = b pos ∷ slice b (pos + 1) n

unfoldable pub store : (ℕ → ℕ) → ℕ → ℕ → ℕ → ℕ
store b pos v i = if i == pos then v else b i

-- The bytes put into the buffer from `pos` on.
unfoldable pub blit : List ℕ → ℕ → (ℕ → ℕ) → ℕ → ℕ
blit [] pos b = b
blit (x ∷ xs) pos b = blit xs (pos + 1) (store b pos x)

-- The two copies, or the one, out of the ring and into it.
unfoldable pub read_ring : (ℕ → ℕ) → ℕ → ℕ → List ℕ
read_ring b pos n =
    let first = capacity - pos in
    if ltb capacity (pos + n) then slice b pos first ++ slice b 0 (n - first) else slice b pos n

unfoldable pub write_ring : List ℕ → ℕ → (ℕ → ℕ) → ℕ → ℕ
unfolding blit
write_ring xs pos b =
    let first = capacity - pos in
    if ltb capacity (pos + length xs)
    then blit (drop first xs) 0 (blit (take first xs) pos b)
    else blit xs pos b

abbrev pub is_empty {ℓ} : {A : Type ℓ} → List A → Bool
is_empty [] = true
is_empty (_ ∷ _) = false

abbrev pub tail_after {ℓ} : {A : Type ℓ} → List A → Option ℕ → Option ℕ
tail_after [] t = none
tail_after (_ ∷ _) t = t

-- The first branch of the loop, for the reader `op` with `rest` behind it.
unfoldable pub do_read : ReadOp → List ReadOp → Pipe → Pipe
do_read op rest p =
    let n = min p.count op.size in
    let op' = record op { size = op.size - n; written = op.written + n } in
    let p' = record p {
      read_pos = (p.read_pos + n) % capacity;
      count = p.count - n;
      delivered = p.delivered ++ read_ring p.buffer p.read_pos n;
    } in
    if op'.size == 0 || is_empty p.waiting_writes
    then record p' {
      waiting_reads = rest;
      waiting_reads_tail = tail_after rest p.waiting_reads_tail;
      woken = p.woken ++ ((op'.wakeup, op'.written) ∷ []);
    }
    else record p' { waiting_reads = op' ∷ rest }

-- The second branch, for the writer `op`.
unfoldable pub do_write : WriteOp → List WriteOp → Pipe → Pipe
do_write op rest p =
    let n = min (capacity - p.count) (length op.pending) in
    let write_pos = (p.read_pos + p.count) % capacity in
    let op' = record op { pending = drop n op.pending; written = op.written + n } in
    let p' = record p {
      buffer = write_ring (take n op.pending) write_pos p.buffer;
      count = p.count + n;
    } in
    if length op'.pending == 0
    then record p' {
      waiting_writes = rest;
      waiting_writes_tail = tail_after rest p.waiting_writes_tail;
      woken = p.woken ++ ((op'.wakeup, op'.written) ∷ []);
    }
    else record p' { waiting_writes = op' ∷ rest }

abbrev pub try_write : List WriteOp → Pipe → Option Pipe
try_write [] p = none
try_write (op ∷ rest) p = if ltb p.count capacity then some (do_write op rest p) else none

-- One round of the loop of `doOperationOnPipe`; `none` is the `break`.
abbrev pub try_read : List ReadOp → Pipe → Option Pipe
try_read [] p = try_write p.waiting_writes p
try_read (op ∷ rest) p =
    if not (p.count == 0) || p.write_count == 0
    then some (do_read op rest p)
    else try_write p.waiting_writes p

unfoldable pub round : Pipe → Option Pipe
unfolding do_read do_write
round p = try_read p.waiting_reads p

-- The loop, on fuel.
unfoldable pub do_operation_on_pipe : ℕ → Pipe → Option Pipe
unfolding round
do_operation_on_pipe zero p = none
do_operation_on_pipe (suc fuel) p = elim (round p) [
  | none ↦ some p
  | some p' ↦ do_operation_on_pipe fuel p'
]
