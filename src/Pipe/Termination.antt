-- ===== src/Pipe/Termination.antt =====
-- files/special/pipe.c: the loop of `doOperationOnPipe` ends, and what it leaves.
use mathlib.Core.Path.{subst}
use some_os.Prelude.{
  ℕ, zero, suc, ◌+◌, ◌-◌, ◌≤◌, ◌<◌, ◌≡◌, ◌≢◌, ◌⊎◌, ◌∙◌, refl, ap, none, some, List, [], ◌∷◌, arith,
  Option-cases, Bool-cases, inl, inr, length, length-drop, min, ◌==◌, ◌||◌, drop,
}
use some_os.Pipe.{
  capacity, ReadOp, WriteOp, Pipe, is_empty, do_read, do_write, try_write, try_read, round,
  do_operation_on_pipe,
}
use some_os.Pipe.Stream.{stream, IsPipe, round-stream}

abbrev pub read_work : List ReadOp → ℕ
read_work [] = 0
read_work (op ∷ ops) = op.size + 1 + read_work ops

abbrev pub write_work : List WriteOp → ℕ
write_work [] = 0
write_work (op ∷ ops) = length op.pending + 1 + write_work ops

-- A bound on the rounds: the bytes and the operations that wait.
abbrev pub work : Pipe → ℕ
work p = read_work p.waiting_reads + write_work p.waiting_writes

-- A writer waits only while the pipe is open for writing.
abbrev pub IsOpen : Pipe → Type 0
IsOpen p = p.write_count ≡ 0 → p.waiting_writes ≡ []

-- Nothing can be done: no reader is waiting, or it waits for bytes; no writer is, or it waits for
-- room.
pub record IsIdle (p : Pipe) : Type 0 where
  pub reads : (p.waiting_reads ≡ []) ⊎ ((p.count ≡ 0) × (p.write_count ≢ 0))
  pub writes : (p.waiting_writes ≡ []) ⊎ (capacity ≤ p.count)

record Progress (p q : Pipe) : Type 0 where
  less : work q < work p
  still_open : IsOpen q

do_read-less :
    (op : ReadOp) (rest : List ReadOp) (p : Pipe)
    → p.waiting_reads ≡ op ∷ rest
    → IsOpen p
    → (p.count ≢ 0) ⊎ (p.write_count ≡ 0)
    → Progress p (do_read op rest p)
unfolding do_read
do_read-less op rest p w o h =
    let whole : read_work p.waiting_reads ≡ op.size + 1 + read_work rest = ap read_work w in
    let n = min p.count op.size in
    elim (Bool-cases (op.size - n == 0 || is_empty p.waiting_writes)) [
      | inl done ↦ rw done (record { less = omega arith; still_open = o })
      | inr more ↦
          let waits : (p.waiting_writes ≡ []) → ⊥ = λ e. ground arith in
          let opened : p.write_count ≢ 0 = λ z. waits (o z) in
          let left : (op.size - n) ≢ 0 = ground arith in
          rw more (record { less = omega arith; still_open = o })
    ]

do_write-less :
    (op : WriteOp) (rest : List WriteOp) (p : Pipe)
    → p.waiting_writes ≡ op ∷ rest
    → IsOpen p
    → p.count < capacity
    → Progress p (do_write op rest p)
unfolding do_write
do_write-less op rest p w o h =
    let whole : write_work p.waiting_writes ≡ length op.pending + 1 + write_work rest =
      ap write_work w in
    let n = min (capacity - p.count) (length op.pending) in
    let opened : p.write_count ≢ 0 = λ z. (let e = o z in cc) in
    elim (Bool-cases (length (drop n op.pending) == 0)) [
      | inl done ↦ rw done (record { less = omega arith; still_open = λ z. absurd (opened z) })
      | inr more ↦
          let left : length (drop n op.pending) ≢ 0 = ground arith in
          rw more (record {
            less = omega (arith, length-drop n op.pending);
            still_open = λ z. absurd (opened z);
          })
    ]

round-Progress : (p q : Pipe) → IsOpen p → round p ≡ some q → Progress p q
unfolding round
round-Progress p q o e = go p.waiting_reads p.waiting_writes refl refl e
  where
    writes : (ws : List WriteOp) → p.waiting_writes ≡ ws → try_write ws p ≡ some q → Progress p q
    writes [] w f = cc
    writes (op ∷ rest) w f = ground (arith, do_write-less op rest p w o)

    go :
        (rs : List ReadOp) (ws : List WriteOp)
        → p.waiting_reads ≡ rs
        → p.waiting_writes ≡ ws
        → try_read rs p ≡ some q
        → Progress p q
    go [] ws r w f = writes ws w (subst (λ l. try_write l p ≡ some q) w f)
    go (op ∷ rest) ws r w f = ground (
      arith,
      do_read-less op rest p r o,
      λ (g : try_write p.waiting_writes p ≡ some q).
          writes ws w (subst (λ l. try_write l p ≡ some q) w g),
    )

round-IsIdle : (p : Pipe) → round p ≡ none → IsIdle p
unfolding round
round-IsIdle p e = go p.waiting_reads p.waiting_writes refl refl e
  where
    go :
        (rs : List ReadOp) (ws : List WriteOp)
        → p.waiting_reads ≡ rs
        → p.waiting_writes ≡ ws
        → try_read rs p ≡ none
        → IsIdle p
    go [] [] r w f = record { reads = inl r; writes = inl w }
    go [] (op ∷ rest) r w f =
        let g : try_write (op ∷ rest) p ≡ none = subst (λ l. try_write l p ≡ none) w f in
        record { reads = inl r; writes = inr (ground arith) }
    go (op ∷ rest) [] r w f = record { reads = inr (ground arith, ground arith); writes = inl w }
    go (op ∷ rest) (op' ∷ rest') r w f =
        let g : (p.count ≡ 0) × (p.write_count ≢ 0) × (try_write p.waiting_writes p ≡ none) =
          (ground arith, ground arith, ground arith) in
        let h : try_write (op' ∷ rest') p ≡ none = subst (λ l. try_write l p ≡ none) w g.2 in
        record { reads = inr (g.0, g.1); writes = inr (ground arith) }

-- With more rounds than bytes and operations that wait, the loop of `doOperationOnPipe` ends, when
-- writers wait only on a pipe open for writing. It loses, repeats and reorders no byte, keeps the ring within
-- its bounds, and stops only when no waiting operation can go on.
pub do_operation_lem :
    (fuel : ℕ) (p : Pipe)
    → IsPipe p
    → IsOpen p
    → work p < fuel
    → (q : Pipe) × (do_operation_on_pipe fuel p ≡ some q)
      × (stream q ≡ stream p)
      × IsPipe q
      × IsIdle q
unfolding do_operation_on_pipe
do_operation_lem zero p v o h = absurd (omega arith)
do_operation_lem (suc fuel) p v o h = elim (Option-cases (round p)) [
  | inl stops ↦ (p, rw (stops, do_operation_on_pipe) refl, refl, v, round-IsIdle p stops)
  | inr (q, goes) ↦
      let progress = round-Progress p q o goes in
      let kept = round-stream p q v goes in
      let (r, run, same, valid, idle) =
        do_operation_lem fuel q kept.1 progress.still_open (omega (arith, progress.less)) in
      (r, rw (goes, do_operation_on_pipe) run, same ∙ kept.0, valid, idle)
]
