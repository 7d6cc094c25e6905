-- ===== src/Pipe/Stream.antt =====
-- files/special/pipe.c: the bytes that pass through a pipe, in their order.
use mathlib.Core.Path.{subst}
use some_os.Prelude.{
  ℕ, ◌+◌, ◌-◌, ◌%◌, ◌≤◌, ◌<◌, ◌≡◌, refl, sym, ap, true, some, List, [], ◌∷◌, ◌++◌, arith,
  Bool-cases, inl, inr, length, take, drop, take-append-drop, length-take, append_assoc, min, ◌==◌,
  ◌||◌,
}
use some_os.Pipe.{
  capacity, ReadOp, WriteOp, Pipe, read_ring, write_ring, is_empty, do_read, do_write, try_write,
  try_read, round,
}
use some_os.Pipe.Ring.{window, read_ring-window, window-add, window-write_ring}

abbrev pub all_pending : List WriteOp → List ℕ
all_pending [] = []
all_pending (op ∷ ops) = op.pending ++ all_pending ops

-- The bytes in the ring, the oldest first.
abbrev pub contents : Pipe → List ℕ
contents p = window p.buffer p.read_pos p.count

-- All bytes that have been written or are to be written, in order: those that readers have, those
-- in the ring and those that writers have left.
abbrev pub stream : Pipe → List ℕ
stream p = p.delivered ++ (contents p ++ all_pending p.waiting_writes)

pub record IsPipe (p : Pipe) : Type 0 where
  pub pos_in : p.read_pos < capacity
  pub count_in : p.count ≤ capacity

pub do_read-stream :
    (op : ReadOp) (rest : List ReadOp) (p : Pipe)
    → IsPipe p
    → (stream (do_read op rest p) ≡ stream p) × IsPipe (do_read op rest p)
unfolding do_read
do_read-stream op rest p v =
    let n = min p.count op.size in
    let parts = window-add p.buffer p.read_pos n (p.count - n) v.pos_in in
    let e : n + (p.count - n) ≡ p.count = omega arith in
    let got = read_ring-window p.buffer p.read_pos n v.pos_in (omega arith) in
    let same : (p.delivered ++ read_ring p.buffer p.read_pos n)
          ++ (window p.buffer ((p.read_pos + n) % capacity) (p.count - n)
              ++ all_pending p.waiting_writes)
        ≡ stream p =
      rw (got, append_assoc, ← append_assoc (window p.buffer p.read_pos n), ← parts, e) refl in
    let next : (p.read_pos + n) % capacity < capacity = omega arith in
    elim (Bool-cases (op.size - n == 0 || is_empty p.waiting_writes)) [
      | inl done ↦ rw done (same, record { pos_in = next; count_in = omega arith })
      | inr more ↦ rw more (same, record { pos_in = next; count_in = omega arith })
    ]

nil_of_length : (xs : List ℕ) → (length xs == 0) ≡ true → xs ≡ []
nil_of_length [] h = refl
nil_of_length (x ∷ xs) h = ground arith

pub do_write-stream :
    (op : WriteOp) (rest : List WriteOp) (p : Pipe)
    → IsPipe p
    → p.waiting_writes ≡ op ∷ rest
    → (stream (do_write op rest p) ≡ stream p) × IsPipe (do_write op rest p)
unfolding do_write
do_write-stream op rest p v w =
    let n = min (capacity - p.count) (length op.pending) in
    let sent = take n op.pending in
    let e : length sent ≡ n = length-take n op.pending (omega arith) in
    let put = rw e at (window-write_ring sent p.buffer p.read_pos p.count v.pos_in (omega arith)) in
    let before : stream p ≡ p.delivered ++ (contents p ++ (op.pending ++ all_pending rest)) =
      ap (λ l. p.delivered ++ (contents p ++ all_pending l)) w in
    let same : (tl : List ℕ)
        → tl ≡ drop n op.pending ++ all_pending rest
        → p.delivered
            ++ (window (write_ring sent ((p.read_pos + p.count) % capacity) p.buffer) p.read_pos
                  (p.count + n)
                ++ tl)
          ≡ stream p =
      λ tl t.
        rw (t, put, append_assoc, ← append_assoc sent (drop n op.pending), take-append-drop)
          (sym before) in
    elim (Bool-cases (length (drop n op.pending) == 0)) [
      | inl done ↦ rw done (
        same (all_pending rest)
            (ap (λ l. l ++ all_pending rest) (sym (nil_of_length (drop n op.pending) done))),
        record { pos_in = v.pos_in; count_in = omega arith },
      )
      | inr more ↦ rw more (
        same (drop n op.pending ++ all_pending rest) refl,
        record { pos_in = v.pos_in; count_in = omega arith },
      )
    ]

-- A round of the loop of `doOperationOnPipe` moves bytes and loses, repeats and reorders none.
pub round-stream : (p q : Pipe) → IsPipe p → round p ≡ some q → (stream q ≡ stream p) × IsPipe q
unfolding round
round-stream p q v e = go p.waiting_reads p.waiting_writes refl e
  where
    writes :
        (ws : List WriteOp)
        → p.waiting_writes ≡ ws
        → try_write ws p ≡ some q
        → (stream q ≡ stream p) × IsPipe q
    writes [] w f = cc
    writes (op ∷ rest) w f = ground (arith, do_write-stream op rest p v w)

    go :
        (rs : List ReadOp) (ws : List WriteOp)
        → p.waiting_writes ≡ ws
        → try_read rs p ≡ some q
        → (stream q ≡ stream p) × IsPipe q
    go [] ws w f = writes ws w (subst (λ l. try_write l p ≡ some q) w f)
    go (op ∷ rest) ws w f = ground (
      arith,
      do_read-stream op rest p v,
      λ (g : try_write p.waiting_writes p ≡ some q).
          writes ws w (subst (λ l. try_write l p ≡ some q) w g),
    )
