-- ===== src/Pipe/Ring.antt =====
-- The ring of files/special/pipe.c: what the split copies read and write.
use mathlib.Core.Path.{subst}
use some_os.Prelude.{
  ℕ, zero, suc, ◌+◌, ◌-◌, ◌%◌, ◌≤◌, ◌<◌, ◌≡◌, ◌≢◌, ◌∙◌, refl, sym, ap, List, [], ◌∷◌, ◌++◌, arith,
  ltb, Bool-cases, inl, inr, ltb→lt, ltb→le, length, take, drop, take-append-drop, length-take,
  length-drop, append_assoc, append-nil,
}
use some_os.Pipe.{capacity, slice, store, blit, read_ring, write_ring}

-- The `n` bytes of the ring from `pos` on, going round at its end.
abbrev pub window : (ℕ → ℕ) → ℕ → ℕ → List ℕ
window b pos zero = []
window b pos (suc n) = b pos ∷ window b ((pos + 1) % capacity) n

pub length-window : (b : ℕ → ℕ) (pos n : ℕ) → length (window b pos n) ≡ n
length-window b pos zero = refl
length-window b pos (suc n) = ap suc (length-window b ((pos + 1) % capacity) n)

slice-window : (b : ℕ → ℕ) (pos n : ℕ) → pos + n ≤ capacity → slice b pos n ≡ window b pos n
slice-window b pos zero h = refl
slice-window b pos (suc zero) h = refl
slice-window b pos (suc (suc n)) h =
    let e : (pos + 1) % capacity ≡ pos + 1 = omega arith in
    rw e (ap (λ l. b pos ∷ l) (slice-window b (pos + 1) (suc n) (omega arith)))

pub window-add :
    (b : ℕ → ℕ) (pos m k : ℕ)
    → pos < capacity
    → window b pos (m + k) ≡ window b pos m ++ window b ((pos + m) % capacity) k
window-add b pos zero k h =
    let e : (pos + 0) % capacity ≡ pos = omega arith in
    let e' : 0 + k ≡ k = omega arith in rw (e, e') refl
window-add b pos (suc m) k h =
    let e : suc m + k ≡ suc (m + k) = omega arith in
    let e' : (pos + suc m) % capacity ≡ ((pos + 1) % capacity + m) % capacity = omega arith in
    rw (e, e') (ap (λ l. b pos ∷ l) (window-add b ((pos + 1) % capacity) m k (omega arith)))

-- The one copy or the two read the ring in order.
pub read_ring-window :
    (b : ℕ → ℕ) (pos n : ℕ) → pos < capacity → n ≤ capacity → read_ring b pos n ≡ window b pos n
unfolding read_ring
read_ring-window b pos n h k = elim (Bool-cases (ltb capacity (pos + n))) [
  | inr fits ↦ rw fits (slice-window b pos n (ltb→le capacity (pos + n) fits))
  | inl wraps ↦
      let over = ltb→lt capacity (pos + n) wraps in
      let first = capacity - pos in
      let e : first + (n - first) ≡ n = omega arith in
      let e' : (pos + first) % capacity ≡ 0 = omega arith in
      let parts = window-add b pos first (n - first) h in
      rw (wraps, slice-window b pos first (omega arith), slice-window b 0 (n - first) (omega arith))
        (sym (
            subst
              (λ j.
                window b pos (first + (n - first)) ≡ window b pos first ++ window b j (n - first))
              e' parts)
          ∙ ap (window b pos) e)
]

-- The bytes put one by one, going round.
abbrev pub put_round : List ℕ → ℕ → (ℕ → ℕ) → ℕ → ℕ
put_round [] pos b = b
put_round (x ∷ xs) pos b = put_round xs ((pos + 1) % capacity) (store b pos x)

blit-put_round :
    (xs : List ℕ) (pos : ℕ) (b : ℕ → ℕ)
    → pos + length xs ≤ capacity
    → blit xs pos b ≡ put_round xs pos b
unfolding blit
blit-put_round [] pos b h = refl
blit-put_round (x ∷ []) pos b h = refl
blit-put_round (x ∷ y ∷ xs) pos b h =
    let e : (pos + 1) % capacity ≡ pos + 1 = omega arith in
    rw e (blit-put_round (y ∷ xs) (pos + 1) (store b pos x) (omega arith))

put_round-append :
    (xs ys : List ℕ) (pos : ℕ) (b : ℕ → ℕ)
    → pos < capacity
    → put_round (xs ++ ys) pos b ≡ put_round ys ((pos + length xs) % capacity) (put_round xs pos b)
put_round-append [] ys pos b h = let e : (pos + 0) % capacity ≡ pos = omega arith in rw e refl
put_round-append (x ∷ xs) ys pos b h =
    let e : (pos + suc (length xs)) % capacity ≡ ((pos + 1) % capacity + length xs) % capacity =
      omega arith in
    rw e (put_round-append xs ys ((pos + 1) % capacity) (store b pos x) (omega arith))

write_ring-put_round :
    (xs : List ℕ) (pos : ℕ) (b : ℕ → ℕ)
    → pos < capacity
    → length xs ≤ capacity
    → write_ring xs pos b ≡ put_round xs pos b
unfolding write_ring
write_ring-put_round xs pos b h k = elim (Bool-cases (ltb capacity (pos + length xs))) [
  | inr fits ↦ rw fits (blit-put_round xs pos b (ltb→le capacity (pos + length xs) fits))
  | inl wraps ↦
      let over = ltb→lt capacity (pos + length xs) wraps in
      let first = capacity - pos in
      let n = length-take first xs (omega arith) in
      let e : (pos + length (take first xs)) % capacity ≡ 0 = omega arith in
      let front = blit-put_round (take first xs) pos b (omega arith) in
      let back =
        blit-put_round (drop first xs) 0 (put_round (take first xs) pos b)
          (omega (arith, length-drop first xs)) in
      let whole = put_round-append (take first xs) (drop first xs) pos b h in
      rw (wraps, front, back)
        (subst
          (λ j. put_round (drop first xs) j (put_round (take first xs) pos b) ≡ put_round xs pos b)
          e (sym whole ∙ ap (λ l. put_round l pos b) (take-append-drop first xs)))
]

-- A store just past a window adds its byte there.
window-store_outside :
    (b : ℕ → ℕ) (pos n i x : ℕ)
    → pos < capacity
    → ((k : ℕ) → k < n → (pos + k) % capacity ≢ i)
    → window (store b i x) pos n ≡ window b pos n
unfolding store
window-store_outside b pos zero i x h out = refl
window-store_outside b pos (suc n) i x h out =
    let rest =
      window-store_outside b ((pos + 1) % capacity) n i x (omega arith)
        λ k lt. (let o = out (suc k) (omega arith) in omega arith) in
    let here : pos ≢ i = (let o = out 0 (omega arith) in omega arith) in ground arith

window-store :
    (b : ℕ → ℕ) (pos n x : ℕ)
    → pos < capacity
    → n < capacity
    → window (store b ((pos + n) % capacity) x) pos (n + 1) ≡ window b pos n ++ (x ∷ [])
unfolding store
window-store b pos n x h k =
    let i = (pos + n) % capacity in
    let out = window-store_outside b pos n i x h (λ j lt. omega arith) in
    let last : store b i x i ≡ x = ground arith in
    window-add (store b i x) pos n 1 h ∙ rw (out, last) refl

-- The writes put the bytes behind those that the ring holds.
pub window-put_round :
    (xs : List ℕ) (b : ℕ → ℕ) (pos n : ℕ)
    → pos < capacity
    → n + length xs ≤ capacity
    → window (put_round xs ((pos + n) % capacity) b) pos (n + length xs) ≡ window b pos n ++ xs
window-put_round [] b pos n h k = let e : n + 0 ≡ n = omega arith in rw (e, append-nil) refl
window-put_round (x ∷ xs) b pos n h k =
    let i = (pos + n) % capacity in
    let e : n + suc (length xs) ≡ n + 1 + length xs = omega arith in
    let e' : (i + 1) % capacity ≡ (pos + (n + 1)) % capacity = omega arith in
    rw (e, e')
      (window-put_round xs (store b i x) pos (n + 1) h (omega arith)
        ∙ rw (window-store b pos n x h (omega arith)) (append_assoc (window b pos n) (x ∷ []) xs))

pub window-write_ring :
    (xs : List ℕ) (b : ℕ → ℕ) (pos n : ℕ)
    → pos < capacity
    → n + length xs ≤ capacity
    → window (write_ring xs ((pos + n) % capacity) b) pos (n + length xs) ≡ window b pos n ++ xs
window-write_ring xs b pos n h k =
    rw (write_ring-put_round xs ((pos + n) % capacity) b (omega arith) (omega arith))
      (window-put_round xs b pos n h k)
