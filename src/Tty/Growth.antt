-- ===== src/Tty/Growth.antt =====
-- The room for the characters that come in, devices/serial/tty.c: the growth of the ring.
use some_os.Prelude.{
  ℕ, zero, suc, ◌+◌, ◌-◌, ◌%◌, ◌≤◌, ◌<◌, ◌≡◌, ◌≢◌, refl, sym, ap, ◌∙◌, ◌⊎◌, inl, inr, true, false,
  Option, none, some, [], ◌∷◌, ◌++◌, ltb, leb, ◌==◌, Bool-cases, Option-cases, arith, ltb→lt,
  ltb→le, ==_iff,
}
use some_os.Tty.{Tty, stretch}
use some_os.Tty.Input.{max_capacity, new_capacity, moved, resize_buffer, truncated, make_room}
use some_os.Tty.Ring.{IsRing, ring, contents, ring-low, ring-wraps, ring-last}

stretch-append :
    (b : ℕ → ℕ) (at m n : ℕ) → stretch b at (m + n) ≡ stretch b at m ++ stretch b (at + m) n
stretch-append b at zero n =
    let e : 0 + n ≡ n = omega arith in let f : at + 0 ≡ at = omega arith in rw (e, f) refl
stretch-append b at (suc m) n =
    let e : at + 1 + m ≡ at + suc m = omega arith in
    let f : suc m + n ≡ suc (m + n) = omega arith in
    let r = stretch-append b (at + 1) m n in rw (f, r, e) refl

-- What a move leaves below the old end, and what it puts behind it.
stretch-moved_low :
    (cap m : ℕ) (b : ℕ → ℕ) (at n : ℕ)
    → at + n ≤ cap
    → stretch (moved cap m b) at n ≡ stretch b at n
unfolding moved
stretch-moved_low cap m b at zero h = refl
stretch-moved_low cap m b at (suc n) h =
    let r = stretch-moved_low cap m b (at + 1) n (omega arith) in
    let low : leb cap at ≡ false = ground arith in rw (r, low) refl

stretch-moved_high :
    (cap m : ℕ) (b : ℕ → ℕ) (i n : ℕ)
    → i + n ≤ m
    → stretch (moved cap m b) (cap + i) n ≡ stretch b i n
unfolding moved
stretch-moved_high cap m b i zero h = refl
stretch-moved_high cap m b i (suc n) h =
    let r = stretch-moved_high cap m b (i + 1) n (omega arith) in
    let e : cap + i + 1 ≡ cap + (i + 1) = omega arith in
    let high : leb cap (cap + i) ≡ true = ground arith in
    let below : ltb (cap + i) (cap + m) ≡ true = ground arith in
    let z : cap + i - cap ≡ i = omega arith in rw (e, r, high, below, z) refl

-- The characters of a ring that has grown.
grown-contents :
    (d : Tty) (capacity : ℕ)
    → IsRing d
    → d.buffer_start + d.buffer_count ≤ capacity
    → d.buffer_capacity < d.buffer_start + d.buffer_count
    → let to_move = d.buffer_start + d.buffer_count - d.buffer_capacity in
      ring (moved d.buffer_capacity to_move d.buffer) capacity d.buffer_start d.buffer_count
      ≡ contents d
grown-contents d capacity ok fits wraps =
    let b = d.buffer in
    let cap = d.buffer_capacity in
    let at = d.buffer_start in
    let m = at + d.buffer_count - cap in
    let b' = moved cap m b in
    let e : d.buffer_count ≡ cap - at + m = omega arith in
    let f : at + (cap - at) ≡ cap + 0 = omega arith in
    let g : d.buffer_count - (cap - at) ≡ m = omega arith in
    ring-low b' capacity at d.buffer_count fits
    ∙ ap (stretch b' at) e
    ∙ stretch-append b' at (cap - at) m
    ∙ ap (λ l. l ++ stretch b' (at + (cap - at)) m)
        (stretch-moved_low cap m b at (cap - at) (omega arith))
    ∙ ap (λ i. stretch b at (cap - at) ++ stretch b' i m) f
    ∙ ap (λ l. stretch b at (cap - at) ++ l) (stretch-moved_high cap m b 0 m (omega arith))
    ∙ ap (λ n. stretch b at (cap - at) ++ stretch b 0 n) (sym g)
    ∙ sym (ring-wraps b cap at d.buffer_count ok.0 (omega arith) wraps)

new_capacity-bounds :
    (d : Tty)
    → 0 < d.buffer_capacity
    → d.buffer_capacity ≤ max_capacity
    → d.buffer_capacity ≤ new_capacity d × new_capacity d ≤ max_capacity
unfolding new_capacity
new_capacity-bounds d h k = ground arith

-- A ring whose capacity is within the bound.
abbrev pub IsBounded : Tty → Type 0
IsBounded d = IsRing d × d.buffer_capacity ≤ max_capacity

-- What `resize_buffer` returns.
abbrev IsResized : Tty → Option Tty → Type 0
IsResized d none = new_capacity d < d.buffer_start + d.buffer_count
IsResized d (some d') =
    IsBounded d'
    × (d'.buffer_capacity ≡ new_capacity d)
    × (d'.buffer_count ≡ d.buffer_count)
    × (contents d' ≡ contents d)

resize-IsResized : (d : Tty) → IsBounded d → IsResized d (resize_buffer d)
unfolding resize_buffer
resize-IsResized d ok =
    let bounds = new_capacity-bounds d (omega arith) ok.1 in
    let to_move = d.buffer_start + d.buffer_count - d.buffer_capacity in
    elim (Bool-cases (new_capacity d == d.buffer_capacity)) [
      | inl e ↦ rw e (ok, sym ((==_iff (new_capacity d) d.buffer_capacity).0 e), refl, refl)
      | inr e ↦ elim (Bool-cases (ltb d.buffer_capacity (d.buffer_start + d.buffer_count))) [
        | inl wraps ↦ elim (Bool-cases (ltb (new_capacity d) (d.buffer_capacity + to_move))) [
          | inl f ↦ rw (e, wraps, f) (ground arith)
          | inr f ↦
              let fits = ltb→le (new_capacity d) (d.buffer_capacity + to_move) f in
              let more = ltb→lt d.buffer_capacity (d.buffer_start + d.buffer_count) wraps in
              rw (e, wraps, f)
                (
                  ((omega (arith, bounds), omega (arith, bounds)), bounds.1),
                  refl,
                  refl,
                  grown-contents d (new_capacity d) ok.0 (omega arith) more,
                )
        ]
        | inr straight ↦
            let fits = ltb→le d.buffer_capacity (d.buffer_start + d.buffer_count) straight in
            let before = ring-low d.buffer d.buffer_capacity d.buffer_start d.buffer_count fits in
            let after =
              ring-low d.buffer (new_capacity d) d.buffer_start d.buffer_count
                (omega (arith, bounds)) in
            rw (e, straight)
              (
                ((omega (arith, bounds), omega (arith, bounds)), bounds.1),
                refl,
                refl,
                after ∙ sym before,
              )
      ]
    ]

-- What there is after room has been made: all of the characters, or all but the last.
unfoldable pub HasRoom : Tty → Option Tty → Type 0
HasRoom d none =
    (d.buffer_count ≡ d.buffer_capacity) × new_capacity d < d.buffer_start + d.buffer_count
HasRoom d (some d') =
    IsBounded d'
    × d'.buffer_count < d'.buffer_capacity
    × ((contents d' ≡ contents d)
        ⊎ (new_capacity d ≡ d.buffer_capacity
            × ((last : ℕ) × (contents d ≡ contents d' ++ (last ∷ [])))))

==_no : (a b : ℕ) → (a == b) ≡ false → a ≢ b
==_no a b h = ground arith

truncated-HasRoom :
    (d d' : Tty)
    → IsBounded d'
    → contents d' ≡ contents d
    → (d'.buffer_count ≡ d'.buffer_capacity → new_capacity d ≡ d.buffer_capacity)
    → HasRoom d (some (truncated d'))
unfolding HasRoom
truncated-HasRoom d d' ok same full = elim (Bool-cases (d'.buffer_count == d'.buffer_capacity)) [
  | inl e ↦
      let f = (==_iff d'.buffer_count d'.buffer_capacity).0 e in
      rw e (
        ((omega arith, omega arith), ok.1),
        omega (arith, f),
        inr (
          full f,
          (
            d'.buffer ((d'.buffer_start + (d'.buffer_count - 1)) % d'.buffer_capacity),
            sym same
                ∙ ring-last d'.buffer d'.buffer_capacity d'.buffer_start d'.buffer_count
                    (omega (arith, f)),
          ),
        ),
      )
  | inr e ↦ rw e (ok, ground arith, inl same)
]

-- Making room for a character, in a ring that is well formed and of at most 4096 characters, either
-- fails the assertion, when the buffer is full and what wraps around does not fit behind its old
-- end, or leaves such a ring with a free place and the same characters, but for the last one when the
-- capacity cannot grow.
pub make_room-HasRoom : (d : Tty) → IsBounded d → HasRoom d (make_room d)
unfolding make_room HasRoom
make_room-HasRoom d ok = elim (Bool-cases (d.buffer_count == d.buffer_capacity)) [
  | inl full ↦
      let f = (==_iff d.buffer_count d.buffer_capacity).0 full in
      let r = resize-IsResized d ok in
      elim (Option-cases (resize_buffer d)) [
        | inl fails ↦ rw (full, fails, make_room) (f, rw fails at r)
        | inr (d', found) ↦
            let r' : IsResized d (some d') = rw found at r in
            rw (full, found, make_room)
              (truncated-HasRoom d d' r'.0 r'.3 (λ e. omega (arith, r'.1, r'.2, f, e)))
      ]
  | inr e ↦
      rw (e, make_room)
        (truncated-HasRoom d d ok refl
          (λ h. absurd (omega (arith, ==_no d.buffer_count d.buffer_capacity e, h))))
]
