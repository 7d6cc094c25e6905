-- ===== src/Tty/Ring.antt =====
-- Reads of a terminal, devices/serial/tty.c: what a read takes out of the ring, and what it leaves.
use native.Mathlib.Nat.{mod-eq_of_lt, mod-eq-sub-mod, mod-lt}
use mathlib.Core.Bool.{false≢true}
use some_os.Prelude.{
  ℕ, zero, suc, ◌+◌, ◌-◌, ◌%◌, ◌≤◌, ◌<◌, min, ◌≡◌, refl, sym, ap, ◌∙◌, ◌⊎◌, inl, inr, Bool, true,
  false, not, ◌&&◌, List, [], ◌∷◌, ◌++◌, length, ltb, ◌==◌, Bool-cases, arith, ltb→lt, ltb→le,
  ==_iff,
}
use some_os.Tty.{
  Tty, is_canonical, get_buffer, line_length_from, buffer_line_length, available, can_return_read,
  stretch, copy_out, taken, without_eof, with_last_byte, read_or_wait, done, is_unblocked,
}

-- The start is in the buffer, and no more characters are in it than it holds.
abbrev pub IsRing : Tty → Type 0
IsRing d = d.buffer_start < d.buffer_capacity × d.buffer_count ≤ d.buffer_capacity

-- `n` characters of a ring from `at` on.
abbrev pub ring : (ℕ → ℕ) → ℕ → ℕ → ℕ → List ℕ
ring b cap at zero = []
ring b cap at (suc n) = b (at % cap) ∷ ring b cap (at + 1) n

-- The characters in the buffer, the oldest first.
abbrev pub contents : Tty → List ℕ
contents d = ring d.buffer d.buffer_capacity d.buffer_start d.buffer_count

module _ (b : ℕ → ℕ) (cap : ℕ) where
  pub length-ring : (at n : ℕ) → length (ring b cap at n) ≡ n
  length-ring at zero = refl
  length-ring at (suc n) = ap suc (length-ring (at + 1) n)

  pub ring-low : (at n : ℕ) → at + n ≤ cap → ring b cap at n ≡ stretch b at n
  ring-low at zero h = refl
  ring-low at (suc n) h =
      let m : at % cap ≡ at = mod-eq_of_lt (omega arith) in
      rw (m, ring-low (at + 1) n (omega arith)) refl

  ring-shift : (at n : ℕ) → cap ≤ at → ring b cap at n ≡ ring b cap (at - cap) n
  ring-shift at zero h = refl
  ring-shift at (suc n) h =
      let m : at % cap ≡ (at - cap) % cap = mod-eq-sub-mod h in
      let e : at + 1 - cap ≡ at - cap + 1 = omega arith in
      rw (m, ring-shift (at + 1) n (omega arith), e) refl

  pub ring-high :
      (at n : ℕ) → cap ≤ at → at + n ≤ cap + cap → ring b cap at n ≡ stretch b (at - cap) n
  ring-high at n h k = ring-shift at n h ∙ ring-low (at - cap) n (omega arith)

  pub ring-append : (at m n : ℕ) → ring b cap at (m + n) ≡ ring b cap at m ++ ring b cap (at + m) n
  ring-append at zero n =
      let e : 0 + n ≡ n = omega arith in let f : at + 0 ≡ at = omega arith in rw (e, f) refl
  ring-append at (suc m) n =
      let e : at + 1 + m ≡ at + suc m = omega arith in
      let f : suc m + n ≡ suc (m + n) = omega arith in
      let r = ring-append (at + 1) m n in rw (f, r, e) refl

  pub ring-mod : (at n : ℕ) → at < cap + cap → ring b cap (at % cap) n ≡ ring b cap at n
  ring-mod at n h = elim (Bool-cases (ltb at cap)) [
    | inl e ↦ let m : at % cap ≡ at = mod-eq_of_lt (ltb→lt at cap e) in rw m refl
    | inr e ↦
        let k = ltb→le at cap e in
        let m : at % cap ≡ at - cap = mod-eq-sub-mod k ∙ mod-eq_of_lt (omega arith) in
        rw m (sym (ring-shift at n k))
  ]

-- A ring that goes on at the start of the buffer.
pub ring-wraps :
    (b : ℕ → ℕ) (cap at n : ℕ)
    → at < cap
    → n ≤ cap
    → cap < at + n
    → ring b cap at n ≡ stretch b at (cap - at) ++ stretch b 0 (n - (cap - at))
ring-wraps b cap at n h k wraps =
    let e : n ≡ cap - at + (n - (cap - at)) = omega arith in
    let low = ring-low b cap at (cap - at) (omega arith) in
    let high = ring-high b cap (at + (cap - at)) (n - (cap - at)) (omega arith) (omega arith) in
    let z : at + (cap - at) - cap ≡ 0 = omega arith in
    ap (ring b cap at) e
    ∙ ring-append b cap at (cap - at) (n - (cap - at))
    ∙ ap (λ l. l ++ ring b cap (at + (cap - at)) (n - (cap - at))) low
    ∙ ap (λ l. stretch b at (cap - at) ++ l) (high ∙ ap (λ i. stretch b i (n - (cap - at))) z)

copy_out-ring :
    (d : Tty) (n : ℕ)
    → IsRing d
    → n ≤ d.buffer_count
    → copy_out d n ≡ ring d.buffer d.buffer_capacity d.buffer_start n
unfolding copy_out
copy_out-ring d n ok h =
    let b = d.buffer in
    let cap = d.buffer_capacity in
    let at = d.buffer_start in
    elim (Bool-cases (ltb cap (at + n))) [
      | inl e ↦ rw e (sym (ring-wraps b cap at n ok.0 (omega arith) (ltb→lt cap (at + n) e)))
      | inr e ↦ rw e (sym (ring-low b cap at n (ltb→le cap (at + n) e)))
    ]

line_length-bound : (n i : ℕ) (d : Tty) → line_length_from n i d ≤ i + n
unfolding line_length_from
line_length-bound zero i d = omega arith
line_length-bound (suc n) i d = ground (arith, line_length-bound n (i + 1) d)

pub available-bound : (d : Tty) → available d ≤ d.buffer_count
unfolding available buffer_line_length
available-bound d = ground (arith, line_length-bound d.buffer_count 0 d)

-- What a read leaves in the buffer, of the characters `rest` that it did not return: all of them, or,
-- for a canonical read that stopped before an end-of-file character, all but the last.
abbrev pub Leaves : Tty → List ℕ → List ℕ → Type 0
Leaves d rest left =
    (left ≡ rest)
    ⊎ ((is_canonical d ≡ true)
        × ((others : List ℕ) × (rest ≡ d.ctrl.veof ∷ others))
        × ((last : ℕ) × (rest ≡ left ++ (last ∷ []))))

taken-contents :
    (d : Tty) (n : ℕ)
    → IsRing d
    → n ≤ d.buffer_count
    → contents (taken n d)
      ≡ ring d.buffer d.buffer_capacity (d.buffer_start + n) (d.buffer_count - n)
taken-contents d n ok h =
    ring-mod d.buffer d.buffer_capacity (d.buffer_start + n) (d.buffer_count - n) (omega arith)

taken-IsRing : (d : Tty) (n : ℕ) → IsRing d → IsRing (taken n d)
taken-IsRing d n ok = (mod-lt (d.buffer_start + n) (omega arith), omega arith)

-- The first and the last character of a ring that is not empty.
ring-first :
    (b : ℕ → ℕ) (cap at n : ℕ)
    → 0 < n
    → ring b cap at n ≡ b ((at + 0) % cap) ∷ ring b cap (at + 1) (n - 1)
ring-first b cap at n h =
    let e : n ≡ suc (n - 1) = omega arith in
    let z : at + 0 ≡ at = omega arith in rw z (ap (ring b cap at) e)

pub ring-last :
    (b : ℕ → ℕ) (cap at n : ℕ)
    → 0 < n
    → ring b cap at n ≡ ring b cap at (n - 1) ++ (b ((at + (n - 1)) % cap) ∷ [])
ring-last b cap at n h =
    let e : n ≡ n - 1 + 1 = omega arith in ap (ring b cap at) e ∙ ring-append b cap at (n - 1) 1

both_true : (a b : Bool) → (a && b) ≡ true → (a ≡ true) × (b ≡ true)
both_true true b h = (refl, h)
both_true false b h = absurd (false≢true h)

without_eof-Leaves :
    (d : Tty) → IsRing d → Leaves d (contents d) (contents (without_eof d)) × IsRing (without_eof d)
unfolding get_buffer
without_eof-Leaves d ok =
    elim (Bool-cases (is_canonical d && ltb 0 d.buffer_count && get_buffer d 0 == d.ctrl.veof)) [
      | inl e ↦
          let (more, eof) =
            both_true (is_canonical d && ltb 0 d.buffer_count) (get_buffer d 0 == d.ctrl.veof) e in
          let (canonical, some_left) = both_true (is_canonical d) (ltb 0 d.buffer_count) more in
          let n = ltb→lt 0 d.buffer_count some_left in
          let c = (==_iff (get_buffer d 0) d.ctrl.veof).0 eof in
          let cap = d.buffer_capacity in
          let at = d.buffer_start in
          rw e (
            inr (
              canonical,
              (
                ring d.buffer cap (at + 1) (d.buffer_count - 1),
                ring-first d.buffer cap at d.buffer_count n
                    ∙ ap (λ x. x ∷ ring d.buffer cap (at + 1) (d.buffer_count - 1)) c,
              ),
              (
                d.buffer ((at + (d.buffer_count - 1)) % cap),
                ring-last d.buffer cap at d.buffer_count n,
              ),
            ),
            omega arith,
          )
      | inr e ↦ rw e (inl refl, ok)
    ]

-- The characters that are stretch and those behind them are all of them.
copy_out-splits :
    (d : Tty) (n : ℕ)
    → IsRing d
    → n ≤ d.buffer_count
    → (copy_out d n ++ contents (taken n d) ≡ contents d) × (length (copy_out d n) ≡ n)
copy_out-splits d n ok h =
    let c = copy_out-ring d n ok h in
    let t = taken-contents d n ok h in
    let e : n + (d.buffer_count - n) ≡ d.buffer_count = omega arith in
    let r = ring-append d.buffer d.buffer_capacity d.buffer_start n (d.buffer_count - n) in
    (
      rw (c, t) (sym r ∙ ap (ring d.buffer d.buffer_capacity d.buffer_start) e),
      rw c (length-ring d.buffer d.buffer_capacity d.buffer_start n),
    )

line_length-last_byte :
    (n i now : ℕ) (d : Tty)
    → line_length_from n i (record d { last_byte = now }) ≡ line_length_from n i d
unfolding line_length_from get_buffer
line_length-last_byte zero i now d = refl
line_length-last_byte (suc n) i now d = rw (line_length-last_byte n (i + 1) now d) refl

-- The start of a wait changes nothing that a read looks at.
abbrev LooksLike : Tty → Tty → Type 0
LooksLike d dev =
    (contents d ≡ contents dev)
    × (available d ≡ available dev)
    × (IsRing dev → IsRing d)
    × ((rest left : List ℕ) → Leaves d rest left → Leaves dev rest left)

with_last_byte-LooksLike : (now : ℕ) (dev : Tty) → LooksLike (with_last_byte now dev) dev
unfolding available buffer_line_length
with_last_byte-LooksLike now dev =
    elim (Bool-cases
      (not (is_canonical dev) && not (dev.ctrl.vtime == 0) && is_unblocked dev.blocked)) [
        | inl e ↦
            rw (e, line_length-last_byte dev.buffer_count 0 now dev)
              (refl, refl, λ r. r, λ rest left h. h)
        | inr e ↦ rw e (refl, refl, λ r. r, λ rest left h. h)
      ]

reading :
    (d : Tty) (size : ℕ)
    → IsRing d
    → let n = min (available d) size in
      (rest : List ℕ) × (copy_out d n ++ rest ≡ contents d)
      × (length (copy_out d n) ≡ n)
      × Leaves d rest (contents (without_eof (taken n d)))
      × IsRing (without_eof (taken n d))
reading d size ok =
    let n = min (available d) size in
    let h : n ≤ d.buffer_count = omega (arith, available-bound d) in
    let r = copy_out-splits d n ok h in
    let w = without_eof-Leaves (taken n d) (taken-IsRing d n ok) in
    (contents (taken n d), r.0, r.1, w.0, w.1)

-- A read that may return, of a ring that is well formed, does: what it returns followed by what it
-- does not is what the buffer held, it is as long as the smaller of what is available and of what is
-- asked for, the ring stays well formed, and all that was not returned is left in it. The exception is
-- a canonical read that stops before an end-of-file character: the last character is lost then.
pub read-splits :
    (now task : ℕ) (has_signal block : Bool) (size : ℕ) (dev : Tty)
    → IsRing dev
    → can_return_read now (with_last_byte now dev) ≡ true
    → (s rest : List ℕ) × (left : Tty) × (read_or_wait now task has_signal block size dev
        ≡ done s left)
      × (s ++ rest ≡ contents dev)
      × (length s ≡ min (available dev) size)
      × Leaves dev rest (contents left)
      × IsRing left
unfolding read_or_wait
read-splits now task has_signal block size dev ok can =
    let d = with_last_byte now dev in
    let n = min (available d) size in
    let same = with_last_byte-LooksLike now dev in
    let r = reading d size (same.2 ok) in
    (
      copy_out d n,
      r.0,
      without_eof (taken n d),
      rw can refl,
      r.1 ∙ same.0,
      r.2 ∙ ap (λ a. min a size) same.1,
      same.3 r.0 (contents (without_eof (taken n d))) r.3,
      r.4,
    )
