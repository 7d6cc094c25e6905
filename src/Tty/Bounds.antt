-- ===== src/Tty/Bounds.antt =====
-- The characters that come in, devices/serial/tty.c: the ring stays within its bounds.
use some_os.Prelude.{
  ℕ, zero, suc, ◌+◌, ◌-◌, ◌≤◌, ◌<◌, ◌≡◌, ◌⊎◌, inl, inr, Option, none, some, List, [], ◌∷◌,
  Option-cases, arith,
}
use some_os.Tty.{Tty, wakeup_if_required}
use some_os.Tty.Input.{
  new_capacity, resize_buffer, make_room, tty_write, rub_out, erase_last_character, erase_line,
  echoed, kept, receive, stored, receive_translated, translated, basic_tty_read, read_all,
  data_ready,
}
use some_os.Tty.Growth.{IsBounded, HasRoom, make_room-HasRoom}

-- A device as it is made, or one that has had a character.
abbrev pub IsReady : Tty → Type 0
IsReady d = IsBounded d ⊎ ((d.buffer_start ≡ 0) × (d.buffer_count ≡ 0) × (d.buffer_capacity ≡ 0))

-- The bounds of a buffer that holds no more than another of the same place.
abbrev NoLonger : Tty → Tty → Type 0
NoLonger d d' =
    (d'.buffer_start ≡ d.buffer_start)
    × (d'.buffer_capacity ≡ d.buffer_capacity)
    × (d'.buffer_count ≤ d.buffer_count)

tty_write-NoLonger : (c : ℕ) (d : Tty) → NoLonger d (tty_write c d)
unfolding tty_write
tty_write-NoLonger c d = ground arith

rub_out-NoLonger : (d : Tty) → NoLonger d (rub_out d)
rub_out-NoLonger d = omega (
  arith,
  tty_write-NoLonger 8 d,
  tty_write-NoLonger 32 (tty_write 8 d),
  tty_write-NoLonger 8 (tty_write 32 (tty_write 8 d)),
)

erase_last_character-NoLonger : (d : Tty) → NoLonger d (erase_last_character d)
unfolding erase_last_character
erase_last_character-NoLonger d =
    let shorter = record d { buffer_count = d.buffer_count - 1 } in
    ground (arith, rub_out-NoLonger shorter, rub_out-NoLonger (rub_out shorter))

erase_line-NoLonger : (n : ℕ) (d : Tty) → NoLonger d (erase_line n d)
unfolding erase_line
erase_line-NoLonger zero d = omega arith
erase_line-NoLonger (suc n) d =
    omega (arith, erase_last_character-NoLonger d, erase_line-NoLonger n (erase_last_character d))

echoed-NoLonger : (c : ℕ) (d : Tty) → NoLonger d (echoed c d)
unfolding echoed
echoed-NoLonger c d = ground (
  arith,
  tty_write-NoLonger c d,
  tty_write-NoLonger 94 d,
  tty_write-NoLonger (c + 64) (tty_write 94 d),
)

-- A character takes up one place at most.
receive-bound :
    (c : ℕ) (d : Tty)
    → ((receive c d).buffer_start ≡ d.buffer_start)
      × ((receive c d).buffer_capacity ≡ d.buffer_capacity)
      × ((receive c d).buffer_count ≤ d.buffer_count + 1)
unfolding receive
receive-bound c d = ground (
  arith,
  erase_last_character-NoLonger d,
  erase_line-NoLonger d.buffer_count d,
  echoed-NoLonger c (kept c d),
)

-- What making room leaves, when it does not fail.
abbrev IsRoomy : Option Tty → Type 0
IsRoomy none = Unit
IsRoomy (some d) = IsBounded d × d.buffer_count < d.buffer_capacity

HasRoom-IsRoomy : (d : Tty) (o : Option Tty) → HasRoom d o → IsRoomy o
unfolding HasRoom
HasRoom-IsRoomy d none h = tt
HasRoom-IsRoomy d (some d') h = (h.0, h.1)

first_room-IsRoomy :
    (d : Tty)
    → (d.buffer_start ≡ 0) × (d.buffer_count ≡ 0) × (d.buffer_capacity ≡ 0)
    → IsRoomy (make_room d)
unfolding make_room resize_buffer new_capacity
first_room-IsRoomy d new = ground (arith, new)

make_room-IsRoomy : (d : Tty) → IsReady d → IsRoomy (make_room d)
make_room-IsRoomy d (inl ok) = HasRoom-IsRoomy d (make_room d) (make_room-HasRoom d ok)
make_room-IsRoomy d (inr new) = first_room-IsRoomy d new

receive_translated-IsBounded :
    (c : ℕ) (o : Option ℕ) (d : Tty) → IsRoomy (some d) → IsBounded (receive_translated c o d)
receive_translated-IsBounded c none d h = h.0
receive_translated-IsBounded c (some c') d h = omega (arith, receive-bound c' (stored c' d), h)

-- The bounds of what is left, when nothing fails.
abbrev pub AllBounded : Option Tty → Type 0
AllBounded none = Unit
AllBounded (some d) = IsBounded d

received-AllBounded :
    (input : Option ℕ) (d : Tty)
    → IsRoomy (some d)
    → AllBounded
        (elim input [ none ↦ some d | some c ↦ some (receive_translated c (translated c d) d) ])
received-AllBounded none d r = r.0
received-AllBounded (some c) d r = receive_translated-IsBounded c (translated c d) d r

basic_tty_read-AllBounded :
    (input : Option ℕ) (d : Tty) → IsReady d → AllBounded (basic_tty_read input d)
unfolding basic_tty_read
basic_tty_read-AllBounded input d ok = elim (Option-cases (make_room d)) [
  | inl e ↦ rw (e, basic_tty_read) tt
  | inr (d', e) ↦
      let room = make_room-IsRoomy d ok in
      let r : IsRoomy (some d') = rw e at room in
      rw (e, basic_tty_read) (received-AllBounded input d' r)
]

read_all-AllBounded : (cs : List ℕ) (d : Tty) → IsReady d → AllBounded (read_all cs d)
unfolding read_all
read_all-AllBounded [] d ok = basic_tty_read-AllBounded none d ok
read_all-AllBounded (c ∷ cs) d ok = elim (Option-cases (basic_tty_read (some c) d)) [
  | inl e ↦ rw (e, read_all) tt
  | inr (d', e) ↦
      let r = basic_tty_read-AllBounded (some c) d ok in
      rw (e, read_all) (read_all-AllBounded cs d' (inl (rw e at r)))
]

wakeup-IsBounded : (now : ℕ) (d : Tty) → IsBounded d → IsBounded (wakeup_if_required now d).1
unfolding wakeup_if_required
wakeup-IsBounded now d ok = ground arith

-- Whatever characters come in, a device as it is made, or one whose ring is well formed, is left
-- with a ring that is well formed and of at most 4096 characters, unless the assertion of
-- uartTtyResizeBuffer fails. In that case nothing is said: a build without assertions writes behind the
-- buffer there.
pub data_ready-AllBounded :
    (now : ℕ) (cs : List ℕ) (d : Tty) → IsReady d → AllBounded (data_ready now cs d)
unfolding data_ready
data_ready-AllBounded now cs d ok = elim (Option-cases (read_all cs d)) [
  | inl e ↦ rw (e, data_ready) tt
  | inr (d', e) ↦
      let r = read_all-AllBounded cs d ok in
      let after = record d' { last_byte = now } in
      rw (e, data_ready) (wakeup-IsBounded now after (rw e at r))
]
