-- ===== src/Tty/Tests.antt =====
-- The terminal of devices/serial/tty.c at concrete characters.
use some_os.Prelude.{
  ◌≡◌, refl, [], ◌∷◌, ◌++◌, length, min, true, false, zero, suc, sub64, List, inr, ℕ, arith,
}
use some_os.Tty.{Tty, can_return_read, available, read_or_wait, done}
use some_os.Tty.Input.{make_room, data_ready}
use some_os.Tty.Control.{create_uart_tty_device}
use some_os.Tty.Ring.{IsRing, contents, Leaves, read-splits}
use some_os.Tty.Growth.{HasRoom, make_room-HasRoom}
use some_os.Tty.Bounds.{AllBounded, data_ready-AllBounded}

-- A ring of four characters, "hi\n" and the start of the next line, that goes on at the start of the
-- buffer.
abbrev typed : ℕ → ℕ
typed zero = 10
typed (suc zero) = 120
typed (suc (suc zero)) = 104
typed (suc (suc (suc _))) = 105

abbrev wrapped : Tty
wrapped = record create_uart_tty_device {
  buffer = typed;
  buffer_start = 2;
  buffer_count = 4;
  buffer_capacity = 4;
  line_delim_count = 1;
}

read-splits_example :
    (s rest : List ℕ) × (left : Tty) × (read_or_wait 100 7 false true 16 wrapped ≡ done s left)
    × (s ++ rest ≡ contents wrapped)
    × (length s ≡ min (available wrapped) 16)
    × Leaves wrapped rest (contents left)
    × IsRing left
unfolding can_return_read
read-splits_example = read-splits 100 7 false true 16 wrapped (omega arith) refl

make_room-HasRoom_example : HasRoom wrapped (make_room wrapped)
make_room-HasRoom_example = make_room-HasRoom wrapped (omega arith)

data_ready-AllBounded_example : AllBounded (data_ready 100 (104 ∷ 13 ∷ []) create_uart_tty_device)
data_ready-AllBounded_example =
    data_ready-AllBounded 100 (104 ∷ 13 ∷ []) create_uart_tty_device (inr (refl, refl, refl))

read_runs :
    read_or_wait 100 7 false true 16 wrapped
    ≡ done
        (104 ∷ 105 ∷ 10 ∷ [])
        (record wrapped { line_delim_count = 0; buffer_start = 1; buffer_count = 1 })
unfolding read_or_wait sub64
read_runs = refl
