-- ===== src/Tty/Input.antt =====
-- The characters that come in, and those that are written, of devices/serial/tty.c.
use some_os.Prelude.{
  ℕ, zero, suc, ◌+◌, ◌-◌, ◌*◌, ◌/◌, ◌%◌, Bool, not, ◌&&◌, ◌||◌, Option, none, some, List, [], ◌∷◌,
  ◌++◌, add64, ltb, leb, ◌==◌, if◌then◌else◌, min,
}
use some_os.Tty.{Tty, has_flag, is_canonical, newline, get_buffer, is_delimiter, wakeup_if_required}

-- INITIAL_TTY_BUFFER_CAPACITY and MAX_TTY_BUFFER_CAPACITY
abbrev pub initial_capacity : ℕ
initial_capacity = 512

abbrev pub max_capacity : ℕ
max_capacity = 4096

unfoldable pub new_capacity : Tty → ℕ
new_capacity d =
    min (if d.buffer_capacity == 0 then initial_capacity else d.buffer_capacity * 3 / 2)
      max_capacity

-- `n` characters moved from the start of the buffer to the old end of it.
unfoldable pub moved : ℕ → ℕ → (ℕ → ℕ) → ℕ → ℕ
moved capacity n b i = if leb capacity i && ltb i (capacity + n) then b (i - capacity) else b i

-- `none` is the assertion that what is moved fits into the new buffer, when it fails. A build without
-- assertions goes on there and writes behind the buffer, which is not modelled.
unfoldable pub resize_buffer : Tty → Option Tty
unfolding new_capacity moved
resize_buffer d =
    let capacity = new_capacity d in
    let to_move = d.buffer_start + d.buffer_count - d.buffer_capacity in
    if capacity == d.buffer_capacity
    then some d
    else if ltb d.buffer_capacity (d.buffer_start + d.buffer_count)
    then (if ltb capacity (d.buffer_capacity + to_move)
        then none
        else some (record d {
          buffer = moved d.buffer_capacity to_move d.buffer;
          buffer_capacity = capacity;
        }))
    else some (record d { buffer_capacity = capacity })

-- '\r'
abbrev pub carriage_return : ℕ
carriage_return = 13

-- ONOCR, OCRNL and ONLCR of `oflag`
unfoldable pub tty_write : ℕ → Tty → Tty
tty_write character d =
    let c =
      if character == carriage_return && has_flag d.ctrl.oflag 4 then newline else character in
    if character == carriage_return && has_flag d.ctrl.oflag 16
    then d
    else if c == newline && has_flag d.ctrl.oflag 8
    then record d { output = d.output ++ (carriage_return ∷ c ∷ []) }
    else record d { output = d.output ++ (c ∷ []) }

abbrev pub is_terminal_special_char : ℕ → Bool
is_terminal_special_char c = ltb c 32 && leb 2 c && not (c == 9) && not (c == newline)

-- ECHOCTL of `lflag`
abbrev pub echo_ctl : Tty → Bool
echo_ctl d = has_flag d.ctrl.lflag 1024

-- '\b', ' ' and '\b'
abbrev pub rub_out : Tty → Tty
rub_out d = tty_write 8 (tty_write 32 (tty_write 8 d))

unfoldable pub erase_last_character : Tty → Tty
unfolding tty_write get_buffer
erase_last_character d =
    let shorter = record d { buffer_count = d.buffer_count - 1 } in
    let c = get_buffer shorter shorter.buffer_count in
    if ltb 0 d.buffer_count
    then (if echo_ctl d && is_terminal_special_char c
        then rub_out (rub_out shorter)
        else rub_out shorter)
    else d

-- `while (dev->buffer_count > 0) { eraseLastCharacter(dev); }`, `n` being the count.
unfoldable pub erase_line : ℕ → Tty → Tty
unfolding erase_last_character
erase_line zero d = d
erase_line (suc n) d = erase_line n (erase_last_character d)

-- ICRNL, IGNCR and INLCR of `iflag`; `none` is a character that is ignored.
unfoldable pub translated : ℕ → Tty → Option ℕ
translated c d =
    if c == carriage_return
    then (if has_flag d.ctrl.iflag 128
        then none
        else some (if has_flag d.ctrl.iflag 256 then newline else c))
    else some (if c == newline && has_flag d.ctrl.iflag 64 then carriage_return else c)

-- SIGINT, SIGQUIT and SIGTSTP
abbrev pub signal_for : ℕ → Tty → ℕ
signal_for c d = if c == d.ctrl.vintr then 2 else if c == d.ctrl.vquit then 3 else 18

abbrev pub is_signal_char : ℕ → Tty → Bool
is_signal_char c d = c == d.ctrl.vintr || c == d.ctrl.vquit || c == d.ctrl.vsusp

-- ECHO, ECHONL: what is echoed, and how.
unfoldable pub echoed : ℕ → Tty → Tty
unfolding tty_write
echoed c d =
    let shown =
      (has_flag d.ctrl.lflag 8 || (has_flag d.ctrl.lflag 64 && is_canonical d && c == newline))
      && (not (is_canonical d) || not (c == d.ctrl.veof)) in
    if shown
    then (if echo_ctl d && is_terminal_special_char c
        then tty_write (c + 64) (tty_write 94 d)
        else tty_write c d)
    else d

-- A character that stays in the buffer, where it stands already.
abbrev pub kept : ℕ → Tty → Tty
kept c d = record d {
  line_delim_count = if is_delimiter c d then add64 d.line_delim_count 1 else d.line_delim_count;
  buffer_count = d.buffer_count + 1;
}

-- ECHOE, ECHOK and ISIG of `lflag`: the rest of `basicTtyRead` for a character.
unfoldable pub receive : ℕ → Tty → Tty
unfolding erase_last_character erase_line echoed
receive c d =
    if has_flag d.ctrl.lflag 16 && is_canonical d && c == d.ctrl.verase
    then erase_last_character d
    else if has_flag d.ctrl.lflag 32 && is_canonical d && c == d.ctrl.vkill
    then erase_line d.buffer_count d
    else if has_flag d.ctrl.lflag 1 && is_signal_char c d
    then record d { signals = (d.process_group, signal_for c d) ∷ d.signals }
    else echoed c (kept c d)

abbrev pub stored : ℕ → Tty → Tty
stored c d =
    let at = (d.buffer_start + d.buffer_count) % d.buffer_capacity in
    record d { buffer = λ i. if i == at then c else d.buffer i }

abbrev pub receive_translated : ℕ → Option ℕ → Tty → Tty
receive_translated c none d = stored c d
receive_translated c (some c') d = receive c' (stored c' d)

-- `if (dev->buffer_count == dev->buffer_capacity) { dev->buffer_count--; }`
abbrev pub truncated : Tty → Tty
truncated d =
    if d.buffer_count == d.buffer_capacity
    then record d { buffer_count = d.buffer_count - 1 }
    else d

-- The room for a character, made by growth, or at the cost of the last one.
unfoldable pub make_room : Tty → Option Tty
unfolding resize_buffer
make_room d =
    let grown = if d.buffer_count == d.buffer_capacity then resize_buffer d else some d in
    elim grown [ none ↦ none | some d' ↦ some (truncated d') ]

-- `basicTtyRead`; with no character the read function fails.
unfoldable pub basic_tty_read : Option ℕ → Tty → Option Tty
unfolding make_room translated receive
basic_tty_read input d = elim (make_room d) [
  | none ↦ none
  | some d' ↦ elim input [
    | none ↦ some d'
    | some c ↦ some (receive_translated c (translated c d') d')
  ]
]

-- The loop of `uartTtyDataReady` over the characters that the UART has.
unfoldable pub read_all : List ℕ → Tty → Option Tty
unfolding basic_tty_read
read_all [] d = basic_tty_read none d
read_all (c ∷ cs) d = elim (basic_tty_read (some c) d) [ none ↦ none | some d' ↦ read_all cs d' ]

unfoldable pub data_ready : ℕ → List ℕ → Tty → Option Tty
unfolding read_all wakeup_if_required
data_ready now cs d = elim (read_all cs d) [
  | none ↦ none
  | some d' ↦ some (wakeup_if_required now (record d' { last_byte = now })).1
]

-- `uartTtyWriteFunction`
unfoldable pub write_all : List ℕ → Tty → Tty
unfolding tty_write
write_all [] d = d
write_all (c ∷ cs) d = write_all cs (tty_write c d)
