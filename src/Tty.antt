-- ===== src/Tty.antt =====
-- devices/serial/tty.c: the input of a terminal, a ring of characters that grows, and its readers.
-- Each function holds the lock of the device, so it is one step; `now` is what `getTime` returns. The
-- write function of the UART fails with EBUSY alone, and is then called again: what is written is
-- added to `output`. Copies to the memory of the reader are lists of characters. A task is named by a
-- number.
pub mod Input
pub mod Control
pub mod Ring
pub mod Growth
pub mod Bounds
mod Tests
use Prim.Native.Nat.{bit_and, max}
use some_os.Prelude.{
  ℕ, zero, suc, ◌+◌, ◌-◌, ◌*◌, ◌/◌, ◌%◌, Bool, true, false, not, ◌&&◌, ◌||◌, Option, none, some,
  List, [], ◌∷◌, ◌++◌, length, add64, sub64, ltb, leb, ◌==◌, if◌then◌else◌, min,
}

-- `Termios`, with the control characters that are used.
pub record Termios : Type 0 where
  pub iflag : ℕ
  pub oflag : ℕ
  pub lflag : ℕ
  pub vintr : ℕ
  pub vquit : ℕ
  pub verase : ℕ
  pub vkill : ℕ
  pub veof : ℕ
  pub vtime : ℕ
  pub vmin : ℕ
  pub vsusp : ℕ
  pub veol : ℕ

-- `UartTtyDevice`, with what has been written, the tasks that have been woken, the signals sent to
-- process groups, and the delays of the timeouts that have been set.
pub record Tty : Type 0 where
  pub buffer : ℕ → ℕ
  pub buffer_start : ℕ
  pub buffer_count : ℕ
  pub buffer_capacity : ℕ
  pub line_delim_count : ℕ
  pub last_byte : ℕ
  pub ctrl : Termios
  pub process_group : ℕ
  pub blocked : List ℕ
  pub output : List ℕ
  pub woken : List ℕ
  pub signals : List (ℕ × ℕ)
  pub timeouts : List ℕ

-- ICANON of `lflag`
abbrev pub icanon : ℕ
icanon = 2

abbrev pub has_flag : ℕ → ℕ → Bool
has_flag flags flag = not (bit_and flags flag == 0)

abbrev pub is_canonical : Tty → Bool
is_canonical d = has_flag d.ctrl.lflag icanon

-- VTIME in ticks of the clock: tenths of a second at 10 MHz.
abbrev pub read_timeout : Tty → ℕ
read_timeout d = d.ctrl.vtime * 10000000 / 10

-- '\n'
abbrev pub newline : ℕ
newline = 10

unfoldable pub get_buffer : Tty → ℕ → ℕ
get_buffer d index = d.buffer ((d.buffer_start + index) % d.buffer_capacity)

-- The loop of `bufferLineLength` from `i` on, with `n` characters left.
unfoldable pub line_length_from : ℕ → ℕ → Tty → ℕ
unfolding get_buffer
line_length_from zero i d = 0
line_length_from (suc n) i d =
    let c = get_buffer d i in
    let rest = line_length_from n (i + 1) d in
    if c == newline || c == d.ctrl.veol then i + 1 else if c == d.ctrl.veof then i else rest

unfoldable pub buffer_line_length : Tty → ℕ
unfolding line_length_from
buffer_line_length d = line_length_from d.buffer_count 0 d

unfoldable pub can_return_read : ℕ → Tty → Bool
can_return_read now d =
    if is_canonical d
    then ltb 0 d.line_delim_count
    else if d.ctrl.vtime == 0
    then leb d.ctrl.vmin d.buffer_count
    else leb (max d.ctrl.vmin 1) d.buffer_count
      || (leb (min d.ctrl.vmin 1) d.buffer_count && ltb (add64 d.last_byte (read_timeout d)) now)

unfoldable pub wakeup_if_required : ℕ → Tty → Bool × Tty
unfolding can_return_read
wakeup_if_required now d =
    if can_return_read now d
    then (true, record d { blocked = []; woken = d.woken ++ d.blocked })
    else (false, d)

unfoldable pub check_for_wakeup : ℕ → Tty → Tty
unfolding wakeup_if_required
check_for_wakeup now d =
    let (woke, d') = wakeup_if_required now d in
    if woke then d' else record d' { timeouts = read_timeout d' ∷ d'.timeouts }

abbrev pub without_task : ℕ → List ℕ → List ℕ
without_task task [] = []
without_task task (t ∷ ts) = if t == task then ts else t ∷ without_task task ts

-- Whether the task goes on, because a signal is pending.
unfoldable pub handle_tty_wakeup : Bool → ℕ → Tty → Bool × Tty
handle_tty_wakeup has_signal task d =
    if has_signal then (true, record d { blocked = without_task task d.blocked }) else (false, d)

abbrev pub is_unblocked : List ℕ → Bool
is_unblocked [] = true
is_unblocked (_ ∷ _) = false

-- The list of blocked tasks is looked at when the task is in it already.
unfoldable pub wait_for_read_operation : ℕ → Tty → Tty
wait_for_read_operation task d =
    let waiting = record d { blocked = task ∷ d.blocked } in
    if not (is_canonical d) && not (d.ctrl.vtime == 0) && is_unblocked waiting.blocked
    then record waiting { timeouts = read_timeout d ∷ d.timeouts }
    else waiting

abbrev pub is_delimiter : ℕ → Tty → Bool
is_delimiter c d = c == newline || c == d.ctrl.veol || c == d.ctrl.veof

-- The loop that counts the delimiters among the first `n` characters from `i` on.
unfoldable pub count_delimiters : ℕ → ℕ → Tty → ℕ
unfolding get_buffer
count_delimiters zero i d = 0
count_delimiters (suc n) i d =
    (if is_delimiter (get_buffer d i) d then 1 else 0) + count_delimiters n (i + 1) d

abbrev pub stretch : (ℕ → ℕ) → ℕ → ℕ → List ℕ
stretch b at zero = []
stretch b at (suc n) = b at ∷ stretch b (at + 1) n

-- The two copies out of the ring, or the one.
unfoldable pub copy_out : Tty → ℕ → List ℕ
copy_out d n =
    let first = d.buffer_capacity - d.buffer_start in
    if ltb d.buffer_capacity (d.buffer_start + n)
    then stretch d.buffer d.buffer_start first ++ stretch d.buffer 0 (n - first)
    else stretch d.buffer d.buffer_start n

-- `n` characters taken from the ring.
abbrev pub taken : ℕ → Tty → Tty
taken n d = record d {
  line_delim_count = sub64 d.line_delim_count (count_delimiters n 0 d);
  buffer_start = (d.buffer_start + n) % d.buffer_capacity;
  buffer_count = d.buffer_count - n;
}

-- An end-of-file character behind a line is dropped with it.
abbrev pub without_eof : Tty → Tty
without_eof d =
    if is_canonical d && ltb 0 d.buffer_count && get_buffer d 0 == d.ctrl.veof
    then record d {
      line_delim_count = sub64 d.line_delim_count 1;
      buffer_count = d.buffer_count - 1;
    }
    else d

unfoldable pub available : Tty → ℕ
unfolding buffer_line_length
available d = if is_canonical d then buffer_line_length d else d.buffer_count

-- What a read does: it returns characters, or fails with EINTR or EAGAIN, or waits.
pub data ReadResult : Type 0 where
  done : List ℕ → Tty → ReadResult
  interrupted : Tty → ReadResult
  again : Tty → ReadResult
  waits : Tty → ReadResult

-- The start of the wait, when no task is blocked.
abbrev pub with_last_byte : ℕ → Tty → Tty
with_last_byte now d =
    if not (is_canonical d) && not (d.ctrl.vtime == 0) && is_unblocked d.blocked
    then record d { last_byte = now }
    else d

unfoldable pub read_or_wait : ℕ → ℕ → Bool → Bool → ℕ → Tty → ReadResult
unfolding can_return_read available copy_out count_delimiters get_buffer wait_for_read_operation
read_or_wait now task has_signal block size dev =
    let d = with_last_byte now dev in
    let n = min (available d) size in
    if can_return_read now d
    then done (copy_out d n) (without_eof (taken n d))
    else if has_signal
    then interrupted d
    else if block
    then waits (wait_for_read_operation task d)
    else again d
