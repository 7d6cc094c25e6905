-- ===== src/Tty/Control.antt =====
-- The control calls and the creation of a terminal, of devices/serial/tty.c.
use some_os.Prelude.{ℕ, Bool, ◌&&◌, ◌||◌, [], ltb}
use some_os.Tty.{Tty, Termios, can_return_read, wakeup_if_required}

-- The requests, with what `argp` holds.
pub data IoctlRequest : Type 0 where
  tcgets : IoctlRequest
  tcsets : Termios → IoctlRequest
  tcsetsw : Termios → IoctlRequest
  tcsetsf : Termios → IoctlRequest
  tiocgpgrp : IoctlRequest
  tiocspgrp : ℕ → IoctlRequest
  tcxonc : IoctlRequest
  tcflsh : IoctlRequest
  fionread : IoctlRequest
  unknown : IoctlRequest

-- What is written to `argp`, or the error.
pub data Answer : Type 0 where
  success : Answer
  termios : Termios → Answer
  number : ℕ → Answer
  enotsup : Answer
  enotty : Answer

abbrev pub set_termios : ℕ → Termios → Tty → Answer × Tty
set_termios now t d = (success, (wakeup_if_required now (record d { ctrl = t })).1)

unfoldable pub ioctl : ℕ → IoctlRequest → Tty → Answer × Tty
unfolding wakeup_if_required
ioctl now tcgets d = (termios d.ctrl, d)
ioctl now (tcsets t) d = set_termios now t d
ioctl now (tcsetsw t) d = set_termios now t d
ioctl now (tcsetsf t) d = set_termios now t (record d { buffer_count = 0 })
ioctl now tiocgpgrp d = (number d.process_group, d)
ioctl now (tiocspgrp g) d = (success, record d { process_group = g })
ioctl now tcxonc d = (enotsup, d)
ioctl now tcflsh d = (success, record d { buffer_count = 0 })
ioctl now fionread d = (number d.buffer_count, d)
ioctl now unknown d = (enotty, d)

unfoldable pub is_ready : ℕ → Bool → Tty → Bool
unfolding can_return_read
is_ready now write d = write || (can_return_read now d && ltb 0 d.buffer_count)

-- ICRNL; ONLCR and OPOST; ECHO, ECHOK, ECHOE, ECHONL, ECHOCTL, ICANON and ISIG
abbrev pub create_uart_tty_device : Tty
create_uart_tty_device = record {
  buffer = λ _. 0;
  buffer_start = 0;
  buffer_count = 0;
  buffer_capacity = 0;
  line_delim_count = 0;
  last_byte = 0;
  ctrl = record {
    iflag = 256;
    oflag = 9;
    lflag = 1147;
    vintr = 5;
    vquit = 6;
    verase = 127;
    vkill = 21;
    veof = 4;
    vtime = 0;
    vmin = 1;
    vsusp = 20;
    veol = 0;
  };
  process_group = 1;
  blocked = [];
  output = [];
  woken = [];
  signals = [];
  timeouts = [];
}
