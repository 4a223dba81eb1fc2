-- ===== src/Tty/State.antt =====
-- src/layers/terminal.rs: the settings of the terminal, as `libc` gives them.
use whykey.Prelude.{ℕ, Bool, not, Option, none, some, bit_and, ◌==◌, if◌then◌else◌}

-- The constants of `libc` for the system: flags, and places in `c_cc`.
pub record Libc : Type 0 where
  pub isig : ℕ
  pub icanon : ℕ
  pub iexten : ℕ
  pub ixon : ℕ
  pub vdisable : ℕ
  pub vintr : ℕ
  pub vquit : ℕ
  pub verase : ℕ
  pub vkill : ℕ
  pub veof : ℕ
  pub vsusp : ℕ
  pub vstart : ℕ
  pub vstop : ℕ
  pub vreprint : ℕ
  pub vwerase : ℕ
  pub vlnext : ℕ
  pub vdiscard : ℕ
  pub veol : ℕ
  pub veol2 : ℕ

-- `libc::termios`
pub record Termios : Type 0 where
  pub c_iflag : ℕ
  pub c_lflag : ℕ
  pub c_cc : ℕ → ℕ

pub record TtyState : Type 0 where
  pub signal_processing : Bool
  pub canonical : Bool
  pub input_flow_control : Bool
  pub extended_processing : Bool
  pub intr : Option ℕ
  pub quit : Option ℕ
  pub erase : Option ℕ
  pub kill : Option ℕ
  pub eof : Option ℕ
  pub suspend : Option ℕ
  pub start : Option ℕ
  pub stop : Option ℕ
  pub reprint : Option ℕ
  pub werase : Option ℕ
  pub lnext : Option ℕ
  pub discard : Option ℕ
  pub eol : Option ℕ
  pub eol2 : Option ℕ

module _ (libc : Libc) where
  unfoldable pub control_char : ℕ → Option ℕ
  control_char value = if value == libc.vdisable then none else some value

  unfoldable pub tty_state_from_termios : Termios → TtyState
  unfolding control_char
  tty_state_from_termios termios = record {
    signal_processing = not (bit_and termios.c_lflag libc.isig == 0);
    canonical = not (bit_and termios.c_lflag libc.icanon == 0);
    input_flow_control = not (bit_and termios.c_iflag libc.ixon == 0);
    extended_processing = not (bit_and termios.c_lflag libc.iexten == 0);
    intr = control_char (termios.c_cc libc.vintr);
    quit = control_char (termios.c_cc libc.vquit);
    erase = control_char (termios.c_cc libc.verase);
    kill = control_char (termios.c_cc libc.vkill);
    eof = control_char (termios.c_cc libc.veof);
    suspend = control_char (termios.c_cc libc.vsusp);
    start = control_char (termios.c_cc libc.vstart);
    stop = control_char (termios.c_cc libc.vstop);
    reprint = control_char (termios.c_cc libc.vreprint);
    werase = control_char (termios.c_cc libc.vwerase);
    lnext = control_char (termios.c_cc libc.vlnext);
    discard = control_char (termios.c_cc libc.vdiscard);
    eol = control_char (termios.c_cc libc.veol);
    eol2 = control_char (termios.c_cc libc.veol2);
  }
