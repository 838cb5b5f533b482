-- ===== src/UartTsi/Terminal.antt =====
-- The constructor in uart_tsi_src/testchip_uart_tsi.cc, which opens the serial device and sets it up,
-- between `main`'s options and its check of the connection.
use uart_tsi.Base.{
  ℕ, Bool, true, false, Option, none, some, List, if◌then◌else◌, Run, done, stop, exited, ◌>>=◌,
}
use uart_tsi.Base.Text.{Text}
use uart_tsi.UartTsi.Options.{Options, start, check_connection}

-- The value of the field `CSIZE`.
pub data CharSize : Type 0 where
  cs5 cs6 cs7 cs8 : CharSize

-- The four flag words of `struct termios`. `others` are the flags that the constructor does not name.
pub record ControlFlags : Type 0 where
  pub parenb : Bool
  pub cstopb : Bool
  pub csize : CharSize
  pub crtscts : Bool
  pub cread : Bool
  pub clocal : Bool
  pub others : ℕ

pub record LocalFlags : Type 0 where
  pub icanon : Bool
  pub echo : Bool
  pub echoe : Bool
  pub echonl : Bool
  pub isig : Bool
  pub others : ℕ

pub record InputFlags : Type 0 where
  pub ixon : Bool
  pub ixoff : Bool
  pub ixany : Bool
  pub ignbrk : Bool
  pub brkint : Bool
  pub parmrk : Bool
  pub istrip : Bool
  pub inlcr : Bool
  pub igncr : Bool
  pub icrnl : Bool
  pub others : ℕ

pub record OutputFlags : Type 0 where
  pub opost : Bool
  pub onlcr : Bool
  pub others : ℕ

-- `struct termios`, with the two entries of `c_cc` that are set, and the speeds.
pub record Termios : Type 0 where
  pub c_cflag : ControlFlags
  pub c_lflag : LocalFlags
  pub c_iflag : InputFlags
  pub c_oflag : OutputFlags
  pub vtime : ℕ
  pub vmin : ℕ
  pub ispeed : ℕ
  pub ospeed : ℕ

unfoldable pub set_cflag : ControlFlags → ControlFlags
set_cflag c = record c {
  parenb = false;
  cstopb = false;
  csize = cs8;
  crtscts = false;
  cread = true;
  clocal = true;
}

unfoldable pub set_lflag : LocalFlags → LocalFlags
set_lflag l = record l { icanon = false; echo = false; echoe = false; echonl = false; isig = false }

unfoldable pub set_iflag : InputFlags → InputFlags
set_iflag i = record i {
  ixon = false;
  ixoff = false;
  ixany = false;
  ignbrk = false;
  brkint = false;
  parmrk = false;
  istrip = false;
  inlcr = false;
  igncr = false;
  icrnl = false;
}

unfoldable pub set_oflag : OutputFlags → OutputFlags
set_oflag o = record o { opost = false; onlcr = false }

-- All that is changed between `tcgetattr` and `tcsetattr`
unfoldable pub settings : ℕ → Termios → Termios
unfolding set_cflag set_lflag set_iflag set_oflag
settings baud t = record {
  c_cflag = set_cflag t.c_cflag;
  c_lflag = set_lflag t.c_lflag;
  c_iflag = set_iflag t.c_iflag;
  c_oflag = set_oflag t.c_oflag;
  vtime = 0;
  vmin = 0;
  ispeed = baud;
  ospeed = baud;
}

-- What the system gives: the descriptor of `open` and the settings of `tcgetattr`, `none` for a
-- failure, whether `tcsetattr` fails, the settings that the device has where it does not, for those
-- asked for, which need not be all of them, and what the first `read` gives.
pub record Serial : Type 0 where
  pub opened : Option ℕ
  pub attributes : Option Termios
  pub set_fails : Bool
  pub installed : Termios → Termios
  pub first_bytes : Option (List ℕ)

-- The descriptor, and the settings of the device then. A failed `tcsetattr` is only printed, and the
-- settings are not read back after one that succeeds.
unfoldable pub set_attributes : ℕ → ℕ → Serial → Option Termios → Run (ℕ × Termios)
unfolding settings
set_attributes baud fd e none = stop (exited 1)
set_attributes baud fd e (some t) =
    done (fd, if e.set_fails then t else e.installed (settings baud t))

unfoldable pub open_device : ℕ → Serial → Option ℕ → Run (ℕ × Termios)
unfolding set_attributes
open_device baud e none = stop (exited 1)
open_device baud e (some fd) = set_attributes baud fd e e.attributes

-- `main` up to its first loop.
unfoldable pub connect : List Text → Serial → Run (Options × (ℕ × Termios))
unfolding open_device
connect argv e = do
  (o, baud) ← start argv
  device ← open_device baud e e.opened
  _ ← check_connection e.first_bytes
  done (o, device)
