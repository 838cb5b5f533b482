-- ===== src/UartTsi/CommandLine.antt =====
-- A command line of the serial tool, and one with a rate that is too high.
use uart_tsi.Base.{
  Bool, if◌then◌else◌, Run, threw, ◌>>=◌, ◌≤◌, ◌<◌, ◌≡◌, refl, true, false, List, [], ◌∷◌, done,
  stop, exited, arith, is_empty, some, none, ◌⊎◌,
}
use uart_tsi.Base.Text.{Text, codes, starts_with, strtoull}
use uart_tsi.Permissive.{permissive, permissive_off, is_plusarg, wrap_args}
use uart_tsi.UartTsi.Options.{
  Options, default_options, parse_options, parse_option, start, select_baud, check_connection,
  start_above,
}
use uart_tsi.UartTsi.Terminal.{Termios, Serial, cs7, settings, connect}
use uart_tsi.UartTsi.Connected.{HasSettings, connect-done}

abbrev args : List Text
args = codes "+tty=/dev/ttyUSB0" ∷ codes "+baudrate=57600" ∷ codes "hello.riscv" ∷ []

abbrev fast : List Text
fast = codes "+tty=/dev/ttyUSB0" ∷ codes "+baudrate=921600" ∷ codes "hello.riscv" ∷ []

abbrev options : Options
options = record {
  tty = codes "/dev/ttyUSB0";
  verbose = false;
  self_check = false;
  baud_rate = 57600;
}

-- A parser of nothing but the flags: by `inside`, options are let pass or end the options.
scan : Bool → List Text → Run (List Text × List Text)
scan inside [] = done ([], [])
scan inside (a ∷ args) =
    let on = scan true args in
    let off = scan false args in
    let more = (do (options, targs) ← scan true args; done (a ∷ options, targs)) in
    if starts_with permissive a
    then if starts_with permissive_off a
      then if inside then off else stop threw
      else if inside
      then stop threw
      else on
    else if inside
    then more
    else done ([], a ∷ args)

started : start args ≡ done (options, 57600)
unfolding start select_baud parse_options parse_option wrap_args is_plusarg starts_with strtoull
started = refl

above : 115200 < (parse_options fast default_options).baud_rate
unfolding parse_options parse_option starts_with strtoull
above = omega arith

start_above_instance : start fast ≡ stop (exited 1)
start_above_instance = start_above fast above

-- A device as a login shell leaves it
abbrev cooked : Termios
cooked = record {
  c_cflag = record {
    parenb = true;
    cstopb = false;
    csize = cs7;
    crtscts = false;
    cread = true;
    clocal = false;
    others = 0;
  };
  c_lflag = record {
    icanon = true;
    echo = true;
    echoe = true;
    echonl = false;
    isig = true;
    others = 1;
  };
  c_iflag = record {
    ixon = true;
    ixoff = false;
    ixany = false;
    ignbrk = false;
    brkint = true;
    parmrk = false;
    istrip = false;
    inlcr = false;
    igncr = false;
    icrnl = true;
    others = 2;
  };
  c_oflag = record { opost = true; onlcr = true; others = 3 };
  vtime = 0;
  vmin = 1;
  ispeed = 9600;
  ospeed = 9600;
}

abbrev device : Serial
device = record {
  opened = some 3;
  attributes = some cooked;
  set_fails = false;
  installed = λ t. t;
  first_bytes = some [];
}

connected : connect args device ≡ done (options, (3, settings 57600 cooked))
unfolding connect start select_baud parse_options parse_option wrap_args is_plusarg starts_with
    strtoull check_connection
connected = refl

stays_cooked : connect args (record device { set_fails = true }) ≡ done (options, (3, cooked))
unfolding connect start select_baud parse_options parse_option wrap_args is_plusarg starts_with
    strtoull check_connection
stays_cooked = refl

connect-done_example :
    (t : Termios) × (options ≡ parse_options args default_options)
    × (is_empty options.tty ≡ false)
    × (57600 ≤ 115200)
    × (device.opened ≡ some 3)
    × (device.attributes ≡ some t)
    × HasSettings 57600 device t (settings 57600 cooked)
    × ((device.first_bytes ≡ none) ⊎ (device.first_bytes ≡ some []))
connect-done_example = connect-done args device (λ t. refl) connected
