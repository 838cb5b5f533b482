-- ===== src/UartTsi/Options.antt =====
-- The command line of uart_tsi_src/testchip_uart_tsi.cc: `main`'s options, the baud rates that the
-- constructor takes, and the check of the connection before the session.
use uart_tsi.Base.{
  ℕ, ◌<◌, ◌≤◌, ◌≡◌, refl, Bool, true, false, ◌||◌, Option, none, some, List, [], ◌∷◌, if◌then◌else◌,
  ltb, ◌==◌, arith, drop, is_empty, length, take, Bool-cases, inl, inr, Run, done, stop, exited,
  ◌>>=◌,
}
use uart_tsi.Base.Text.{Text, codes, starts_with, strtoull}
use uart_tsi.Permissive.{is_plusarg, permissive, permissive_off, wrap_args}

pub record Options : Type 0 where
  pub tty : Text
  pub verbose : Bool
  pub self_check : Bool
  pub baud_rate : ℕ

abbrev pub default_options : Options
default_options = record { tty = []; verbose = false; self_check = false; baud_rate = 115200 }

unfoldable pub parse_option : Text → Options → Options
unfolding starts_with
parse_option arg o = record {
  tty = if starts_with (codes "+tty=") arg then drop 5 arg else o.tty;
  verbose = if starts_with (codes "+verbose") arg then true else o.verbose;
  self_check = if starts_with (codes "+selfcheck") arg then true else o.self_check;
  baud_rate =
      if starts_with (codes "+baudrate=") arg then strtoull 10 (drop 10 arg) else o.baud_rate;
}

unfoldable pub parse_options : List Text → Options → Options
unfolding parse_option
parse_options [] o = o
parse_options (arg ∷ args) o = parse_options args (parse_option arg o)

-- The `switch` of the constructor; the speed that it selects has the rate's own name.
unfoldable pub select_baud : ℕ → Run ℕ
select_baud rate =
    if rate == 1200
      || rate == 1800
      || rate == 2400
      || rate == 4800
      || rate == 9600
      || rate == 19200
      || rate == 38400
      || rate == 57600
      || rate == 115200
    then done rate
    else stop (exited 1)

-- From the command line to the object's constructor: the options and the speed.
unfoldable pub start : List Text → Run (Options × ℕ)
unfolding wrap_args parse_options select_baud
start argv =
    let o = parse_options (wrap_args argv) default_options in
    if is_empty o.tty then stop (exited 1) else (do baud ← select_baud o.baud_rate; done (o, baud))

-- `none` is a failed `read`, which passes for silence.
unfoldable pub check_connection : Option (List ℕ) → Run Bool
check_connection none = done true
check_connection (some bytes) = if ltb 0 (length (take 1 bytes)) then stop (exited 1) else done true

-- The flags around an argument are no options.
parse_options-flags :
    (o : Options) → (parse_option permissive o ≡ o) × (parse_option permissive_off o ≡ o)
unfolding parse_option
parse_options-flags o = (refl, refl)

-- The flags that `main` puts around the arguments change none of its own options.
pub parse_options-wrap_args :
    (args : List Text) (o : Options) → parse_options (wrap_args args) o ≡ parse_options args o
unfolding parse_options wrap_args
parse_options-wrap_args [] o = refl
parse_options-wrap_args (a ∷ args) o = elim (Bool-cases (is_plusarg a)) [
  | inl plus ↦ rw (plus, parse_options-wrap_args args (parse_option a o)) refl
  | inr other ↦ rw (other, parse_options-wrap_args args (parse_option a o)) refl
]

-- Where the constructor is reached, the options are those of the command line as given, without
-- the flags put around them, a tty is named, and the speed is the rate asked for, which is at
-- most 115200.
pub start-done :
    (argv : List Text) {o : Options} {baud : ℕ}
    → start argv ≡ done (o, baud)
    → (o ≡ parse_options argv default_options)
      × (is_empty o.tty ≡ false)
      × (baud ≡ o.baud_rate)
      × (baud ≤ 115200)
unfolding start select_baud
start-done argv {o} {baud} h = ground (arith, parse_options-wrap_args argv default_options)

-- A rate above 115200, the 921600 of the usage text among them, ends the program with status 1.
pub start_above :
    (argv : List Text)
    → 115200 < (parse_options argv default_options).baud_rate
    → start argv ≡ stop (exited 1)
unfolding start select_baud
start_above argv h = ground (arith, parse_options-wrap_args argv default_options)
