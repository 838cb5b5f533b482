-- ===== src/Simuart/Construct.antt =====
-- The constructor of `uart_t` in csrc/uart.cc, which opens terminals and files, as `uart_init` of
-- csrc/SimUART.cc calls it.
use uart_tsi.Base.{
  ℕ, Bool, true, false, ◌&&◌, not, Option, none, some, List, [], ◌∷◌, ◌++◌, if◌then◌else◌, ◌==◌,
  is_empty, Run, done, stop, exited, undefined, ◌>>=◌,
}
use uart_tsi.Base.Text.{Text, codes}
use uart_tsi.Base.Text.Decimal.{to_string}
use uart_tsi.Simuart.{Uart, uart_init, forces_pty}

-- What the system gives: the descriptor and the name of a new terminal, whether the link fails, and
-- the descriptor of the log. `none` is -1.
pub record Opened : Type 0 where
  pub pty : Option ℕ
  pub pty_name : Text
  pub symlink_fails : Bool
  pub log : Option ℕ

-- The fields of `uart_t`.
pub record Files : Type 0 where
  pub inputfd : Option ℕ
  pub outputfd : Option ℕ
  pub print_file : Bool

-- The calls that change something outside of the object: `sigaction`, `remove`, `symlink`, `open`, and
-- `fcntl` with `O_NONBLOCK`.
pub data Effect : Type 0 where
  on_interrupt : Effect
  removes : Text → Effect
  links : Text → Text → Effect
  opens : Text → Effect
  unblocks : Option ℕ → Effect

unfoldable pub symlink_name : ℕ → Text
symlink_name uartno = codes "uartpty" ++ to_string uartno

unfoldable pub uart_log_name : Text → ℕ → Text
uart_log_name prefix uartno = prefix ++ to_string uartno

-- Without a terminal the name stays as it was, which is not initialised.
unfoldable pub attach_pty : ℕ → Opened → Run (Files × List Effect)
unfolding symlink_name
attach_pty uartno o = elim o.pty [
  | none ↦ stop undefined
  | some fd ↦
      if o.symlink_fails
      then stop (exited 1)
      else done (
        record { inputfd = some fd; outputfd = some fd; print_file = false },
        removes (symlink_name uartno) ∷ links o.pty_name (symlink_name uartno) ∷ [],
      )
]

unfoldable pub attach : ℕ → Bool → Opened → Run (Files × List Effect)
unfolding attach_pty
attach uartno use_pty o =
    if uartno == 0 && not use_pty
    then done
        (record { inputfd = some 0; outputfd = some 1; print_file = false }, on_interrupt ∷ [])
    else attach_pty uartno o

-- `if (filename_prefix)`
unfoldable pub redirect : Option Text → ℕ → Opened → Files → Files × List Effect
unfolding uart_log_name
redirect none uartno o f = (f, [])
redirect (some prefix) uartno o f =
    (record f { outputfd = o.log; print_file = true }, opens (uart_log_name prefix uartno) ∷ [])

unfoldable pub construct_uart : Option Text → ℕ → Bool → Opened → Run (Files × List Effect)
unfolding attach redirect
construct_uart filename_prefix uartno use_pty o = do
  (f, es) ← attach uartno use_pty o
  let (f', es') = redirect filename_prefix uartno o f
  done (f', es ++ (es' ++ unblocks f'.inputfd ∷ []))

-- The destructor: the descriptors that it closes.
unfoldable pub closes : Files → List (Option ℕ)
closes f = if f.print_file then f.outputfd ∷ [] else []

-- `uart_init` with what it makes; an empty name is passed on as a null pointer.
unfoldable pub open_port :
    Text
    → List Text
    → ℕ
    → Bool
    → Opened
    → List (ℕ × Option Uart)
    → Run (List (ℕ × Option Uart) × (Files × List Effect))
unfolding construct_uart
open_port filename args n forcepty o ports = do
  ports' ← uart_init args n forcepty ports
  made ←
      construct_uart (if is_empty filename then none else some filename) n
        (forces_pty args forcepty) o
  done (ports', made)
