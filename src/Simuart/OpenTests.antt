-- ===== src/Simuart/OpenTests.antt =====
-- A system with a terminal /dev/pts/3 on descriptor 5 and a log on descriptor 6.
use uart_tsi.Base.{
  ◌≡◌, refl, true, false, ◌&&◌, ◌||◌, not, List, some, none, [], ◌∷◌, done, stop, exited, undefined,
  arith,
}
use uart_tsi.Base.Text.{codes, text_eq}
use uart_tsi.Base.Text.Decimal.{to_string}
use uart_tsi.Simuart.{uart_init, find_port, forces_pty}
use uart_tsi.Simuart.Construct.{
  Opened, Files, Effect, on_interrupt, removes, links, opens, unblocks, construct_uart, closes,
  open_port,
}
use uart_tsi.Simuart.Names.{
  Apart, takes_terminal, asks_pty, construct_uart-Apart, open_port-terminal,
}

abbrev system : Opened
system = record { pty = some 5; pty_name = codes "/dev/pts/3"; symlink_fails = false; log = some 6 }

-- The first port, with a log
first_port :
    construct_uart (some (codes "log")) 0 false system
    ≡ done (
      record { inputfd = some 0; outputfd = some 6; print_file = true },
      on_interrupt ∷ opens (codes "log0") ∷ unblocks (some 0) ∷ [],
    )
unfolding construct_uart to_string
first_port = refl

twelfth_port :
    construct_uart none 12 false system
    ≡ done (
      record { inputfd = some 5; outputfd = some 5; print_file = false },
      removes (codes "uartpty12")
          ∷ links (codes "/dev/pts/3") (codes "uartpty12")
          ∷ unblocks (some 5)
          ∷ [],
    )
unfolding construct_uart to_string
twelfth_port = refl

no_link : construct_uart none 1 false (record system { symlink_fails = true }) ≡ stop (exited 1)
unfolding construct_uart
no_link = refl

no_terminal : construct_uart none 1 false (record system { pty = none }) ≡ stop undefined
unfolding construct_uart
no_terminal = refl

closed : closes (record { inputfd = some 0; outputfd = some 6; print_file = true }) ≡ some 6 ∷ []
unfolding closes
closed = refl

construct_uart-Apart_example :
    Apart (codes "log0" ∷ []) (codes "log1" ∷ [])
    × Apart [] (codes "uartpty1" ∷ [])
    × ((true && false) ≡ false)
unfolding construct_uart to_string
construct_uart-Apart_example =
    construct_uart-Apart (some (codes "log")) 0 1 false false system system (omega arith)
      (omega arith) (omega arith) (omega arith, omega arith) (omega arith, omega arith) refl refl

abbrev first_made : Files × List Effect
first_made = (
  record { inputfd = some 0; outputfd = some 6; print_file = true },
  on_interrupt ∷ opens (codes "log0") ∷ unblocks (some 0) ∷ [],
)

open_port-terminal_instance :
    takes_terminal first_made ≡ not (false || asks_pty (codes "+verbose" ∷ []))
unfolding open_port uart_init find_port forces_pty text_eq to_string
open_port-terminal_instance =
    open_port-terminal (codes "log") (codes "+verbose" ∷ []) 0 false system [] {made = first_made}
      (omega arith, omega arith) refl
