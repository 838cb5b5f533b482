-- ===== src/UartTsi/Session.antt =====
-- The two loops of `main` in uart_tsi_src/testchip_uart_tsi.cc, over the events of the line.
pub mod Streams
pub mod Whole
use uart_tsi.Base.{
  ℕ, zero, suc, Bool, List, [], ◌∷◌, Run, done, stop, starved, ◌>>=◌, if◌then◌else◌,
}
use uart_tsi.Fesvr.{Tsi}
use uart_tsi.UartTsi.Link.{Poll, Link, handle_uart}

module _ (t : Tsi) (fuel : ℕ) where
  open t use {switch_to_host, is_done, exit_code}

  abbrev pub switched : Link t → Link t
  switched l = record l { host = switch_to_host l.host }

  -- `while (!tsi.done()) { switch_to_host(); handle_uart(); }`, and the events left
  unfoldable pub serve : List Poll → Link t → Run (Link t × List Poll)
  serve [] l = if is_done l.host then done (l, []) else stop starved
  serve (p ∷ ps) l =
      let rest = (do (more, l') ← handle_uart t fuel p (switched l); serve ps l') in
      if is_done l.host then done (l, p ∷ ps) else rest

  -- `while (handle_uart()) switch_to_host();`
  unfoldable pub flush : List Poll → Link t → Run (Link t × List Poll)
  flush [] l = stop starved
  flush (p ∷ ps) l = do
    (more, l') ← handle_uart t fuel p l
    let rest = flush ps (switched l')
    if more then rest else done (l', ps)

  -- From the first poll to `return tsi.exit_code()`.
  unfoldable pub run_link : List Poll → Link t → Run (ℕ × Link t)
  unfolding serve flush
  run_link ps l = do
    (l', ps') ← serve ps l
    (l'', ps'') ← flush ps' l'
    done (exit_code l''.host, l'')
