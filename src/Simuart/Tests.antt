-- ===== src/Simuart/Tests.antt =====
-- A turn that types a letter while one is printed, and one after a signal.
use uart_tsi.Base.{◌≡◌, refl, true, false, some, none, [], ◌∷◌, done, stop, aborted, false}
use uart_tsi.Simuart.{
  Answer, Port, Turn, sighand, ticks, tick, take_input, put_output, ticks-output, uart_tick,
  uart_init, find_port, uart_init-uart_tick,
}

abbrev port : Port
port = record { specialchar = 0; output = 72 ∷ [] }

abbrev typing : Turn
typing = record {
  out_valid = true;
  out_bits = 105;
  in_ready = true;
  readable = some 65;
  write_fails = false;
}

-- The waiting control-C goes in before what is typed.
signalled :
    tick typing (sighand 2 port) ≡ done (some 3, record { specialchar = 0; output = 72 ∷ 105 ∷ [] })
unfolding tick sighand take_input put_output
signalled = refl

ticks-output_example :
    (p' : Port) × (ticks (typing ∷ typing ∷ []) port ≡ done p') × (p'.output ≡ 72 ∷ 105 ∷ 105 ∷ [])
ticks-output_example = ticks-output (typing ∷ typing ∷ []) port (refl, (refl, tt))

nothing_there : find_port 1 [] ≡ none
unfolding find_port
nothing_there = refl

uart_init-uart_tick_instance :
    (a : Answer) × (uart_tick 1 typing 3 [] ≡ done a)
    × (a.out_ready ≡ false)
    × (a.in_bits ≡ none)
    × (a.specialchar ≡ 3)
    × (uart_init [] 1 false a.uarts ≡ stop aborted)
uart_init-uart_tick_instance = uart_init-uart_tick [] 1 false typing 3 [] nothing_there
