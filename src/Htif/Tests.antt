-- ===== src/Htif/Tests.antt =====
-- A command line of a write and a read.
use uart_tsi.Base.{◌≡◌, true, false, List, [], ◌∷◌, map, All, done, arith}
use uart_tsi.Htif.{InitAccess, default_args, parse_htif_args}
use uart_tsi.Htif.Parse.{Fits, show_access, parse_htif_args-show_access}

abbrev accesses : List InitAccess
accesses =
    record { address = 0x2000000; stdata = 1; store = true }
    ∷ record { address = 0x80001000; stdata = 0; store = false }
    ∷ []

fits : All (Fits 8) accesses
fits = grind arith

parse_htif_args-show_access_example :
    parse_htif_args (map (show_access 8) accesses) default_args
    ≡ done (record default_args { init_accesses = accesses })
parse_htif_args-show_access_example = parse_htif_args-show_access 8 accesses default_args fits
