-- ===== src/Uio/Args.antt =====
-- The constructor of uio_mmio_src/uio_htif.cc: the options, and mapping the device.
use uart_tsi.Base.{
  ℕ, ◌<◌, ◌≡◌, ◌≢◌, Bool, true, false, ◌||◌, Option, none, some, List, [], ◌∷◌, if◌then◌else◌, ◌==◌,
  arith, drop, is_empty, Run, done, stop, threw, ◌>>=◌,
}
use uart_tsi.Base.Text.{Text, codes, starts_with, text_eq, strtoull}
use uart_tsi.Permissive.{wrap_args}
use uart_tsi.Uio.{Uio, uio_bootrom_offset}

pub record UioArgs : Type 0 where
  pub uio_device : Text
  pub total_size : ℕ
  pub dram_size : ℕ

abbrev pub no_args : UioArgs
no_args = record { uio_device = []; total_size = 0; dram_size = 0 }

unfoldable pub parse_uio_arg : Text → UioArgs → UioArgs
unfolding starts_with
parse_uio_arg arg a =
    if starts_with (codes "+uio=") arg
    then record a { uio_device = drop 5 arg }
    else if starts_with (codes "+uio_size=") arg
    then record a { total_size = strtoull 0 (drop 10 arg) }
    else if starts_with (codes "+dram_size=") arg
    then record a { dram_size = strtoull 0 (drop 11 arg) }
    else a

unfoldable pub parse_uio_args : List Text → UioArgs → UioArgs
unfolding parse_uio_arg
parse_uio_args [] a = a
parse_uio_args (arg ∷ args) a = parse_uio_args args (parse_uio_arg arg a)

-- The defaults for sizes that were not given, or given as zero.
unfoldable pub with_defaults : UioArgs → UioArgs
with_defaults a = record a {
  total_size = if a.total_size == 0 then 0x40000000 else a.total_size;
  dram_size = if a.dram_size == 0 then uio_bootrom_offset else a.dram_size;
}

-- What `open` gives, and then what `mmap` shows in the mapping.
pub record Device : Type 0 where
  pub opened : Option ℕ
  pub mapping : Option (ℕ → ℕ)

abbrev pub unmapped : ℕ → Uio
unmapped dram = record {
  mem = λ x. 0;
  uio_base = false;
  uio_size = 0;
  uio_fd = none;
  dram_size = dram;
}

unfoldable pub map_opened : ℕ → Option (ℕ → ℕ) → ℕ → Uio → Bool × Uio
map_opened fd none size u = (false, record u { uio_fd = none; uio_base = false })
map_opened fd (some mem) size u =
    (true, record u { uio_fd = some fd; uio_base = true; uio_size = size; mem = mem })

unfoldable pub map_uio_device : Device → ℕ → Uio → Bool × Uio
unfolding map_opened
map_uio_device d size u = elim d.opened [
  | none ↦ (false, record u { uio_fd = none })
  | some fd ↦ map_opened fd d.mapping size u
]

unfoldable pub unmap_uio : Uio → Uio
unmap_uio u = record u { uio_base = false; uio_fd = none }

-- `args` is `argv` without the program's name.
unfoldable pub construct : List Text → Device → Run Uio
unfolding parse_uio_args with_defaults map_uio_device
construct args d =
    let a = with_defaults (parse_uio_args args no_args) in
    let (mapped, u) = map_uio_device d a.total_size (unmapped a.dram_size) in
    if is_empty a.uio_device then stop threw else if mapped then done u else stop threw

-- `arg == "-h" || arg == "--help" || arg == "-help"`
unfoldable pub asks_help : List Text → Bool
unfolding text_eq
asks_help [] = false
asks_help (a ∷ args) =
    text_eq (codes "-h") a
    || text_eq (codes "--help") a
    || text_eq (codes "-help") a
    || asks_help args

-- `catch (const std::exception& e)`
unfoldable pub caught : Run ℕ → Run ℕ
caught (done code) = done code
caught (stop threw) = done 1
caught (stop s) = stop s

-- `main`, whose own name begins with no plus: `run` is the library's.
unfoldable pub main : (Uio → Run ℕ) → List Text → Device → Run ℕ
unfolding asks_help construct wrap_args caught
main run args d =
    if is_empty args
    then done 1
    else if asks_help args
    then done 0
    else caught (do u ← construct (wrap_args args) d; run u)

-- Where the constructor returns, a device was named and is mapped with its descriptor kept, and
-- both sizes are positive: each is the one asked for, or its default where none or zero was.
pub construct-done :
    (args : List Text) (d : Device) {u : Uio}
    → construct args d ≡ done u
    → let a = parse_uio_args args no_args in
      (u.uio_base ≡ true)
      × (u.uio_fd ≢ none)
      × (0 < u.uio_size)
      × (0 < u.dram_size)
      × (u.uio_size ≡ (if a.total_size == 0 then 0x40000000 else a.total_size))
      × (u.dram_size ≡ (if a.dram_size == 0 then uio_bootrom_offset else a.dram_size))
      × (is_empty a.uio_device ≡ false)
unfolding construct
construct-done args d {u} h = ground arith
