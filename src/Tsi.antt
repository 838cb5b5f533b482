-- ===== src/Tsi.antt =====
-- csrc/testchip_tsi.h and csrc/testchip_tsi.cc: chunk accesses that flush the target's cache lines
-- first, over the front-end server's own accesses.
pub mod Flush
pub mod Lines
mod Tests
use uart_tsi.Base.{
  ℕ, zero, suc, ◌+◌, ◌-◌, ◌/◌, ◌%◌, ◌^◌, Bool, true, false, List, [], ◌∷◌, ◌++◌, if◌then◌else◌, ltb,
  ◌==◌, word_bytes, add64, length, drop, Run, done, stop, starved, ◌>>=◌,
}
use uart_tsi.Base.Text.{Text, codes, starts_with, strtoull}
use uart_tsi.Htif.{Bus, HtifArgs, default_args, parse_htif_args, perform_init_accesses}

-- What the constructor takes from the command line.
pub record TsiConfig : Type 0 where
  pub has_loadmem : Bool
  pub cflush_addr : ℕ

unfoldable pub parse_tsi_arg : Bool → Text → TsiConfig → TsiConfig
unfolding starts_with
parse_tsi_arg can_have_loadmem arg c = record {
  has_loadmem = if starts_with (codes "+loadmem=") arg then can_have_loadmem else c.has_loadmem;
  cflush_addr =
      if starts_with (codes "+cflush_addr=0x") arg
      then strtoull 16 (drop 15 arg)
      else c.cflush_addr;
}

unfoldable pub parse_tsi_args : Bool → List Text → TsiConfig → TsiConfig
unfolding parse_tsi_arg
parse_tsi_args can [] c = c
parse_tsi_args can (arg ∷ args) c = parse_tsi_args can args (parse_tsi_arg can arg c)

-- `testchip_tsi_t`, around the state `S` of `tsi_t`.
pub record TestchipTsi (S : Type 0) : Type 0 where
  pub host : S
  pub config : TsiConfig
  pub is_loadmem : Bool
  pub htif : HtifArgs

-- `args` is `argv` without the program's name.
unfoldable pub construct : {S : Type 0} → Bool → List Text → S → Run (TestchipTsi S)
construct can args host = do
  htif ← parse_htif_args args default_args
  done (record {
    host = host;
    config = parse_tsi_args can args (record { has_loadmem = false; cflush_addr = 0 });
    is_loadmem = false;
    htif = htif;
  })

-- `base & ~63`
abbrev pub line_of : ℕ → ℕ
line_of a = a - a % 64

-- `{ (uint32_t)base, (uint32_t)(base >> 32) }`
abbrev pub line_data : ℕ → List ℕ
line_data base = word_bytes (base % 2 ^ 32) ++ word_bytes (base / 2 ^ 32 % 2 ^ 32)

module _ {S : Type 0} (bus : Bus S) where
  open bus use {write_chunk, read_chunk}

  -- `while (base < end)`
  unfoldable pub flush_from : ℕ → ℕ → ℕ → ℕ → S → Run S
  flush_from zero cflush_addr base end s = stop starved
  flush_from (suc fuel) cflush_addr base end s =
      let rest = (do
        s' ← write_chunk cflush_addr (line_data base) s
        flush_from fuel cflush_addr (add64 base 64) end s') in
      if ltb base end then rest else done s

  -- One round for each line, and one more for the test that ends the loop.
  unfoldable pub flush_cache_lines : TsiConfig → ℕ → ℕ → S → Run S
  unfolding flush_from
  flush_cache_lines c taddr nbytes s =
      let loop =
        flush_from (nbytes / 64 + 3) c.cflush_addr (line_of taddr) (add64 taddr nbytes) s in
      if c.cflush_addr == 0 then done s else loop

  -- `load_mem_write` and `load_mem_read` do nothing in this class.
  unfoldable pub tsi_write_chunk : ℕ → List ℕ → TestchipTsi S → Run (TestchipTsi S)
  tsi_write_chunk taddr src t = if t.is_loadmem then done t else do
    s ← flush_cache_lines t.config taddr (length src) t.host
    s' ← write_chunk taddr src s
    done (record t { host = s' })

  -- `dst` is what the buffer holds before the call.
  unfoldable pub tsi_read_chunk : ℕ → ℕ → List ℕ → TestchipTsi S → Run (List ℕ × TestchipTsi S)
  tsi_read_chunk taddr nbytes dst t = if t.is_loadmem then done (dst, t) else do
    s ← flush_cache_lines t.config taddr nbytes t.host
    (bytes, s') ← read_chunk taddr nbytes s
    done (bytes, record t { host = s' })

-- The virtual functions of the object, as `perform_init_accesses` calls them.
unfoldable pub tsi_bus : {S : Type 0} → Bus S → Bus (TestchipTsi S)
tsi_bus bus = record {
  write_chunk = tsi_write_chunk bus;
  read_chunk = λ taddr nbytes t. tsi_read_chunk bus taddr nbytes [] t;
}

-- `tsi_reset` is the library's, which interrupts hart 0.
unfoldable pub reset :
    {S : Type 0}
    → Bus S
    → (TestchipTsi S → Run (TestchipTsi S))
    → TestchipTsi S
    → Run (TestchipTsi S)
unfolding tsi_bus
reset bus tsi_reset t = do
  t' ← perform_init_accesses (tsi_bus bus) t.htif.init_accesses t
  if t'.htif.write_hart0_msip then tsi_reset t' else done t'

-- `tsi_load` is the library's, which writes through the object; `switch_to_target` lets the target
-- run first.
unfoldable pub load_program :
    {S : Type 0}
    → (S → S)
    → (TestchipTsi S → Run (TestchipTsi S))
    → TestchipTsi S
    → Run (TestchipTsi S)
load_program switch_to_target tsi_load t = do
  t' ← tsi_load (record t { host = switch_to_target t.host; is_loadmem = t.config.has_loadmem })
  done (record t' { is_loadmem = false })
