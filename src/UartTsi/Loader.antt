-- ===== src/UartTsi/Loader.antt =====
-- `write_chunk` and `load_program` of uart_tsi_src/testchip_uart_tsi.cc: while the program is
-- loaded each chunk is recorded, and with `+selfcheck` all of them are read back.
pub mod Layout
pub mod Memory
pub mod SelfCheck
mod Tests
use uart_tsi.Base.{
  ℕ, zero, suc, Bool, true, false, ◌&&◌, ◌||◌, List, [], ◌∷◌, if◌then◌else◌, ltb, leb, ◌==◌, add64,
  length, Run, done, stop, exited, undefined, ◌>>=◌,
}
use uart_tsi.Htif.{Bus}
use uart_tsi.Tsi.{TestchipTsi, tsi_write_chunk, tsi_read_chunk, load_program}

-- An entry of `std::map<uint64_t, std::vector<uint8_t>>`.
pub record Chunk : Type 0 where
  pub addr : ℕ
  pub bytes : List ℕ

-- The test on one recorded chunk, in the wrapping arithmetic of `addr_t`.
unfoldable pub conflict : ℕ → ℕ → Chunk → Bool
conflict taddr nbytes c =
    let eaddr : ℕ = add64 taddr nbytes in
    let end : ℕ = add64 c.addr (length c.bytes) in
    (leb c.addr taddr && ltb taddr end)
    || (ltb c.addr eaddr && leb eaddr end)
    || (ltb taddr c.addr && ltb end eaddr)

unfoldable pub any_conflict : ℕ → ℕ → List Chunk → Bool
any_conflict taddr nbytes [] = false
any_conflict taddr nbytes (c ∷ cs) = conflict taddr nbytes c || any_conflict taddr nbytes cs

-- `loaded_program[taddr] = …`: the map is in the order of its keys.
unfoldable pub insert : Chunk → List Chunk → List Chunk
insert c [] = c ∷ []
insert c (d ∷ ds) =
    if ltb c.addr d.addr then c ∷ d ∷ ds else if c.addr == d.addr then c ∷ ds else d ∷ insert c ds

-- The members of `testchip_uart_tsi_t` that loading uses.
pub record Loader (S : Type 0) : Type 0 where
  pub tsi : TestchipTsi S
  pub in_load_program : Bool
  pub do_self_check : Bool
  pub loaded_program : List Chunk

-- `rbuf[i] != it.second[i]` for no `i`
unfoldable pub same_bytes : List ℕ → List ℕ → Bool
same_bytes rbuf [] = true
same_bytes [] (b ∷ bytes) = false
same_bytes (r ∷ rbuf) (b ∷ bytes) = (r == b) && same_bytes rbuf bytes

module _ {S : Type 0} (bus : Bus S) where
  -- The object records the write only after it is made.
  unfoldable pub record_chunk : ℕ → List ℕ → Loader S → Run (Loader S)
  record_chunk taddr src o =
      if any_conflict taddr (length src) o.loaded_program
      then stop (exited 1)
      else done (record o {
        loaded_program = insert (record { addr = taddr; bytes = src }) o.loaded_program;
      })

  unfoldable pub write_chunk : ℕ → List ℕ → Loader S → Run (Loader S)
  unfolding record_chunk
  write_chunk taddr src o = do
    t ← tsi_write_chunk bus taddr src o.tsi
    let o' = record o { tsi = t }
    if o.in_load_program then record_chunk taddr src o' else done o'

  -- The writes that the library's loader makes through the object, in order.
  unfoldable pub write_chunks : List Chunk → Loader S → Run (Loader S)
  write_chunks [] o = done o
  write_chunks (c ∷ cs) o = do o' ← write_chunk c.addr c.bytes o; write_chunks cs o'

  -- `max` is `chunk_max_size()`, the size of the buffer.
  unfoldable pub self_check : ℕ → List Chunk → TestchipTsi S → Run (TestchipTsi S)
  self_check max [] t = done t
  self_check max (c ∷ cs) t =
      let go = (do
        (rbuf, t') ← tsi_read_chunk bus c.addr (length c.bytes) [] t
        if same_bytes rbuf c.bytes then self_check max cs t' else stop (exited 1)) in
      if ltb max (length c.bytes) then stop undefined else go

  -- `chunks` is what the library's loader writes for the program; `switch_to_target` lets the
  -- target run first, and memory is loaded directly only where the base class says so.
  unfoldable pub load : (S → S) → ℕ → List Chunk → Loader S → Run (Loader S)
  unfolding write_chunks
  load switch_to_target max chunks o = do
    let t = o.tsi
    let start = record t { host = switch_to_target t.host; is_loadmem = t.config.has_loadmem }
    o' ← write_chunks chunks (record o { in_load_program = true; tsi = start })
    let loaded = record o' { in_load_program = false; tsi = record (o'.tsi) { is_loadmem = false } }
    t' ←
        (if o'.do_self_check
          then self_check max loaded.loaded_program loaded.tsi
          else done loaded.tsi)
    done (record loaded { tsi = t' })
