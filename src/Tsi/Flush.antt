-- ===== src/Tsi/Flush.antt =====
-- `write_chunk` and `read_chunk` flush exactly the lines of their range, in order, and then make
-- the library's access.
use uart_tsi.Base.{
  ℕ, zero, suc, ◌+◌, ◌-◌, ◌/◌, ◌^◌, ◌≤◌, ◌<◌, ◌≡◌, ◌≢◌, false, List, [], ◌∷◌, length, arith, Run,
  done, ◌>>=◌, >>=-congr, if◌then◌else◌, lt→ltb, ◌==◌, add64,
}
use uart_tsi.Htif.{Bus}
use uart_tsi.Tsi.{
  TsiConfig, TestchipTsi, line_of, line_data, flush_from, flush_cache_lines, tsi_write_chunk,
  tsi_read_chunk,
}
use uart_tsi.Tsi.Lines.{lines_from, line_count, cache_lines}

module _ {S : Type 0} (bus : Bus S) where
  open bus use {write_chunk, read_chunk}

  -- Each line's address, written to the flush register.
  abbrev pub flush_all : ℕ → List ℕ → S → Run S
  flush_all cflush_addr [] s = done s
  flush_all cflush_addr (base ∷ lines) s = do
    s' ← write_chunk cflush_addr (line_data base) s
    flush_all cflush_addr lines s'

  flush_from-lines_from :
      (fuel n c base end : ℕ) (s : S)
      → n < fuel
      → n ≡ (end - base + 63) / 64
      → end + 64 ≤ 2 ^ 64
      → flush_from bus fuel c base end s ≡ flush_all c (lines_from n base) s
  unfolding flush_from
  flush_from-lines_from zero n c base end s lt e room = absurd (omega arith)
  flush_from-lines_from (suc fuel) zero c base end s lt e room = ground arith
  flush_from-lines_from (suc fuel) (suc n) c base end s lt e room =
      let below : base < end = omega arith in
      let next : add64 base 64 ≡ base + 64 = omega arith in
      rw (lt→ltb base end below, next)
        (>>=-congr (write_chunk c (line_data base) s) (λ s'.
          flush_from-lines_from fuel n c (base + 64) end s' (omega arith) (omega arith) room))

  pub flush_cache_lines_lem :
      (c : TsiConfig) (taddr nbytes : ℕ) (s : S)
      → taddr + nbytes + 64 ≤ 2 ^ 64
      → flush_cache_lines bus c taddr nbytes s ≡ (
          if c.cflush_addr == 0
          then done s
          else flush_all c.cflush_addr (cache_lines taddr nbytes) s)
  unfolding flush_cache_lines
  flush_cache_lines_lem c taddr nbytes s room =
      let sum : add64 taddr nbytes ≡ taddr + nbytes = omega arith in
      rw (
        sum,
        flush_from-lines_from (nbytes / 64 + 3) (line_count taddr nbytes) c.cflush_addr
            (line_of taddr) (taddr + nbytes) s (omega arith) (omega arith) room,
      )

  -- With a flush register and no direct loading, and ranges that end 64 bytes before the end of
  -- the address space: `write_chunk` writes the address of each cache line of its range to the
  -- register, in order, and then makes the write, and `read_chunk` does the same and then makes
  -- the read.
  pub chunk_order :
      (t : TestchipTsi S) (taddr : ℕ) (src dst : List ℕ) (nbytes : ℕ)
      → t.is_loadmem ≡ false
      → t.config.cflush_addr ≢ 0
      → taddr + length src + 64 ≤ 2 ^ 64
      → taddr + nbytes + 64 ≤ 2 ^ 64
      → (tsi_write_chunk bus taddr src t ≡ (do
        s ← flush_all t.config.cflush_addr (cache_lines taddr (length src)) t.host
        s' ← write_chunk taddr src s
        done (record t { host = s' })))
        × (tsi_read_chunk bus taddr nbytes dst t ≡ (do
          s ← flush_all t.config.cflush_addr (cache_lines taddr nbytes) t.host
          (bytes, s') ← read_chunk taddr nbytes s
          done (bytes, record t { host = s' })))
  unfolding tsi_write_chunk tsi_read_chunk
  chunk_order t taddr src dst nbytes plain on rw_ok rd_ok =
      let off : (t.config.cflush_addr == 0) ≡ false = ground arith in
      (
        rw (plain, flush_cache_lines_lem t.config taddr (length src) t.host rw_ok, off),
        rw (plain, flush_cache_lines_lem t.config taddr nbytes t.host rd_ok, off),
      )
