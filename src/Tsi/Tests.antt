-- ===== src/Tsi/Tests.antt =====
-- Accesses across the end of a cache line, over a memory.
use uart_tsi.Base.{ℕ, ◌≡◌, refl, false, [], ◌∷◌, done, arith, ◌>>=◌}
use uart_tsi.Base.Memory.{bytes_at, overlay}
use uart_tsi.Htif.{Bus, default_args}
use uart_tsi.Tsi.{TestchipTsi, tsi_write_chunk, tsi_read_chunk}
use uart_tsi.Tsi.Flush.{flush_all, chunk_order}

abbrev ram : Bus (ℕ → ℕ)
ram = record {
  write_chunk = λ a src s. done (overlay a src s);
  read_chunk = λ a n s. done (bytes_at s a n, s);
}

abbrev cached : TestchipTsi (ℕ → ℕ)
cached = record {
  host = λ x. 0;
  config = record { has_loadmem = false; cflush_addr = 0x2010200 };
  is_loadmem = false;
  htif = default_args;
}

chunk_order_example :
    (tsi_write_chunk ram 0x8000003e (1 ∷ 2 ∷ 3 ∷ 4 ∷ []) cached ≡ (do
      s ← flush_all ram 0x2010200 (0x80000000 ∷ 0x80000040 ∷ []) cached.host
      s' ← ram.write_chunk 0x8000003e (1 ∷ 2 ∷ 3 ∷ 4 ∷ []) s
      done (record cached { host = s' })))
    × (tsi_read_chunk ram 0x8000003e 2 [] cached ≡ (do
      s ← flush_all ram 0x2010200 (0x80000000 ∷ []) cached.host
      (bytes, s') ← ram.read_chunk 0x8000003e 2 s
      done (bytes, record cached { host = s' })))
chunk_order_example =
    chunk_order ram cached 0x8000003e (1 ∷ 2 ∷ 3 ∷ 4 ∷ []) [] 2 refl (omega arith) (omega arith)
      (omega arith)
