-- ===== src/UartTsi/Loader/Tests.antt =====
-- A memory behind the bus, and a program of two chunks loaded into it.
use uart_tsi.Base.{ℕ, ◌≡◌, ◌⊎◌, refl, true, false, [], ◌∷◌, All, arith, done, stop, exited}
use uart_tsi.Base.Memory.{bytes_at, overlay}
use uart_tsi.Htif.{Bus, default_args}
use uart_tsi.Tsi.{tsi_write_chunk, flush_cache_lines}
use uart_tsi.UartTsi.Loader.{
  Chunk, Loader, conflict, any_conflict, insert, record_chunk, write_chunk,
}
use uart_tsi.UartTsi.Loader.Layout.{IsLayout, IsApart, write_chunk-IsLayout, record_chunk-conflict}
use uart_tsi.UartTsi.Loader.Memory.{IsMemory}

abbrev ram : Bus (ℕ → ℕ)
ram = record {
  write_chunk = λ a src s. done (overlay a src s);
  read_chunk = λ a n s. done (bytes_at s a n, s);
}

abbrev ram_IsMemory : IsMemory ram
ram_IsMemory = record {
  byte = λ s. s;
  write_lem = λ a src s h. (overlay a src s, refl, λ x. refl);
  read_lem = λ a n s h. (s, refl, λ x. refl);
}

abbrev text_chunk : Chunk
text_chunk = record { addr = 0x80000000; bytes = 1 ∷ 2 ∷ 3 ∷ 4 ∷ [] }

abbrev data_chunk : Chunk
data_chunk = record { addr = 0x80001000; bytes = 5 ∷ 6 ∷ [] }

abbrev empty_loader : Loader (ℕ → ℕ)
empty_loader = record {
  tsi = record {
    host = λ x. 0;
    config = record { has_loadmem = false; cflush_addr = 0 };
    is_loadmem = false;
    htif = default_args;
  };
  in_load_program = false;
  do_self_check = true;
  loaded_program = [];
}

abbrev loading : Loader (ℕ → ℕ)
loading = record empty_loader { in_load_program = true; loaded_program = text_chunk ∷ [] }

abbrev loaded : Loader (ℕ → ℕ)
loaded = record loading {
  tsi = record (loading.tsi) { host = overlay 0x80001000 (5 ∷ 6 ∷ []) (λ x. 0) };
  loaded_program = text_chunk ∷ data_chunk ∷ [];
}

wrote : write_chunk ram 0x80001000 (5 ∷ 6 ∷ []) loading ≡ done loaded
unfolding write_chunk insert any_conflict tsi_write_chunk flush_cache_lines conflict
wrote = refl

write_chunk-IsLayout_example : IsLayout (text_chunk ∷ data_chunk ∷ [])
write_chunk-IsLayout_example =
    write_chunk-IsLayout ram data_chunk.addr data_chunk.bytes loading (omega arith) (omega arith)
      (omega arith) wrote

record_chunk-conflict_example :
    (All (IsApart data_chunk) loading.loaded_program
      × (record_chunk ram data_chunk.addr data_chunk.bytes loading
          ≡ done (record loading { loaded_program = insert data_chunk loading.loaded_program })))
    ⊎ ((¬ All (IsApart data_chunk) loading.loaded_program)
        × (record_chunk ram data_chunk.addr data_chunk.bytes loading ≡ stop (exited 1)))
record_chunk-conflict_example =
    record_chunk-conflict ram data_chunk loading (omega arith) (omega arith)
