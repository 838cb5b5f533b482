-- ===== src/UartTsi/Loader/Memory.antt =====
-- A target whose memory keeps what is written: the assumption under which the self check passes.
use uart_tsi.Base.{ℕ, ◌+◌, ◌^◌, ◌<◌, ◌≡◌, List, length, done}
use uart_tsi.Base.Memory.{bytes_at, overlay}
use uart_tsi.Htif.{Bus}

-- A bus in front of a memory: an access inside the address space succeeds, a write is seen by
-- later reads, and a read changes nothing.
pub record IsMemory {S : Type 0} (bus : Bus S) : Type 0 where
  pub byte : S → ℕ → ℕ
  pub write_lem :
      (a : ℕ) (src : List ℕ) (s : S)
      → a + length src < 2 ^ 64
      → (s' : S) × (bus.write_chunk a src s ≡ done s')
        × ((x : ℕ) → byte s' x ≡ overlay a src (byte s) x)
  pub read_lem :
      (a n : ℕ) (s : S)
      → a + n < 2 ^ 64
      → (s' : S) × (bus.read_chunk a n s ≡ done (bytes_at (byte s) a n, s'))
        × ((x : ℕ) → byte s' x ≡ byte s x)
