-- ===== src/UartTsi/Loader/SelfCheck.antt =====
-- On a target whose memory keeps what is written, loading succeeds and the self check passes.
use uart_tsi.Base.{ℕ, ◌+◌, ◌^◌, ◌≤◌, ◌<◌, ◌≡◌, true, false, List, [], ◌∷◌, length, All}
use uart_tsi.Base.Memory.{bytes_at}
use uart_tsi.UartTsi.Loader.Memory.{IsMemory}
use uart_tsi.Htif.{Bus}
use uart_tsi.Tsi.{TestchipTsi}
use uart_tsi.UartTsi.Loader.{Chunk, Loader, insert}
use uart_tsi.UartTsi.Loader.Layout.{IsExtent, IsLayout, IsApart}

abbrev pub IsPairwiseApart : List Chunk → Type 0
IsPairwiseApart [] = Unit
IsPairwiseApart (c ∷ cs) = All (IsApart c) cs × IsPairwiseApart cs

-- The memory holds the chunk.
abbrev pub IsStored : (ℕ → ℕ) → Chunk → Type 0
IsStored mem c = bytes_at mem c.addr (length c.bytes) ≡ c.bytes

-- Memory is written through the bus, and no cache is flushed.
abbrev pub IsPlain : {S : Type 0} → TestchipTsi S → Type 0
IsPlain t = (t.is_loadmem ≡ false) × (t.config.cflush_addr ≡ 0)

All-map {κ} :
    (P Q : Chunk → Type κ) (cs : List Chunk) → ((c : Chunk) → P c → Q c) → All P cs → All Q cs
All-map P Q [] f h = tt
All-map P Q (c ∷ cs) f h = (f c h.0, All-map P Q cs f h.1)

module _ {S : Type 0} (bus : Bus S) (m : IsMemory bus) where
  open m use {byte, write_lem, read_lem}

  -- What the self check needs of the chunks, the object and its memory.
  abbrev pub IsChecked : ℕ → List Chunk → TestchipTsi S → Type 0
  IsChecked max cs t =
      IsPlain t
      × All (λ c. IsStored (byte t.host) c) cs
      × All (λ c. (c.addr + length c.bytes < 2 ^ 64) × (length c.bytes ≤ max)) cs

  -- What holds while the chunks `cs` are still to be written.
  record IsLoading (max : ℕ) (cs : List Chunk) (o : Loader S) : Type 0 where
    on : o.in_load_program ≡ true
    checked : IsChecked max o.loaded_program o.tsi
    layout : IsLayout o.loaded_program
    extents : All (λ c. IsExtent c × (length c.bytes ≤ max)) cs
    free : All (λ c. All (IsApart c) o.loaded_program) cs
    apart : IsPairwiseApart cs

  -- The chunks that are recorded when `cs` are written onto `loaded`.
  abbrev pub recorded : List Chunk → List Chunk → List Chunk
  recorded [] loaded = loaded
  recorded (c ∷ cs) loaded = recorded cs (insert c loaded)
