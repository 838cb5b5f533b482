-- ===== src/Simdram.antt =====
-- csrc/SimDRAM.cc: the memories of the simulation, and what they show of themselves.
pub mod Shared
pub mod Channel
pub mod Delivery
pub mod MagicReads
pub mod DramReads
mod ChannelTests
mod Tests
use uart_tsi.Base.{
  ℕ, zero, suc, ◌+◌, ◌-◌, ◌*◌, ◌^◌, Bool, true, false, ◌&&◌, Option, none, some, List, [], ◌∷◌,
  ◌++◌, if◌then◌else◌, ltb, leb, ◌==◌, length, get_elem?, set, drop, replicate, is_empty, sub64,
  Run, done, stop, aborted, undefined, check, ◌>>=◌, ◌>>◌,
}
use uart_tsi.Base.Text.{Text, codes, text_eq, starts_with}
use uart_tsi.Base.Memory.{overlay}

-- `backing_data_t`
pub record Backing : Type 0 where
  pub bytes : ℕ → ℕ
  pub size : ℕ

-- What is shared is the memory; the objects are made before the first tick, so `bytes` is what it holds
-- at first. The variables of the file: `backing` has a map from bases to memories for each chip.
pub record Memories : Type 0 where
  pub use_dramsim : Bool
  pub loadmem_file : Text
  pub backing : List (List (ℕ × Backing))

-- `ini_dir` only goes to the timing simulator's library.
unfoldable pub parse_memory_arg : Text → Memories → Memories
unfolding text_eq starts_with
parse_memory_arg arg m = record m {
  use_dramsim = if text_eq (codes "+dramsim") arg then true else m.use_dramsim;
  loadmem_file = if starts_with (codes "+loadmem=") arg then drop 9 arg else m.loadmem_file;
}

unfoldable pub parse_memory_args : List Text → Memories → Memories
unfolding parse_memory_arg
parse_memory_args [] m = m
parse_memory_args (arg ∷ args) m = parse_memory_args args (parse_memory_arg arg m)

-- `while (chip_id >= backing_mem_data.size())`
unfoldable pub grow : ℕ → List (List (ℕ × Backing)) → List (List (ℕ × Backing))
grow chip_id backing = backing ++ replicate (chip_id + 1 - length backing) []

abbrev pub find_backing : ℕ → List (ℕ × Backing) → Option Backing
find_backing base [] = none
find_backing base ((b, d) ∷ m) = if b == base then some d else find_backing base m

-- `loadmem_memif_t::write`: nothing keeps it in the memory.
unfoldable pub load_segment : ℕ → ℕ → ℕ → List ℕ → (ℕ → ℕ) → Run (ℕ → ℕ)
load_segment start size taddr src bytes =
    if leb (sub64 taddr start + length src) size
    then done (overlay (sub64 taddr start) src bytes)
    else stop undefined

-- `segments` are the writes that the library's ELF loader makes.
unfoldable pub load_segments : ℕ → ℕ → List (ℕ × List ℕ) → (ℕ → ℕ) → Run (ℕ → ℕ)
unfolding load_segment
load_segments start size [] bytes = done bytes
load_segments start size ((taddr, src) ∷ segments) bytes = do
  bytes' ← load_segment start size taddr src bytes
  load_segments start size segments bytes'

-- The memory at `base`, and the chip's map with it. New memory is zero.
unfoldable pub backing_for :
    (Text → List (ℕ × List ℕ))
    → Text
    → ℕ
    → ℕ
    → List (ℕ × Backing)
    → Option Backing
    → Run (Backing × List (ℕ × Backing))
unfolding load_segments
backing_for elf file base size chip (some b) = do check (b.size == size) aborted; done (b, chip)
backing_for elf file base size chip none = do
  let segments = (if is_empty file then [] else elf file)
  bytes ← load_segments base size segments (λ x. 0)
  done (
    record { bytes = bytes; size = size },
    chip ++ (base, record { bytes = bytes; size = size }) ∷ [],
  )

unfoldable pub chip_at : ℕ → List (List (ℕ × Backing)) → List (ℕ × Backing)
chip_at chip_id backing = elim (get_elem? backing chip_id) [ none ↦ [] | some m ↦ m ]

-- The result is what the new object is made on; it is an `mm_dramsim2_t` where `use_dramsim` is
-- set then, and an `mm_magic_t` otherwise.
unfoldable pub memory_init :
    (Text → List (ℕ × List ℕ)) → List Text → ℕ → ℕ → ℕ → Memories → Run (Backing × Memories)
unfolding parse_memory_args grow chip_at backing_for
memory_init elf args chip_id size base m = do
  let m' = parse_memory_args args m
  let backing = grow chip_id m'.backing
  let chip = chip_at chip_id backing
  (b, chip') ← backing_for elf m'.loadmem_file base size chip (find_backing base chip)
  done (b, record m' { backing = set backing chip_id chip' })
