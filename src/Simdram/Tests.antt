-- ===== src/Simdram/Tests.antt =====
-- Two channels on one memory of 64 bytes, into which a file puts two bytes.
use uart_tsi.Base.{ℕ, ◌≡◌, refl, true, false, List, [], ◌∷◌, done}
use uart_tsi.Base.Text.{Text, codes, text_eq, starts_with}
use uart_tsi.Base.Memory.{overlay}
use uart_tsi.Simdram.{
  Backing, Memories, load_segments, load_segment, parse_memory_args, parse_memory_arg, backing_for,
  grow, chip_at, memory_init,
}
use uart_tsi.Simdram.Shared.{memory_init-again}

abbrev elf : Text → List (ℕ × List ℕ)
elf name = (0x80000010, 5 ∷ 6 ∷ []) ∷ []

abbrev none_yet : Memories
none_yet = record { use_dramsim = false; loadmem_file = []; backing = [] }

abbrev loaded : Backing
loaded = record { bytes = overlay 16 (5 ∷ 6 ∷ []) (λ x. 0); size = 64 }

abbrev one_memory : Memories
one_memory = record {
  use_dramsim = false;
  loadmem_file = codes "a";
  backing = ((0x80000000, loaded) ∷ []) ∷ [];
}

memory_init-elf :
    memory_init elf (codes "+loadmem=a" ∷ []) 0 64 0x80000000 none_yet ≡ done (loaded, one_memory)
unfolding memory_init parse_memory_args parse_memory_arg backing_for grow chip_at load_segments
    load_segment text_eq starts_with
memory_init-elf = refl

memory_init-again_instance :
    memory_init elf (codes "+dramsim" ∷ []) 0 64 0x80000000 one_memory
    ≡ done (loaded, record one_memory { use_dramsim = true })
unfolding parse_memory_args parse_memory_arg text_eq starts_with
memory_init-again_instance =
    memory_init-again elf (codes "+loadmem=a" ∷ []) (codes "+dramsim" ∷ []) 0 64 64 0x80000000
      none_yet memory_init-elf
