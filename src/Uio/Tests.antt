-- ===== src/Uio/Tests.antt =====
-- The mapped device of the default sizes.
use uart_tsi.Base.{
  ℕ, ◌+◌, ◌≤◌, ◌≡◌, ◌↔◌, inl, refl, true, some, List, [], ◌∷◌, done, stop, threw, arith,
  if◌then◌else◌,
}
use uart_tsi.Base.Memory.{bytes_at, overlay}
use uart_tsi.Base.Text.{Text, codes, starts_with, strtoull}
use uart_tsi.Uio.{
  Uio, is_valid_address, read_chunk, write_chunk, clear_chunk, rocket_addr_to_uio_offset,
}
use uart_tsi.Uio.Args.{
  construct, parse_uio_args, parse_uio_arg, with_defaults, map_uio_device, map_opened,
}
use uart_tsi.Uio.Translate.{
  Window, Lies, is_valid_address_iff, rocket_addr_to_uio_offset-injective, clint_reach,
}
use uart_tsi.Uio.Access.{access_total, write_chunk-read_chunk}

abbrev board : Uio
board = record {
  mem = λ x. 0;
  uio_base = true;
  uio_size = 0x40000000;
  uio_fd = some 3;
  dram_size = 0x3fffc000;
}

is_valid_address_iff_example :
    (is_valid_address board 0x80000000 4 ≡ true) ↔ ((w : Window) × Lies board 0x80000000 4 w)
is_valid_address_iff_example = is_valid_address_iff board 0x80000000 4 (omega arith)

board_valid : is_valid_address board 0x1000 1 ≡ true
unfolding is_valid_address
board_valid = refl

dram_valid : is_valid_address board 0x80000010 2 ≡ true
unfolding is_valid_address
dram_valid = refl

injective_instance : ◌≡◌ {A = ℕ} 0x1000 0x1000
injective_instance =
    rocket_addr_to_uio_offset-injective board 0x1000 0x1000 (omega arith) (omega arith)
      (omega arith) board_valid board_valid refl

clint_reach_instance : (is_valid_address board 0x2004000 4 ≡ true) ↔ (0x2004000 + 4 ≤ 0x2002000)
clint_reach_instance =
    clint_reach board 0x2004000 4 refl (omega arith) (omega arith) (omega arith) (omega arith)

access_total_example :
    (read_chunk 0x2004000 2 board ≡ (
      if is_valid_address board 0x2004000 2
      then done (bytes_at board.mem (rocket_addr_to_uio_offset 0x2004000) 2)
      else stop threw))
    × (write_chunk 0x2004000 (8 ∷ 9 ∷ []) board ≡ (
        if is_valid_address board 0x2004000 2
        then done (record board {
          mem = overlay (rocket_addr_to_uio_offset 0x2004000) (8 ∷ 9 ∷ []) board.mem;
        })
        else stop threw))
    × (clear_chunk 0x2004000 2 board ≡ (
        if is_valid_address board 0x2004000 2
        then done (record board {
          mem = overlay (rocket_addr_to_uio_offset 0x2004000) (0 ∷ 0 ∷ []) board.mem;
        })
        else stop threw))
access_total_example = access_total board 0x2004000 2 (8 ∷ 9 ∷ []) refl (omega arith) refl

write_chunk-read_chunk_example :
    (u' : Uio) × (write_chunk 0x80000010 (8 ∷ 9 ∷ []) board ≡ done u')
    × (read_chunk 0x80000010 2 u' ≡ done (8 ∷ 9 ∷ []))
    × (read_chunk 0x1000 1 u' ≡ read_chunk 0x1000 1 board)
write_chunk-read_chunk_example =
    write_chunk-read_chunk board 0x80000010 0x1000 (8 ∷ 9 ∷ []) refl (omega arith) (omega arith)
      dram_valid (omega arith) board_valid (inl (omega arith))

abbrev args : List Text
args = codes "+uio=/dev/uio0" ∷ codes "+dram_size=0x1000" ∷ []

abbrev small : Uio
small = record board { dram_size = 0x1000 }

small_made : construct args (record { opened = some 3; mapping = some (λ x. 0) }) ≡ done small
unfolding construct parse_uio_args parse_uio_arg with_defaults map_uio_device map_opened starts_with
    strtoull
small_made = refl
