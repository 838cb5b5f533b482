-- ===== src/Uio.antt =====
-- uio_mmio_src/uio_htif.h and uio_mmio_src/uio_htif.cc: the target's memory through one mapped
-- device. The mapping is a function from offsets to bytes; what `open` and `mmap` do is an event.
pub mod Args
pub mod Translate
pub mod Access
mod Tests
use uart_tsi.Base.{
  ℕ, ◌+◌, ◌-◌, ◌^◌, Bool, true, false, ◌&&◌, not, Option, none, some, List, [], ◌∷◌, if◌then◌else◌,
  ltb, leb, add64, sub64, length, replicate, Run, done, stop, threw, undefined, ◌>>=◌,
}
use uart_tsi.Base.Memory.{bytes_at, overlay}

abbrev pub uio_dram_offset : ℕ
uio_dram_offset = 0

abbrev pub uio_bootrom_offset : ℕ
uio_bootrom_offset = 0x3fffc000

abbrev pub uio_clint_offset : ℕ
uio_clint_offset = 0x3fffe000

abbrev pub rocket_bootrom_base : ℕ
rocket_bootrom_base = 0x1000

abbrev pub rocket_clint_base : ℕ
rocket_clint_base = 0x2000000

abbrev pub rocket_dram_base : ℕ
rocket_dram_base = 0x80000000

-- `uio_htif_t`: `uio_base` is whether the device is mapped, and `mem` what the mapping holds.
pub record Uio : Type 0 where
  pub mem : ℕ → ℕ
  pub uio_base : Bool
  pub uio_size : ℕ
  pub uio_fd : Option ℕ
  pub dram_size : ℕ

abbrev pub in_bootrom : ℕ → Bool
in_bootrom a = leb rocket_bootrom_base a && ltb a (rocket_bootrom_base + 0x2000)

abbrev pub in_clint : ℕ → Bool
in_clint a = leb rocket_clint_base a && ltb a (rocket_clint_base + 0x10000)

unfoldable pub rocket_addr_to_uio_offset : ℕ → ℕ
rocket_addr_to_uio_offset a =
    if in_bootrom a
    then uio_bootrom_offset + (a - rocket_bootrom_base)
    else if in_clint a
    then uio_clint_offset + (a - rocket_clint_base)
    else if leb rocket_dram_base a
    then uio_dram_offset + (a - rocket_dram_base)
    else 0

-- The sums are of `size_t` and wrap.
unfoldable pub is_valid_address : Uio → ℕ → ℕ → Bool
unfolding rocket_addr_to_uio_offset
is_valid_address u a len =
    if ltb u.uio_size (add64 (rocket_addr_to_uio_offset a) len)
    then false
    else if in_bootrom a
    then leb (add64 a len) (rocket_bootrom_base + 0x2000)
    else if in_clint a
    then leb (add64 a len) (rocket_clint_base + 0x10000)
    else if leb rocket_dram_base a
    then leb (add64 (a - rocket_dram_base) len) u.dram_size
    else false

-- A copy that leaves the mapping, or is made when nothing is mapped, is undefined behaviour.
abbrev pub is_mapped : Uio → ℕ → ℕ → Bool
is_mapped u off len = u.uio_base && leb (off + len) u.uio_size

unfoldable pub read_chunk : ℕ → ℕ → Uio → Run (List ℕ)
read_chunk a len u =
    let off = rocket_addr_to_uio_offset a in
    if not (is_valid_address u a len)
    then stop threw
    else if is_mapped u off len
    then done (bytes_at u.mem off len)
    else stop undefined

-- `memcpy` and `memset` into the mapping
unfoldable pub copy_in : ℕ → List ℕ → Uio → Run Uio
copy_in off src u =
    if is_mapped u off (length src)
    then done (record u { mem = overlay off src u.mem })
    else stop undefined

unfoldable pub write_chunk : ℕ → List ℕ → Uio → Run Uio
unfolding copy_in
write_chunk a src u =
    if not (is_valid_address u a (length src))
    then stop threw
    else copy_in (rocket_addr_to_uio_offset a) src u

-- The check is of the length that the caller gives.
unfoldable pub clear_chunk : ℕ → ℕ → Uio → Run Uio
unfolding copy_in
clear_chunk a len u =
    if not (is_valid_address u a len)
    then stop threw
    else copy_in (rocket_addr_to_uio_offset a) (replicate len 0) u

-- A 32-bit one to the first register of the CLINT.
unfoldable pub reset : Uio → Run Uio
unfolding write_chunk
reset u = write_chunk rocket_clint_base (1 ∷ 0 ∷ 0 ∷ 0 ∷ []) u
