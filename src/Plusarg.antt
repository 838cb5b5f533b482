-- ===== src/Plusarg.antt =====
-- csrc/plusarg_file_mem.h and csrc/plusarg_file_mem.cc: a memory that is a mapped file.
mod Tests
use uart_tsi.Base.{
  ℕ, zero, suc, ◌+◌, ◌*◌, ◌/◌, ◌%◌, ◌^◌, ◌≤◌, ◌<◌, ◌≡◌, refl, ap, sym, ◌∙◌, Bool, true, false, ◌&&◌,
  Option, none, some, List, [], ◌∷◌, if◌then◌else◌, ltb, leb, length, le_bytes, arith, Run, done,
  stop, aborted, undefined, ◌>>=◌,
}
use uart_tsi.Base.Memory.{bytes_at, overlay, bytes_at-overlay}
use native.Mathlib.Nat.{pow-suc}

-- A mapping goes to the end of its last page, and past the file's end it holds zeros.
abbrev pub page_size : ℕ
page_size = 4096

abbrev pub whole_pages : ℕ → ℕ
whole_pages n = (n + 4095) / page_size * page_size

-- `mapped` is how far the mapping of `_memblk` goes, and `mem` what it holds.
pub record FileMem : Type 0 where
  pub capacity_bytes : ℕ
  pub filesize : ℕ
  pub data_bytes : ℕ
  pub writeable : Bool
  pub mapped : ℕ
  pub mem : ℕ → ℕ

-- What `mmap` gives: none where it fails.
unfoldable pub mapped_file : Option (ℕ → ℕ) → ℕ → Bool → ℕ → ℕ → Run FileMem
mapped_file none filesize writeable capacity data_bytes = stop aborted
mapped_file (some mem) filesize writeable capacity data_bytes = done (record {
  capacity_bytes = capacity;
  filesize = filesize;
  data_bytes = data_bytes;
  writeable = writeable;
  mapped = whole_pages ((if ltb filesize capacity then filesize else capacity) % 2 ^ 32);
  mem = mem;
})

unfoldable pub construct : Option (ℕ → ℕ) → ℕ → Bool → ℕ → ℕ → Run FileMem
unfolding mapped_file
construct mapping filesize writeable capacity data_bytes =
    if writeable && ltb filesize capacity
    then stop aborted
    else mapped_file mapping filesize writeable capacity data_bytes

-- `1 << addr_bits` is an `int`.
unfoldable pub plusarg_file_mem_init : Option (ℕ → ℕ) → ℕ → Bool → ℕ → ℕ → Run FileMem
unfolding construct
plusarg_file_mem_init mapping filesize writeable addr_bits data_bytes =
    if ltb 30 addr_bits
    then stop undefined
    else construct mapping filesize writeable (2 ^ addr_bits) (data_bytes % 256)

-- The number that the bytes in memory are.
unfoldable pub le_value : List ℕ → ℕ
le_value [] = 0
le_value (b ∷ bs) = b + 256 * le_value bs

-- A copy that leaves the mapping or the eight bytes of the number is undefined behaviour.
abbrev pub can_copy : FileMem → ℕ → Bool
can_copy m address = leb (address + m.data_bytes) m.mapped && leb m.data_bytes 8

unfoldable pub do_read : ℕ → FileMem → Run ℕ
unfolding le_value
do_read address m =
    if leb m.filesize address
    then done 0
    else if can_copy m address
    then done (le_value (bytes_at m.mem address m.data_bytes))
    else stop undefined

unfoldable pub do_write : ℕ → ℕ → FileMem → Run FileMem
do_write address v m =
    let copy =
      (if can_copy m address
        then done (record m { mem = overlay address (le_bytes m.data_bytes v) m.mem })
        else stop undefined) in
    if m.writeable && ltb address m.capacity_bytes then copy else done m

length-le_bytes : (n v : ℕ) → length (le_bytes n v) ≡ n
length-le_bytes zero v = refl
length-le_bytes (suc n) v = ap suc (length-le_bytes n (v / 256))

le_value-le_bytes : (n v : ℕ) → v < 256 ^ n → le_value (le_bytes n v) ≡ v
unfolding le_value
le_value-le_bytes zero v h = omega arith
le_value-le_bytes (suc n) v h =
    omega (arith, le_value-le_bytes n (v / 256) (omega (arith, pow-suc 256 n)))

-- On a writeable memory with words of at least a byte and at most eight, a write of a number that
-- fits a word to a word that lies in the mapping, in the file and in the capacity returns, and a
-- read of the same address then gives the number.
pub do_write-do_read :
    (address v : ℕ) (m : FileMem)
    → m.writeable ≡ true
    → 0 < m.data_bytes
    → m.data_bytes ≤ 8
    → v < 256 ^ m.data_bytes
    → address + m.data_bytes ≤ m.mapped
    → address < m.filesize
    → address < m.capacity_bytes
    → (m' : FileMem) × (do_write address v m ≡ done m') × (do_read address m' ≡ done v)
unfolding do_write do_read
do_write-do_read address v m on pos small fits room in_file in_cap =
    let within : leb (address + m.data_bytes) m.mapped ≡ true = ground arith in
    let eight : leb m.data_bytes 8 ≡ true = ground arith in
    let below : ltb address m.capacity_bytes ≡ true = ground arith in
    let inside : leb m.filesize address ≡ false = ground arith in
    let back : bytes_at (overlay address (le_bytes m.data_bytes v) m.mem) address m.data_bytes
        ≡ le_bytes m.data_bytes v =
      ap (λ (n : ℕ). bytes_at (overlay address (le_bytes m.data_bytes v) m.mem) address n)
        (sym (length-le_bytes m.data_bytes v))
      ∙ bytes_at-overlay (le_bytes m.data_bytes v) address m.mem in
    (
      record m { mem = overlay address (le_bytes m.data_bytes v) m.mem },
      rw (on, below, within, eight) refl,
      rw (inside, within, eight)
          (ap done (ap le_value back ∙ le_value-le_bytes m.data_bytes v fits)),
    )

-- Of a file of whole pages that is smaller than the capacity of its read-only memory, and than
-- 2^32 bytes: a word that begins in the file and ends past its end is read past the mapping,
-- which is undefined behaviour, where words that begin at the end read as zero.
pub do_read_end :
    (mem : ℕ → ℕ) (filesize capacity data_bytes address : ℕ) {m : FileMem}
    → filesize < capacity
    → filesize < 2 ^ 32
    → filesize % 4096 ≡ 0
    → address < filesize
    → filesize < address + data_bytes
    → construct (some mem) filesize false capacity data_bytes ≡ done m
    → (do_read address m ≡ stop undefined) × (do_read filesize m ≡ done 0)
unfolding construct do_read
do_read_end mem filesize capacity data_bytes address {m} short small pages lo hi made = ground arith
