-- ===== src/Cospike/Writes.antt =====
-- The comparison of csrc/cospike_impl.cc: what a step of the simulator has written to memory and
-- to registers.
use uart_tsi.Base.{
  ℕ, ◌+◌, ◌-◌, ◌*◌, ◌/◌, ◌%◌, ◌^◌, Bool, false, ◌&&◌, ◌||◌, not, List, [], ◌∷◌, if◌then◌else◌, ltb,
  leb, ◌==◌, add64, is_empty,
}
use uart_tsi.Cospike.Core.{Core, Commit, Globals, RegWrite, mip_msip, mip_mtip}

abbrev pub contains : ℕ → List ℕ → Bool
contains a [] = false
contains a (b ∷ bs) = a == b || contains a bs

-- `(insn & MASK_LR_D) == MATCH_LR_D` or the same of a word, by the fields of the instruction:
-- opcode, width, `rs2` and operation.
abbrev pub is_lr : ℕ → Bool
is_lr insn =
    insn % 128 == 0x2f
    && (insn / 2 ^ 12 % 8 == 3 || insn / 2 ^ 12 % 8 == 2)
    && insn / 2 ^ 20 % 32 == 0
    && insn / 2 ^ 27 % 32 == 2

abbrev pub is_sc : ℕ → Bool
is_sc insn =
    insn % 128 == 0x2f
    && (insn / 2 ^ 12 % 8 == 3 || insn / 2 ^ 12 % 8 == 2)
    && insn / 2 ^ 27 % 32 == 3

abbrev pub csr_read : ℕ → Bool
csr_read insn = insn % 128 == 0x73

abbrev pub csr_addr : ℕ → ℕ
csr_addr insn = insn / 2 ^ 20 % 4096

-- CSRs that a target may implement in its own way.
unfoldable pub is_own : ℕ → Bool
is_own a =
    a == 0x301
    || a == 0x306
    || a == 0x320
    || a == 0xf13
    || a == 0xf12
    || a == 0xf11
    || a == 0xb00
    || a == 0xb02
    || a == 0xc00
    || a == 0xc01
    || a == 0xc02
    || (leb 0xb03 a && leb a 0xb1f)
    || (leb 0x323 a && leb a 0x33f)
    || (leb 0x7a0 a && leb a 0x7aa)
    || (leb 0x3b0 a && leb a 0x3ef)

unfoldable pub is_status : ℕ → Bool
is_status a = a == 0x100 || a == 0x200 || a == 0x300 || a == 0x600

unfoldable pub is_tval : ℕ → Bool
is_tval a = a == 0x343 || a == 0x143 || a == 0x243 || a == 0x643

-- `w & (MSTATUS64_SD | MSTATUS_XS | MSTATUS_FS | MSTATUS_VS)` of 64 bits, and what is left.
abbrev pub ignored_bits : ℕ → ℕ
ignored_bits w = w / 2 ^ 9 % 4 * 2 ^ 9 + w / 2 ^ 13 % 16 * 2 ^ 13 + w / 2 ^ 63 % 2 * 2 ^ 63

abbrev pub checked_bits : ℕ → ℕ
checked_bits w = w - ignored_bits w

-- What a loop over register writes comes to: its end, or `return 1`.
pub data Verdict (S : Type 0) : Type 0 where
  passes : S → Verdict S
  fails : S → Verdict S

abbrev pub and_then : {S : Type 0} → Verdict S → (S → Verdict S) → Verdict S
and_then (passes s) k = k s
and_then (fails s) k = fails s

-- `int rd = regwrite.first >> 4` and `int type = regwrite.first & 0xf`
abbrev pub rd_of : RegWrite → ℕ
rd_of r = r.key / 16

abbrev pub type_of : RegWrite → ℕ
type_of r = r.key % 16

-- An integer register other than `x0`, or a floating-point register
abbrev pub is_scalar : RegWrite → Bool
is_scalar r = (not (rd_of r == 0) && type_of r == 0) || type_of r == 1

module _ {S : Type 0} (core : Core S) where
  open core use {write_mip, write_xpr, read_csr, write_csr, device_read, mem_reads}

  -- The first address that the step read, or zero.
  abbrev pub first_read : List ℕ → ℕ
  first_read [] = 0
  first_read (a ∷ addrs) = a

  unfoldable pub ignore_read : Globals S → Commit → S → Bool
  ignore_read g i s =
      let a : ℕ = first_read (mem_reads s) in
      is_sc i.insn
      || (not (is_empty (mem_reads s))
          && (contains a g.magic_addrs
              || device_read s
              || is_lr i.insn
              || (not (g.tohost_addr == 0) && a == g.tohost_addr)
              || (not (g.fromhost_addr == 0) && a == g.fromhost_addr)))

  -- The target's settings of the extensions' state are taken over.
  unfoldable pub check_status : ℕ → ℕ → RegWrite → S → Verdict S
  check_status a wdata r s =
      let s₁ = write_xpr (rd_of r) wdata s in
      let s₂ = write_csr a (checked_bits (read_csr a s₁) + ignored_bits wdata) s₁ in
      if checked_bits wdata == checked_bits r.value then passes s₂ else fails s₂

  unfoldable pub check_scalar : Globals S → Commit → RegWrite → S → Verdict S
  unfolding is_own is_status is_tval ignore_read check_status
  check_scalar g i r s =
      let a : ℕ = csr_addr i.insn in
      if csr_read i.insn && is_own a
      then passes (write_xpr (rd_of r) i.wdata s)
      else if csr_read i.insn && is_status a
      then check_status a i.wdata r s
      else if csr_read i.insn && is_tval a
      then passes (write_xpr (rd_of r) i.wdata s)
      else if ignore_read g i s
      then passes (write_xpr (rd_of r) i.wdata s)
      else if i.wdata == r.value
      then passes s
      else fails s

  unfoldable pub check_write : Globals S → Commit → RegWrite → S → Verdict S
  unfolding check_scalar
  check_write g i r s = if is_scalar r then check_scalar g i r s else passes s

  unfoldable pub check_writes : Globals S → Commit → List RegWrite → S → Verdict S
  unfolding check_write
  check_writes g i [] s = passes s
  check_writes g i (r ∷ rs) s = and_then (check_write g i r s) (check_writes g i rs)

  -- Stores to the interrupt controller lower the pending bits.
  unfoldable pub lower_msip : ℕ → ℕ → ℕ → S → S
  lower_msip hartid waddr w s =
      if waddr == add64 0x2000000 (4 * hartid) && w == 0 then write_mip mip_msip 0 s else s

  unfoldable pub lower_mtip : ℕ → ℕ → S → S
  lower_mtip hartid waddr s =
      if waddr == add64 0x2004000 (4 * hartid) then write_mip mip_mtip 0 s else s

  -- A store of an address of the first memory to `tohost` is taken for a request.
  unfoldable pub note_magic : ℕ → ℕ → Globals S → Globals S
  note_magic waddr w g =
      if waddr == g.tohost_addr && leb g.mem0_base w && ltb w (add64 g.mem0_base g.mem0_size)
      then record g { magic_addrs = w ∷ g.magic_addrs }
      else g

  unfoldable pub see_stores : ℕ → List (ℕ × ℕ) → S → Globals S → S × Globals S
  unfolding lower_msip lower_mtip note_magic
  see_stores hartid [] s g = (s, g)
  see_stores hartid ((waddr, w) ∷ ws) s g =
      see_stores hartid ws (lower_mtip hartid waddr (lower_msip hartid waddr w s))
        (note_magic waddr w g)
