-- ===== src/Cospike/Loadarch.antt =====
-- The part of `cospike_cosim` in csrc/cospike_impl.cc that gives the simulator the state which
-- the debug transport has put into the target.
use uart_tsi.Base.{
  ℕ, ◌+◌, ◌*◌, ◌/◌, ◌%◌, ◌^◌, Bool, true, ◌&&◌, not, Option, none, some, List, [], ◌∷◌,
  if◌then◌else◌, ◌==◌, get_elem?, take, Run, done, stop, aborted, undefined, check, ◌>>=◌, ◌>>◌,
}
use uart_tsi.Dtm.State.{LoadarchState}
use uart_tsi.Cospike.Core.{Core}

-- `mstatus | MSTATUS_VS | MSTATUS_XS | MSTATUS_FS`: the bits 9, 10 and 13 to 16 are set.
abbrev pub all_on_too : ℕ → ℕ
all_on_too w = w % 2 ^ 9 + 3 * 2 ^ 9 + w / 2 ^ 11 % 4 * 2 ^ 11 + 15 * 2 ^ 13 + w / 2 ^ 17 * 2 ^ 17

module _ {S : Type 0} (core : Core S) where
  open core use {
    write_pc, write_prv, read_csr, write_csr, write_xpr, write_fpr, write_vpr, vector_length,
    element_length, clear_waiting_for_interrupt,
  }

  -- `RESTORE`, one after the other
  abbrev pub restores : List (ℕ × ℕ) → S → S
  restores [] s = s
  restores ((n, w) ∷ rs) s = restores rs (write_csr n w s)

  abbrev pub csrs_of : LoadarchState → List (ℕ × ℕ)
  csrs_of ls =
      (0x105, ls.stvec)
      ∷ (0x140, ls.sscratch)
      ∷ (0x141, ls.sepc)
      ∷ (0x142, ls.scause)
      ∷ (0x143, ls.stval)
      ∷ (0x180, ls.satp)
      ∷ (0x300, ls.mstatus)
      ∷ (0x302, ls.medeleg)
      ∷ (0x303, ls.mideleg)
      ∷ (0x304, ls.mie)
      ∷ (0x305, ls.mtvec)
      ∷ (0x340, ls.mscratch)
      ∷ (0x341, ls.mepc)
      ∷ (0x342, ls.mcause)
      ∷ (0x343, ls.mtval)
      ∷ (0x344, ls.mip)
      ∷ (0xb00, ls.mcycle)
      ∷ (0xb02, ls.minstret)
      ∷ (0x003, ls.fcsr)
      ∷ []

  abbrev pub vector_csrs_of : LoadarchState → List (ℕ × ℕ)
  vector_csrs_of ls =
      (0x008, ls.vstart)
      ∷ (0x009, ls.vxsat)
      ∷ (0x00a, ls.vxrm)
      ∷ (0x00f, ls.vcsr)
      ∷ (0xc21, ls.vtype)
      ∷ []

  -- The loop over the registers, from register `i` on.
  unfoldable pub restore_registers : ℕ → List ℕ → List ℕ → S → S
  restore_registers i (x ∷ xs) (f ∷ fs) s =
      restore_registers (i + 1) xs fs (write_fpr i f (write_xpr i x s))
  restore_registers i _ _ s = s

  unfoldable pub restore_vectors : ℕ → ℕ → List (List ℕ) → S → S
  restore_vectors vlen i [] s = s
  restore_vectors vlen i (bs ∷ bss) s =
      restore_vectors vlen (i + 1) bss (write_vpr (i * vlen / 8) (take (vlen / 8) bs) s)

  unfoldable pub restore_core : LoadarchState → S → Run S
  unfolding restore_registers restore_vectors
  restore_core ls s =
      let s₁ = write_prv ls.prv (write_pc ls.pc s) in
      let s₂ = write_csr 0x300 (all_on_too (read_csr 0x300 s₁)) s₁ in
      let s₃ = restore_registers 0 ls.xpr ls.fpr (restores (csrs_of ls) s₂) in
      let vectors = restore_vectors ls.vlen 0 ls.vpr (restores (vector_csrs_of ls) s₃) in
      do
        check (ls.vlen == vector_length s₃) aborted
        check (ls.elen == element_length s₃) aborted
        let s₄ = (if not (ls.vlen == 0) && not (ls.elen == 0) then vectors else s₃)
        done (clear_waiting_for_interrupt s₄)

  unfoldable pub restore_hart : Option LoadarchState → S → Run S
  unfolding restore_core
  restore_hart none s = stop undefined
  restore_hart (some ls) s = restore_core ls s

  -- The result says whether `spike_loadarch_done` is set now.
  unfoldable pub restore_loadarch :
      ℕ → Option (Bool × List LoadarchState) → Bool → S → Run (Bool × S)
  unfolding restore_hart
  restore_loadarch hartid none spike_done s = done (spike_done, s)
  restore_loadarch hartid (some (loadarch_done, states)) spike_done s =
      let restored = (do s' ← restore_hart (get_elem? states hartid) s; done (true, s')) in
      if loadarch_done && not spike_done then restored else done (spike_done, s)
