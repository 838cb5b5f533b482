-- ===== src/Cospike/Alike.antt =====
-- A hart as csrc/testchip_dtm.cc restores it, beside its core in the reference simulator as
-- csrc/cospike_impl.cc restores that.
use uart_tsi.Base.{ℕ, ◌≡◌, List, if◌then◌else◌, ◌==◌}
use uart_tsi.Dtm.Hart.{Hart, update}
use uart_tsi.Cospike.Core.{Core}

-- The part of the simulator's state that is compared: the general registers, the lower halves of the
-- floating-point registers, and the address.
pub record Regs : Type 0 where
  pub x : ℕ → ℕ
  pub f : ℕ → ℕ
  pub pc : ℕ

-- What the simulator documents of these: a register that is written has the value, `x0` apart, and
-- the other writes leave them.
pub record RegsLaws {S : Type 0} (core : Core S) : Type 0 where
  pub regs : S → Regs
  pub pc_read : (s : S) → core.pc s ≡ (regs s).pc
  pub pc_written : (a : ℕ) (s : S) → regs (core.write_pc a s) ≡ record (regs s) { pc = a }
  pub x_written :
      (n w : ℕ) (s : S)
      → regs (core.write_xpr n w s)
        ≡ record (regs s) { x = if n == 0 then (regs s).x else update (regs s).x n w }
  pub f_written :
      (n w : ℕ) (s : S)
      → regs (core.write_fpr n w s) ≡ record (regs s) { f = update (regs s).f n w }
  pub prv_written : (p : ℕ) (s : S) → regs (core.write_prv p s) ≡ regs s
  pub csr_written : (n w : ℕ) (s : S) → regs (core.write_csr n w s) ≡ regs s
  pub v_written : (a : ℕ) (bs : List ℕ) (s : S) → regs (core.write_vpr a bs s) ≡ regs s
  pub woken : (s : S) → regs (core.clear_waiting_for_interrupt s) ≡ regs s
