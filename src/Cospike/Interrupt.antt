-- ===== src/Cospike/Interrupt.antt =====
-- `cospike_cosim` of csrc/cospike_impl.cc up to the comparison: the target's interrupt is raised
-- in the simulator, which then takes a step.
use uart_tsi.Base.{ℕ, ◌%◌, ◌^◌, Bool, true, false, ◌||◌, if◌then◌else◌, ◌==◌}
use uart_tsi.Cospike.Core.{Core, Commit, mip_msip, mip_mtip, mip_seip, has_seip}

-- How the ladder of interrupts ends: the simulator goes on, with `unset_seip`, or `cospike_cosim`
-- returns a number.
pub data Ladder (S : Type 0) : Type 0 where
  goes_on : S → Bool → Ladder S
  returns : ℕ → Ladder S

module _ {S : Type 0} (core : Core S) where
  open core use {mip, write_mip, clear_waiting_for_interrupt, forget_reads, step}

  unfoldable pub interrupt : ℕ → S → Ladder S
  interrupt interrupt_cause s =
      if interrupt_cause == 0x1 || interrupt_cause == 0x5
      then goes_on s false
      else if interrupt_cause == 0x3
      then goes_on (write_mip mip_msip mip_msip s) false
      else if interrupt_cause == 0x7
      then goes_on (write_mip mip_mtip mip_mtip s) false
      else if interrupt_cause == 0xe
      then returns 0
      else if interrupt_cause == 0x9
      then (if has_seip (mip s)
          then goes_on s false
          else goes_on (write_mip mip_seip mip_seip s) true)
      else returns 2

  -- `cause & 0x7FFFFFFFFFFFFFFF`
  unfoldable pub raise : Commit → S → Ladder S
  unfolding interrupt
  raise i s = if i.raise_interrupt then interrupt (i.cause % 2 ^ 63) s else goes_on s false

  unfoldable pub advance : Commit → S → S
  advance i s =
      let s₁ = if i.valid then clear_waiting_for_interrupt s else s in
      if i.valid || i.raise_interrupt || i.raise_exception
      then step (forget_reads (clear_waiting_for_interrupt s₁))
      else s₁

  unfoldable pub lower : Bool → S → S
  lower unset_seip s = if unset_seip then write_mip mip_seip 0 s else s
