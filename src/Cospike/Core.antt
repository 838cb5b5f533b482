-- ===== src/Cospike/Core.antt =====
-- What csrc/cospike_impl.cc uses of the reference simulator, and its own state.
use uart_tsi.Base.{ℕ, ◌/◌, ◌%◌, ◌^◌, Bool, Option, List, not, ◌==◌}
use uart_tsi.Dtm.State.{LoadarchState}

-- An entry of `log_reg_write`: its key, and the low part of its value.
pub record RegWrite : Type 0 where
  pub key : ℕ
  pub value : ℕ

-- `processor_t` and its `state_t`, over the state `S` of the simulator. `write_mip` is
-- `mip->backdoor_write_with_mask`, a mask and then a value. `mem_reads` are addresses and
-- `mem_writes` addresses with data. `device_read` is whether any of the overriding devices was
-- read from, and `forget_reads` clears that. `write_vpr` copies bytes into the vector register
-- file.
pub record Core (S : Type 0) : Type 0 where
  pub pc : S → ℕ
  pub write_pc : ℕ → S → S
  pub write_prv : ℕ → S → S
  pub mip : S → ℕ
  pub write_mip : ℕ → ℕ → S → S
  pub write_xpr : ℕ → ℕ → S → S
  pub write_fpr : ℕ → ℕ → S → S
  pub read_csr : ℕ → S → ℕ
  pub write_csr : ℕ → ℕ → S → S
  pub vector_length : S → ℕ
  pub element_length : S → ℕ
  pub write_vpr : ℕ → List ℕ → S → S
  pub clear_waiting_for_interrupt : S → S
  pub forget_reads : S → S
  pub step : S → S
  pub device_read : S → Bool
  pub mem_reads : S → List ℕ
  pub mem_writes : S → List (ℕ × ℕ)
  pub reg_writes : S → List RegWrite

-- The parameters of `cospike_cosim` that are used.
pub record Commit : Type 0 where
  pub cycle : ℕ
  pub hartid : ℕ
  pub valid : Bool
  pub iaddr : ℕ
  pub insn : ℕ
  pub raise_exception : Bool
  pub raise_interrupt : Bool
  pub cause : ℕ
  pub wdata : ℕ
  pub priv : ℕ

-- `sim`, once it has been set up: `delete` leaves a pointer to nothing.
pub data Sim (S : Type 0) : Type 0 where
  live : S → Sim S
  deleted : Sim S

-- The variables of the file. `dtm` is the debug transport, if there is one: its `loadarch_done` and
-- `loadarch_state`.
pub record Globals (S : Type 0) : Type 0 where
  pub sim : Sim S
  pub cospike_enable : Bool
  pub cospike_timeout : ℕ
  pub tohost_addr : ℕ
  pub fromhost_addr : ℕ
  pub mem0_base : ℕ
  pub mem0_size : ℕ
  pub magic_addrs : List ℕ
  pub dtm : Option (Bool × List LoadarchState)
  pub spike_loadarch_done : Bool

abbrev pub mip_msip : ℕ
mip_msip = 0x8

abbrev pub mip_mtip : ℕ
mip_mtip = 0x80

abbrev pub mip_seip : ℕ
mip_seip = 0x200

-- `mip & MIP_SEIP`
abbrev pub has_seip : ℕ → Bool
has_seip mip = not (mip / 2 ^ 9 % 2 == 0)
