-- ===== src/Dtm/Restore.antt =====
-- The order in which `testchip_dtm_t::reset` of csrc/testchip_dtm.cc restores a halted hart.
use uart_tsi.Base.{
  ℕ, ◌+◌, ◌%◌, ◌^◌, ◌&&◌, List, [], ◌∷◌, ◌++◌, if◌then◌else◌, ◌==◌, bytes_word, Run, done, stop,
  aborted, ◌>>=◌,
}
use uart_tsi.Dtm.Encoding.{
  Command, restore_reg, restore_freg, restore_vreg, restore_vtype, restore_csr,
}
use uart_tsi.Dtm.State.{LoadarchState, fs_on, vs_on, all_on}

-- A call of one of the five `loadarch_restore_` functions.
pub data Restore : Type 0 where
  reg : ℕ → ℕ → Restore
  freg : ℕ → ℕ → Restore
  vreg : ℕ → List ℕ → Restore
  vtype : ℕ → Restore
  csr : ℕ → ℕ → Restore

-- The command that the call runs.
abbrev pub command_of : ℕ → Restore → Command
command_of base (reg n w) = restore_reg n w
command_of base (freg n w) = restore_freg base n w
command_of base (vreg n ws) = restore_vreg base n ws
command_of base (vtype w) = restore_vtype w
command_of base (csr n w) = restore_csr base n w

-- `memcpy` of each four bytes into a word
abbrev pub reg_words : List ℕ → List ℕ
reg_words (a ∷ b ∷ c ∷ d ∷ bs) = bytes_word a b c d ∷ reg_words bs
reg_words _ = []

-- The loops over the register files, from register `i` on.
abbrev pub regs_from : ℕ → List ℕ → List Restore
regs_from i [] = []
regs_from i (w ∷ ws) = reg i w ∷ regs_from (i + 1) ws

abbrev pub fregs_from : ℕ → List ℕ → List Restore
fregs_from i [] = []
fregs_from i (w ∷ ws) = freg i w ∷ fregs_from (i + 1) ws

abbrev pub vregs_from : ℕ → List (List ℕ) → List Restore
vregs_from i [] = []
vregs_from i (bs ∷ bss) = vreg i (reg_words bs) ∷ vregs_from (i + 1) bss

-- `if (state.mstatus & MSTATUS_FS)`
abbrev pub float_calls : LoadarchState → List Restore
float_calls st = if fs_on st then fregs_from 0 st.fpr ++ csr 0x003 st.fcsr ∷ [] else []

-- `if (has_vector && state.mstatus & MSTATUS_VS)`. The vtype is a `uint32_t` parameter.
abbrev pub vector_calls : LoadarchState → List Restore
vector_calls st =
    if st.has_vector && vs_on st
    then vregs_from 0 st.vpr
      ++ csr 0x008 st.vstart
        ∷ csr 0x009 st.vxsat
        ∷ csr 0x00a st.vxrm
        ∷ csr 0x00f st.vcsr
        ∷ vtype (st.vtype % 2 ^ 32)
        ∷ []
    else []

abbrev pub csr_calls : LoadarchState → List Restore
csr_calls st =
    csr 0x105 st.stvec
    ∷ csr 0x140 st.sscratch
    ∷ csr 0x141 st.sepc
    ∷ csr 0x143 st.stval
    ∷ csr 0x180 st.satp
    ∷ csr 0x300 st.mstatus
    ∷ csr 0x302 st.medeleg
    ∷ csr 0x303 st.mideleg
    ∷ csr 0x304 st.mie
    ∷ csr 0x305 st.mtvec
    ∷ csr 0x340 st.mscratch
    ∷ csr 0x341 st.mepc
    ∷ csr 0x342 st.mcause
    ∷ csr 0x343 st.mtval
    ∷ csr 0x344 st.mip
    ∷ csr 0xb00 st.mcycle
    ∷ csr 0xb02 st.minstret
    ∷ csr 0x7b0 st.prv
    ∷ csr 0x7b1 st.pc
    ∷ []

unfoldable pub restore_calls : LoadarchState → List Restore
restore_calls st =
    csr 0x300 all_on ∷ (float_calls st ++ (vector_calls st ++ (csr_calls st ++ regs_from 0 st.xpr)))

module _ {S : Type 0} (run_abstract_command : Command → S → ℕ × S) (base : ℕ) where
  -- `AC_RUN_OR_ABORT`
  unfoldable pub run_or_abort : Command → S → Run S
  run_or_abort c s =
      let (cmderr, s') = run_abstract_command c s in if cmderr == 0 then done s' else stop aborted

  unfoldable pub run_calls : List Restore → S → Run S
  unfolding run_or_abort
  run_calls [] s = done s
  run_calls (r ∷ rs) s = do s' ← run_or_abort (command_of base r) s; run_calls rs s'
