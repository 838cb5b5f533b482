-- ===== src/Dtm/Encoding.antt =====
-- The encodings and the abstract commands of csrc/testchip_dtm.cc, with which architectural state
-- is put into a hart that is halted in debug mode.
use uart_tsi.Base.{ℕ, ◌+◌, ◌*◌, ◌/◌, ◌%◌, ◌^◌, List, [], ◌∷◌, if◌then◌else◌, ◌==◌}

-- `x0`, and `s0`, which the programs use
abbrev pub x0 : ℕ
x0 = 0

abbrev pub s0 : ℕ
s0 = 8

-- The numbers that the debug specification and the manual give, as in riscv/encoding.h.
abbrev pub csr_dscratch0 : ℕ
csr_dscratch0 = 0x7b2

abbrev pub ebreak : ℕ
ebreak = 0x100073

-- The instructions' fields are apart wherever register numbers are below 32 and those of CSRs below
-- 4096, so `|` is a sum. The immediate is cut to its twelve bits.
abbrev pub itype_imm : ℕ → ℕ
itype_imm imm = imm % 4096 * 2 ^ 20

unfoldable pub load_insn : ℕ → ℕ → ℕ → ℕ → ℕ
load_insn xlen dst base imm =
    (if xlen == 64 then 0x3003 else 0x2003) + dst * 2 ^ 7 + base * 2 ^ 15 + itype_imm imm

unfoldable pub fload : ℕ → ℕ → ℕ → ℕ → ℕ
fload flen dst base imm =
    (if flen == 64 then 0x3007 else 0x2007) + dst * 2 ^ 7 + base * 2 ^ 15 + itype_imm imm

unfoldable pub addi : ℕ → ℕ → ℕ → ℕ
addi dst src imm = 0x13 + dst * 2 ^ 7 + src * 2 ^ 15 + itype_imm imm

unfoldable pub vl1r : ℕ → ℕ → ℕ
vl1r dst base = 0x2800007 + dst * 2 ^ 7 + base * 2 ^ 15

unfoldable pub vsetvl : ℕ → ℕ → ℕ → ℕ
vsetvl dst rs1 rs2 = 0x80007057 + dst * 2 ^ 7 + rs1 * 2 ^ 15 + rs2 * 2 ^ 20

-- `CSRRx(WRITE, …)`: the CSR's number is shifted in a `uint32_t`.
unfoldable pub csrrw : ℕ → ℕ → ℕ → ℕ
csrrw dst csr src = 0x73 + 2 ^ 12 + dst * 2 ^ 7 + src * 2 ^ 15 + csr * 2 ^ 20 % 2 ^ 32

-- `AC_ACCESS_REGISTER_TRANSFER | AC_ACCESS_REGISTER_WRITE | AC_AR_SIZE(64) | AC_AR_REGNO(regno)`
unfoldable pub transfer : ℕ → ℕ
transfer regno = 2 ^ 17 + 2 ^ 16 + 3 * 2 ^ 20 + 0x1000 + regno

-- The same with `AC_ACCESS_REGISTER_POSTEXEC`
unfoldable pub transfer_exec : ℕ → ℕ
unfolding transfer
transfer_exec regno = 2 ^ 18 + transfer regno

-- What `run_abstract_command` takes: `words` are the data.
pub record Command : Type 0 where
  pub command : ℕ
  pub program : List ℕ
  pub words : List ℕ

-- `{ (uint32_t) reg, (uint32_t) (reg >> 32) }`
abbrev pub reg_data : ℕ → List ℕ
reg_data reg = reg % 2 ^ 32 ∷ reg / 2 ^ 32 % 2 ^ 32 ∷ []

unfoldable pub restore_reg : ℕ → ℕ → Command
unfolding transfer
restore_reg regno reg = record { command = transfer regno; program = []; words = reg_data reg }

-- `base` is `get_data_base()`.
unfoldable pub restore_freg : ℕ → ℕ → ℕ → Command
unfolding transfer_exec fload
restore_freg base regno reg = record {
  command = transfer_exec 0;
  program = fload 64 regno x0 base ∷ ebreak ∷ [];
  words = reg_data reg;
}

-- The bytes of the register come as words.
unfoldable pub restore_vreg : ℕ → ℕ → List ℕ → Command
unfolding transfer_exec addi vl1r
restore_vreg base regno words = record {
  command = transfer_exec 0;
  program = addi s0 x0 base ∷ vl1r regno s0 ∷ ebreak ∷ [];
  words = words;
}

unfoldable pub restore_vtype : ℕ → Command
unfolding transfer_exec vsetvl
restore_vtype vtype = record {
  command = transfer_exec s0;
  program = vsetvl x0 x0 s0 ∷ ebreak ∷ [];
  words = vtype ∷ [];
}

unfoldable pub restore_csr : ℕ → ℕ → ℕ → Command
unfolding transfer_exec csrrw load_insn
restore_csr base regno reg = record {
  command = transfer_exec 0;
  program =
      csrrw s0 csr_dscratch0 s0
      ∷ load_insn 64 s0 x0 base
      ∷ csrrw s0 regno s0
      ∷ csrrw s0 csr_dscratch0 s0
      ∷ ebreak
      ∷ [];
  words = reg_data reg;
}
