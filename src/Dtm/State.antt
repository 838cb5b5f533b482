-- ===== src/Dtm/State.antt =====
-- `loadarch_state_t` of csrc/testchip_dtm.h: what a file gives for one hart.
use uart_tsi.Base.{ℕ, ◌/◌, ◌%◌, ◌<◌, ◌^◌, ◌≡◌, Bool, not, List, [], ◌∷◌, ◌==◌, All, length}

-- The arrays are lists of 32, and `vpr` has the bytes of each register. Without a vector part these
-- are empty, and `vlen` and `elen` zero. `has_vector` is a variable of the loop.
pub record LoadarchState : Type 0 where
  pub pc : ℕ
  pub prv : ℕ
  pub fcsr : ℕ
  pub vstart : ℕ
  pub vxsat : ℕ
  pub vxrm : ℕ
  pub vcsr : ℕ
  pub vtype : ℕ
  pub stvec : ℕ
  pub sscratch : ℕ
  pub sepc : ℕ
  pub scause : ℕ
  pub stval : ℕ
  pub satp : ℕ
  pub mstatus : ℕ
  pub medeleg : ℕ
  pub mideleg : ℕ
  pub mie : ℕ
  pub mtvec : ℕ
  pub mscratch : ℕ
  pub mepc : ℕ
  pub mcause : ℕ
  pub mtval : ℕ
  pub mip : ℕ
  pub mcycle : ℕ
  pub minstret : ℕ
  pub mtime : ℕ
  pub mtimecmp : ℕ
  pub xpr : List ℕ
  pub fpr : List ℕ
  pub vlen : ℕ
  pub elen : ℕ
  pub vpr : List (List ℕ)
  pub has_vector : Bool

-- `mstatus & MSTATUS_FS` and `mstatus & MSTATUS_VS`, two bits each
abbrev pub fs_on : LoadarchState → Bool
fs_on st = not (st.mstatus / 2 ^ 13 % 4 == 0)

abbrev pub vs_on : LoadarchState → Bool
vs_on st = not (st.mstatus / 2 ^ 9 % 4 == 0)

-- `MSTATUS_FS | MSTATUS_XS | MSTATUS_VS`
abbrev pub all_on : ℕ
all_on = 0x1e600

abbrev pub Is64 : ℕ → Type 0
Is64 w = w < 2 ^ 64

-- What the registers of the list that follows hold afterwards.
abbrev pub csr_values : LoadarchState → List ℕ
csr_values st =
    st.stvec ∷ st.sscratch ∷ st.sepc ∷ st.stval ∷ st.satp ∷ st.mstatus ∷ st.medeleg ∷ st.mideleg
    ∷ st.mie ∷ st.mtvec ∷ st.mscratch ∷ st.mepc ∷ st.mcause ∷ st.mtval ∷ st.mip ∷ st.mcycle
    ∷ st.minstret ∷ st.prv ∷ st.pc ∷ []

abbrev pub csr_numbers : List ℕ
csr_numbers =
    0x105 ∷ 0x140 ∷ 0x141 ∷ 0x143 ∷ 0x180 ∷ 0x300 ∷ 0x302 ∷ 0x303 ∷ 0x304 ∷ 0x305 ∷ 0x340 ∷ 0x341
    ∷ 0x342 ∷ 0x343 ∷ 0x344 ∷ 0xb00 ∷ 0xb02 ∷ 0x7b0 ∷ 0x7b1 ∷ []

-- Arrays of 32, and values of 64 bits.
abbrev pub IsLoadarch : LoadarchState → Type 0
IsLoadarch st =
    (length st.xpr ≡ 32)
    × (length st.fpr ≡ 32)
    × (length st.vpr ≡ 32)
    × All Is64 st.xpr
    × All Is64 st.fpr
    × All Is64 (csr_values st)
    × All Is64 (st.fcsr ∷ st.vstart ∷ st.vxsat ∷ st.vxrm ∷ st.vcsr ∷ [])
