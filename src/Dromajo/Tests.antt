-- ===== src/Dromajo/Tests.antt =====
-- A library that wants at least twenty arguments, and counts its steps.
use uart_tsi.Base.{
  ℕ, ◌+◌, ◌≤◌, ◌≡◌, refl, ◌↔◌, none, some, List, [], ◌∷◌, ◌++◌, if◌then◌else◌, leb, length, done,
  stop, undefined, true,
}
use uart_tsi.Base.Text.{Text, codes}
use uart_tsi.Dromajo.{
  DromajoParams, Dromajo, fixed_args, dromajo_init, dromajo_step, dromajo_raise_trap,
}
use uart_tsi.Dromajo.Arguments.{dtb_args, dromajo_init_lem}

abbrev picky : Dromajo ℕ
picky = record {
  cosim_init = λ args. if leb 20 (length args) then some 0 else none;
  cosim_fini = λ s. none;
  cosim_step =
      λ h pc insn wdata mstatus check_ s. elim s [ none ↦ (0, none) | some n ↦ (n, some (n + 1)) ];
  cosim_raise_trap = λ h cause s. s;
  cosim_override_mem = λ h a wdata size s. (size, s);
}

abbrev chip : DromajoParams
chip = record {
  reset_vector = codes "0x10040";
  mmio_start = codes "0x1000";
  mmio_end = codes "0x80000000";
  plic_base = codes "0xc000000";
  plic_size = codes "0x4000000";
  clint_base = codes "0x2000000";
  clint_size = codes "0x10000";
  mem_size = codes "0x10000000";
}

dromajo_init_lem_instance :
    (args : List Text) × (rval : ℕ) × (args
      ≡ fixed_args chip (codes "rom") ++ (dtb_args (codes "dtb") ++ codes "bin" ∷ []))
    × (length args ≤ 21)
    × (dromajo_init picky chip (codes "rom") (codes "dtb") (codes "bin")
        ≡ done (rval, some (record { state = picky.cosim_init args })))
    × ((rval ≡ 0) ↔ ((s : ℕ) × (picky.cosim_init args ≡ some s)))
dromajo_init_lem_instance = dromajo_init_lem picky chip (codes "rom") (codes "dtb") (codes "bin")

-- Without the device tree this library gives no state, and later steps are handed on all the same.
failed_init :
    dromajo_init picky chip (codes "rom") [] (codes "bin")
    ≡ done (1, some (record { state = none }))
unfolding dromajo_init
failed_init = refl

step_after :
    dromajo_step picky 0 0x10040 0x13 0 0 true (some (record { state = some 4 }))
    ≡ done (4, record { state = some 5 })
unfolding dromajo_step
step_after = refl

step_before : dromajo_step picky 0 0x10040 0x13 0 0 true none ≡ stop undefined
unfolding dromajo_step
step_before = refl

trap_before : dromajo_raise_trap picky 0 2 none ≡ stop undefined
unfolding dromajo_raise_trap
trap_before = refl
