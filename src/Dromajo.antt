-- ===== src/Dromajo.antt =====
-- csrc/SimDromajoCosim.cc and csrc/dromajo_wrapper.h, .cc: the calls of the simulation on the
-- Dromajo simulator, whose library is a parameter, as are the texts that elaboration generates.
pub mod Arguments
mod Tests
use uart_tsi.Base.{
  ℕ, Bool, Option, none, some, true, false, List, [], ◌∷◌, ◌++◌, if◌then◌else◌, ltb, length,
  is_empty, Run, done, stop, exited, undefined, check, ◌>>=◌, ◌>>◌,
}
use uart_tsi.Base.Text.{Text, codes}

-- The macros of dromajo_params.h.
pub record DromajoParams : Type 0 where
  pub reset_vector : Text
  pub mmio_start : Text
  pub mmio_end : Text
  pub plic_base : Text
  pub plic_size : Text
  pub clint_base : Text
  pub clint_size : Text
  pub mem_size : Text

-- The library, over its `dromajo_cosim_state_t`: a state may be a null pointer, from `cosim_init` on.
-- The arguments of `cosim_step` are the hart, the address, the instruction, the data and `mstatus`;
-- a negative number of the simulation is the word of its bits.
pub record Dromajo (S : Type 0) : Type 0 where
  pub cosim_init : List Text → Option S
  pub cosim_fini : Option S → Option S
  pub cosim_step : ℕ → ℕ → ℕ → ℕ → ℕ → Bool → Option S → ℕ × Option S
  pub cosim_raise_trap : ℕ → ℕ → Option S → Option S
  pub cosim_override_mem : ℕ → ℕ → ℕ → ℕ → Option S → ℕ × Option S

-- A text, a colon and a text
abbrev colon : Text → Text → Text
colon a b = a ++ (b':' ∷ b)

-- `local_argv` as it is initialised, up to `local_argc`
unfoldable pub fixed_args : DromajoParams → Text → List Text
fixed_args p bootrom_file =
    codes "./dromajo"
    ∷ codes "--compact_bootrom"
    ∷ codes "--custom_extension"
    ∷ codes "--clear_ids"
    ∷ codes "--reset_vector"
    ∷ p.reset_vector
    ∷ codes "--bootrom"
    ∷ bootrom_file
    ∷ codes "--mmio_range"
    ∷ colon p.mmio_start p.mmio_end
    ∷ codes "--plic"
    ∷ colon p.plic_base p.plic_size
    ∷ codes "--clint"
    ∷ colon p.clint_base p.clint_size
    ∷ codes "--memory_size"
    ∷ p.mem_size
    ∷ codes "--save"
    ∷ codes "dromajo_snap"
    ∷ []

abbrev pub max_args : ℕ
max_args = 24

-- `local_argv[local_argc] = arg` and `local_argc += 1`: past the array the write is undefined.
unfoldable pub put_arg : Text → List Text → Run (List Text)
put_arg arg args = do check (ltb (length args) max_args) undefined; done (args ++ arg ∷ [])

unfoldable pub put_dtb : Text → List Text → Run (List Text)
unfolding put_arg
put_dtb dtb_file args =
    let both = (do args' ← put_arg (codes "--dtb") args; put_arg dtb_file args') in
    if is_empty dtb_file then done args else both

-- The arguments for the library.
unfoldable pub build_args : DromajoParams → Text → Text → Text → Run (List Text)
unfolding fixed_args put_dtb
build_args p bootrom_file dtb_file binary_file = do
  args ← put_dtb dtb_file (fixed_args p bootrom_file)
  args' ← put_arg binary_file args
  check (if ltb max_args (length args') then false else true) (exited 1)
  done args'

-- `dromajo_t`
pub record Wrapper (S : Type 0) : Type 0 where
  pub state : Option S

unfoldable pub valid_state : {S : Type 0} → Wrapper S → Bool
valid_state w = elim w.state [ none ↦ false | some _ ↦ true ]

-- A call through a null pointer to the object is undefined.
unfoldable pub on_wrapper : {S A : Type 0} → (Wrapper S → A) → Option (Wrapper S) → Run A
on_wrapper f none = stop undefined
on_wrapper f (some w) = done (f w)

module _ {S : Type 0} (lib : Dromajo S) where
  open lib use {cosim_init, cosim_fini, cosim_step, cosim_raise_trap, cosim_override_mem}

  -- The members of `dromajo_t`.
  unfoldable pub new_wrapper : List Text → Wrapper S
  new_wrapper args = record { state = cosim_init args }

  unfoldable pub delete_wrapper : Wrapper S → Option S
  delete_wrapper w = cosim_fini w.state

  unfoldable pub wrapper_step : ℕ → ℕ → ℕ → ℕ → ℕ → Bool → Wrapper S → ℕ × Wrapper S
  wrapper_step hartid dut_pc dut_insn dut_wdata mstatus check_ w =
      let (r, s) = cosim_step hartid dut_pc dut_insn dut_wdata mstatus check_ w.state in
      (r, record { state = s })

  unfoldable pub wrapper_raise_trap : ℕ → ℕ → Wrapper S → Wrapper S
  wrapper_raise_trap hartid cause w = record { state = cosim_raise_trap hartid cause w.state }

  -- The data goes before the size.
  unfoldable pub wrapper_override_mem : ℕ → ℕ → ℕ → ℕ → Wrapper S → ℕ × Wrapper S
  wrapper_override_mem hartid dut_addr dut_size dut_wdata w =
      let (r, s) = cosim_override_mem hartid dut_addr dut_wdata dut_size w.state in
      (r, record { state = s })

  -- The result is what is returned and the pointer `dromajo` then.
  unfoldable pub dromajo_init : DromajoParams → Text → Text → Text → Run (ℕ × Option (Wrapper S))
  unfolding build_args new_wrapper valid_state
  dromajo_init p bootrom_file dtb_file binary_file = do
    args ← build_args p bootrom_file dtb_file binary_file
    let w = new_wrapper args
    done (if valid_state w then 0 else 1, some w)

  unfoldable pub dromajo_step : ℕ → ℕ → ℕ → ℕ → ℕ → Bool → Option (Wrapper S) → Run (ℕ × Wrapper S)
  unfolding on_wrapper wrapper_step
  dromajo_step hartid dut_pc dut_insn dut_wdata mstatus check_ dromajo =
      on_wrapper (wrapper_step hartid dut_pc dut_insn dut_wdata mstatus check_) dromajo

  unfoldable pub dromajo_raise_trap : ℕ → ℕ → Option (Wrapper S) → Run (Wrapper S)
  unfolding on_wrapper wrapper_raise_trap
  dromajo_raise_trap hartid cause dromajo = on_wrapper (wrapper_raise_trap hartid cause) dromajo
