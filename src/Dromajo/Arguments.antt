-- ===== src/Dromajo/Arguments.antt =====
-- The command line that csrc/SimDromajoCosim.cc builds for the library.
use uart_tsi.Base.{
  ℕ, ◌≤◌, ◌≡◌, refl, Option, none, some, List, [], ◌∷◌, ◌++◌, if◌then◌else◌, arith, is_empty,
  length, ◌↔◌, done,
}
use uart_tsi.Base.Text.{Text, codes}
use uart_tsi.Dromajo.{
  DromajoParams, Dromajo, fixed_args, put_arg, put_dtb, build_args, valid_state, dromajo_init,
}

-- The pair for a device tree, which is left out for an empty name
abbrev pub dtb_args : Text → List Text
dtb_args dtb_file = if is_empty dtb_file then [] else codes "--dtb" ∷ dtb_file ∷ []

build_args-done :
    (p : DromajoParams) (bootrom_file dtb_file binary_file : Text)
    → build_args p bootrom_file dtb_file binary_file
      ≡ done (fixed_args p bootrom_file ++ (dtb_args dtb_file ++ binary_file ∷ []))
unfolding build_args fixed_args put_dtb put_arg
build_args-done p bootrom_file [] binary_file = refl
build_args-done p bootrom_file (c ∷ dtb_file) binary_file = refl

length-args :
    (p : DromajoParams) (bootrom_file dtb_file binary_file : Text)
    → length (fixed_args p bootrom_file ++ (dtb_args dtb_file ++ binary_file ∷ [])) ≤ 21
unfolding fixed_args
length-args p bootrom_file [] binary_file = omega arith
length-args p bootrom_file (c ∷ dtb_file) binary_file = omega arith

rval_of :
    {S : Type 0} (o : Option S)
    → (◌≡◌ {A = ℕ} (if valid_state (record { state = o }) then 0 else 1) 0)
      ↔ ((s : S) × (o ≡ some s))
unfolding valid_state
rval_of none = (λ h. absurd (omega arith), λ h. cc)
rval_of (some s) = (λ h. (s, refl), λ h. refl)

-- `dromajo_init` always returns. The library is given the eighteen fixed arguments, the pair for the
-- device tree unless its name is empty, and the binary, in this order: at most 21, so that neither
-- the array of 24 overflows nor the test for too many arguments is ever met. The result is 0
-- exactly when the library gives a state, and in both cases the pointer is to the new object.
pub dromajo_init_lem :
    {S : Type 0} (lib : Dromajo S) (p : DromajoParams) (bootrom_file dtb_file binary_file : Text)
    → (args : List Text) × (rval : ℕ) × (args
        ≡ fixed_args p bootrom_file ++ (dtb_args dtb_file ++ binary_file ∷ []))
      × (length args ≤ 21)
      × (dromajo_init lib p bootrom_file dtb_file binary_file
          ≡ done (rval, some (record { state = lib.cosim_init args })))
      × ((rval ≡ 0) ↔ ((s : S) × (lib.cosim_init args ≡ some s)))
unfolding dromajo_init
dromajo_init_lem lib p bootrom_file dtb_file binary_file =
    let args : List Text = fixed_args p bootrom_file ++ (dtb_args dtb_file ++ binary_file ∷ []) in
    (
      args,
      (if valid_state (record { state = lib.cosim_init args }) then 0 else 1),
      refl,
      length-args p bootrom_file dtb_file binary_file,
      rw (build_args-done p bootrom_file dtb_file binary_file) refl,
      rval_of (lib.cosim_init args),
    )
