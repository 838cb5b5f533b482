-- ===== src/Simtsi.antt =====
-- csrc/SimTSI.cc: the serial interface of each chip of the simulation.
pub mod Removal
pub mod Apart
mod Tests
use uart_tsi.Base.{
  ℕ, zero, suc, ◌+◌, ◌*◌, ◌≡◌, ◌≢◌, refl, ap, ◌∙◌, sym, Bool, true, false, ◌&&◌, not, Option, none,
  some, List, [], ◌∷◌, if◌then◌else◌, ltb, ◌==◌, length, get_elem?, Run, done, stop, starved,
  undefined, ◌>>=◌, >>=-eq-done, done-injective, arith,
}
use uart_tsi.Base.Text.{Text}
use uart_tsi.Tsi.{TestchipTsi, construct}

-- `str.find('=') != npos`
abbrev pub has_equals : Text → Bool
has_equals [] = false
has_equals (c ∷ s) = if c == b'=' then true else has_equals s

-- `-X…=…`, where `X` is not `-`
unfoldable pub is_simv_opt : Text → Bool
is_simv_opt (c ∷ d ∷ s) = c == b'-' && not (d == b'-') && has_equals (c ∷ d ∷ s)
is_simv_opt _ = false

-- The loop that moves the arguments behind `idx` down, and `argc--`.
abbrev pub delete_at : ℕ → List Text → List Text
delete_at idx [] = []
delete_at zero (a ∷ args) = args
delete_at (suc idx) (a ∷ args) = a ∷ delete_at idx args

-- `while (idx < argc)`, on the first `argc` arguments.
unfoldable pub remove_from : ℕ → ℕ → List Text → Run (List Text)
unfolding is_simv_opt
remove_from zero idx args = stop starved
remove_from (suc fuel) idx args = elim (get_elem? args idx) [
  | none ↦ done args
  | some str ↦
      let removed = remove_from fuel idx (delete_at idx args) in
      let next_ = remove_from fuel (idx + 1) args in if is_simv_opt str then removed else next_
]

-- A round for each argument, and one for the test that ends the loop.
unfoldable pub remove_vcs_simv_opt : List Text → Run (List Text)
unfolding remove_from
remove_vcs_simv_opt args = remove_from (length args + 1) 0 args

-- What `tsi_tick` uses of `tsi_t`, over its state.
pub record TsiPort (S : Type 0) : Type 0 where
  pub tick : Bool → ℕ → Bool → S → S
  pub switch_to_host : S → S
  pub in_valid : S → Bool
  pub in_bits : S → ℕ
  pub out_ready : S → Bool
  pub is_done : S → Bool
  pub exit_code : S → ℕ

abbrev pub Chips : Type 0 → Type 0
Chips S = List (ℕ × TestchipTsi S)

-- `tsis.find(chip_id)` and `tsis[chip_id] =`
abbrev pub find_chip : {S : Type 0} → ℕ → Chips S → Option (TestchipTsi S)
find_chip n [] = none
find_chip n ((k, t) ∷ chips) = if k == n then some t else find_chip n chips

abbrev pub put_chip : {S : Type 0} → ℕ → TestchipTsi S → Chips S → Chips S
put_chip n t [] = (n, t) ∷ []
put_chip n t ((k, u) ∷ chips) = if k == n then (k, t) ∷ chips else (k, u) ∷ put_chip n t chips

-- The parameters of `tsi_tick` that the object gets, and what it writes and returns.
pub record TickInputs : Type 0 where
  pub out_valid : Bool
  pub out_bits : ℕ
  pub in_ready : Bool

pub record TickOutputs : Type 0 where
  pub in_valid : Bool
  pub in_bits : ℕ
  pub out_ready : Bool
  pub code : ℕ

-- `args` are the arguments without the program's name, which is no option. `host` is what the
-- library's constructor makes.
unfoldable pub chip_of : {S : Type 0} → List Text → S → Option (TestchipTsi S) → Run (TestchipTsi S)
unfolding remove_vcs_simv_opt
chip_of args host (some t) = done t
chip_of args host none = do args' ← remove_vcs_simv_opt args; construct true args' host

module _ {S : Type 0} (port : TsiPort S) where
  unfoldable pub tick_outputs : S → TickOutputs
  tick_outputs s = record {
    in_valid = port.in_valid s;
    in_bits = port.in_bits s;
    out_ready = port.out_ready s;
    code = if port.is_done s then port.exit_code s * 2 + 1 else 0;
  }

  unfoldable pub tsi_tick : List Text → S → ℕ → TickInputs → Chips S → Run (TickOutputs × Chips S)
  unfolding chip_of tick_outputs
  tsi_tick args host chip_id i chips = do
    t ← chip_of args host (find_chip chip_id chips)
    let s = port.switch_to_host (port.tick i.out_valid i.out_bits i.in_ready t.host)
    done (tick_outputs s, put_chip chip_id (record t { host = s }) chips)
