-- ===== src/Simtsi/Tests.antt =====
-- A port whose state is the words that it is sent, and two chips.
use uart_tsi.Base.{ℕ, ◌≡◌, refl, true, false, List, [], ◌∷◌, ◌++◌, if◌then◌else◌, done}
use uart_tsi.Base.Text.{codes}
use uart_tsi.Htif.{default_args}
use uart_tsi.Tsi.{TestchipTsi}
use uart_tsi.Simtsi.{
  TsiPort, Chips, TickInputs, TickOutputs, chip_of, tick_outputs, tsi_tick, is_simv_opt,
  remove_vcs_simv_opt,
}
use uart_tsi.Simtsi.Removal.{remove_vcs_simv_opt-without}

abbrev recorder : TsiPort (List ℕ)
recorder = record {
  tick = λ valid bits ready s. if valid then s ++ bits ∷ [] else s;
  switch_to_host = λ s. s;
  in_valid = λ s. false;
  in_bits = λ s. 0;
  out_ready = λ s. true;
  is_done = λ s. true;
  exit_code = λ s. 3;
}

abbrev chip : TestchipTsi (List ℕ)
chip = record {
  host = [];
  config = record { has_loadmem = false; cflush_addr = 0 };
  is_loadmem = false;
  htif = default_args;
}

abbrev two_chips : Chips (List ℕ)
two_chips = (0, chip) ∷ (1, chip) ∷ []

abbrev word : TickInputs
word = record { out_valid = true; out_bits = 9; in_ready = false }

abbrev after_word : Chips (List ℕ)
after_word = (0, chip) ∷ (1, record chip { host = 9 ∷ [] }) ∷ []

abbrev ended : TickOutputs
ended = record { in_valid = false; in_bits = 0; out_ready = true; code = 7 }

tsi_tick-word : tsi_tick recorder [] [] 1 word two_chips ≡ done (ended, after_word)
unfolding tsi_tick chip_of tick_outputs
tsi_tick-word = refl

remove_vcs_simv_opt-without_example :
    remove_vcs_simv_opt
      (codes "-cm_name=x" ∷ codes "+a=1" ∷ codes "--b=2" ∷ codes "-c" ∷ codes "-d=3" ∷ [])
    ≡ done (codes "+a=1" ∷ codes "--b=2" ∷ codes "-c" ∷ [])
unfolding is_simv_opt
remove_vcs_simv_opt-without_example =
    remove_vcs_simv_opt-without
      (codes "-cm_name=x" ∷ codes "+a=1" ∷ codes "--b=2" ∷ codes "-c" ∷ codes "-d=3" ∷ [])
