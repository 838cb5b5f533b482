-- ===== src/Dtm/Tests.antt =====
-- A file for one hart is parsed, and the hart restored from it.
use uart_tsi.Base.{ℕ, inr, ◌+◌, ◌≡◌, refl, true, false, List, [], ◌∷◌, replicate, done}
use uart_tsi.Base.Text.{Text, codes, find?, starts_with}
use uart_tsi.Htif.{default_args}
use uart_tsi.Dtm.Hart.{Hart}
use uart_tsi.Dtm.Parse.{line_at, stoull, numbers, floats, parse_hart}
use uart_tsi.Dtm.Layout.{IsLaidOut, in_lines, numbers-done, floats-done, parse_hart-IsLaidOut}
use uart_tsi.Dtm.Samples.{one_hart, hart_lines}
use uart_tsi.Dtm.Reset.{DebugModule, TestchipDtm}

numbers_read : numbers 26 hart_lines 2 ≡ done (in_lines one_hart)
unfolding numbers
numbers_read = refl

floats_read : floats 32 hart_lines 28 ≡ done one_hart.fpr
unfolding floats
floats_read = refl

registers_read : numbers 32 hart_lines 60 ≡ done one_hart.xpr
unfolding numbers starts_with
registers_read = refl

hart_lines-IsLaidOut : IsLaidOut hart_lines 0 one_hart
unfolding stoull line_at find?
hart_lines-IsLaidOut = record {
  first = ((codes "0x80000000", refl, refl), tt);
  level = (codes "M", refl, inr (inr (refl, refl)));
  members = numbers-done 26 hart_lines 2 (in_lines one_hart) numbers_read;
  fprs = floats-done 32 hart_lines 28 one_hart.fpr floats_read;
  xprs = numbers-done 32 hart_lines 60 one_hart.xpr registers_read;
  last = (codes "no vectors", refl, refl);
  fpr_length = refl;
  xpr_length = refl;
}

parse_hart-IsLaidOut_example : parse_hart hart_lines 0 ≡ done (one_hart, 93)
parse_hart-IsLaidOut_example = parse_hart-IsLaidOut hart_lines 0 one_hart hart_lines-IsLaidOut

-- A debug module that counts commands.
abbrev counting : DebugModule ℕ
counting = record {
  bus = record { write_chunk = λ a src s. done s; read_chunk = λ a n s. done (replicate n 0, s) };
  halt = λ n s. s;
  resume = λ n s. s;
  run_abstract_command = λ c s. (0, s + 1);
  data_base = 0x380;
}

abbrev fresh : TestchipDtm ℕ
fresh = record {
  host = 0;
  has_loadmem = false;
  is_loadmem = false;
  loadarch_file = codes "a";
  loadarch_state = [];
  loadarch_done = false;
  htif = default_args;
}

abbrev file_lines : List Text
file_lines = codes "1" ∷ codes ":" ∷ hart_lines

-- 85 commands: the first CSR, 33 for the floating-point registers, nineteen CSRs and 32 registers.
abbrev loaded : TestchipDtm ℕ
loaded = record fresh { host = 85; loadarch_state = one_hart ∷ []; loadarch_done = true }
