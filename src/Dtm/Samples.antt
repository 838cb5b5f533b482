-- ===== src/Dtm/Samples.antt =====
-- A file for one hart, with all its values alike, and a hart that takes it.
use uart_tsi.Base.{refl, ◌≡◌, false, List, [], ◌∷◌, ◌++◌, replicate, done}
use uart_tsi.Base.Text.{Text, codes}
use uart_tsi.Dtm.State.{LoadarchState, IsLoadarch}
use uart_tsi.Dtm.Hart.{Hart}
use uart_tsi.Dtm.Parse.{parse_hart}
use uart_tsi.Dtm.Parsed.{parse_hart-IsLoadarch}

abbrev pub one_hart : LoadarchState
one_hart = record {
  pc = 0x80000000;
  prv = 3;
  fcsr = 0x6000;
  vstart = 0x6000;
  vxsat = 0x6000;
  vxrm = 0x6000;
  vcsr = 0x6000;
  vtype = 0x6000;
  stvec = 0x6000;
  sscratch = 0x6000;
  sepc = 0x6000;
  scause = 0x6000;
  stval = 0x6000;
  satp = 0x6000;
  mstatus = 0x6000;
  medeleg = 0x6000;
  mideleg = 0x6000;
  mie = 0x6000;
  mtvec = 0x6000;
  mscratch = 0x6000;
  mepc = 0x6000;
  mcause = 0x6000;
  mtval = 0x6000;
  mip = 0x6000;
  mcycle = 0x6000;
  minstret = 0x6000;
  mtime = 0x6000;
  mtimecmp = 0x6000;
  xpr = replicate 32 5;
  fpr = replicate 32 0xab;
  vlen = 0;
  elen = 0;
  vpr = replicate 32 [];
  has_vector = false;
}

abbrev pub hart_lines : List Text
hart_lines =
    codes "0x80000000"
    ∷ codes "M"
    ∷ (replicate 26 (codes "0x6000")
        ++ (replicate 32 (codes "0x0000000000000000ab")
            ++ (replicate 32 (codes "5") ++ codes "no vectors" ∷ [])))

pub parse_hart-hart_lines : parse_hart hart_lines 0 ≡ done (one_hart, 93)
unfolding parse_hart
parse_hart-hart_lines = refl

pub one_hart-IsLoadarch : IsLoadarch one_hart
one_hart-IsLoadarch = parse_hart-IsLoadarch hart_lines 0 parse_hart-hart_lines

abbrev pub halted_hart : Hart
halted_hart = record {
  x = λ i. 9;
  f = λ i. 0;
  v = λ i. [];
  csr = λ n. n;
  words = replicate 8 0;
  ram_words = 16;
  vwords = 4;
}
