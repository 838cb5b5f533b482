-- ===== src/Cospike/Configure/Tests.antt =====
-- A simulator with a memory of 100 bytes at 100, whose cores have an address and features.
use uart_tsi.Base.{
  ℕ, ◌+◌, ◌≡◌, refl, Bool, true, false, ◌&&◌, none, some, [], ◌∷◌, if◌then◌else◌, leb, ◌==◌, arith,
  length, inl, inr, done, stop, threw, ◌<◌, ◌≤◌, All, List,
}
use uart_tsi.Base.Text.{codes}
use uart_tsi.Base.Memory.{bytes_at, overlay}
use uart_tsi.Simdram.{Backing}
use uart_tsi.Cospike.Core.{Core, Commit, Globals}
use uart_tsi.Cospike.Cosim.{cospike_cosim}
use uart_tsi.Cospike.Sysinfo.{
  SystemInfo, CospikeOptions, make_info, set_options, cospike_set_sysinfo,
}
use uart_tsi.Cospike.Configure.{
  Spike, Impl, new_sim, configure_cores, configure, globals_with, cospike_cosim_first,
}
use uart_tsi.Cospike.Configure.Matching.{MemsLaws}
use uart_tsi.Cospike.Configure.Contents.{DeviceLaws, new_sim-contents}
use uart_tsi.Cospike.Configure.Cores.{
  CoresLaws, same_impl, IsConfigured, IsUntouched, configure_cores-one,
}
use uart_tsi.Cospike.Configure.First.{first_call-threw, first_call-some}

pub record World : Type 0 where
  pub bytes : ℕ → ℕ
  pub pcs : ℕ → ℕ
  pub impls : ℕ → Impl → Bool

abbrev core_of : ℕ → Core World
core_of h = record {
  pc = λ s. s.pcs h;
  write_pc = λ a s. record s { pcs = λ k. if k == h then a else s.pcs k };
  write_prv = λ p s. s;
  mip = λ s. 0;
  write_mip = λ m v s. s;
  write_xpr = λ n w s. s;
  write_fpr = λ n w s. s;
  read_csr = λ n s. 0;
  write_csr = λ n w s. s;
  vector_length = λ s. 0;
  element_length = λ s. 0;
  write_vpr = λ a bs s. s;
  clear_waiting_for_interrupt = λ s. s;
  forget_reads = λ s. s;
  step = λ s. record s { pcs = λ k. if k == h then s.pcs h + 4 else s.pcs k };
  device_read = λ s. false;
  mem_reads = λ s. [];
  mem_writes = λ s. [];
  reg_writes = λ s. [];
}

abbrev in_memory : ℕ → ℕ → World → Bool
in_memory base n s = leb 100 base && leb (base + n) 200

abbrev put_bytes : ℕ → List ℕ → World → World
put_bytes base src s = record s { bytes = overlay base src s.bytes }

abbrev fresh : World
fresh = record { bytes = λ x. 0; pcs = λ k. 0x1000; impls = λ k f. true }

abbrev world : Spike World
world = record {
  make_sim = λ c args. done fresh;
  add_device = λ base d s. s;
  mems_store =
      λ base src s. if in_memory base (length src) s then some (put_bytes base src s) else none;
  configure_log = λ a b s. s;
  set_impl =
      λ h f b s. record s { impls = λ k g. if (k == h) && same_impl g f then b else s.impls k g };
  erase_csr = λ h n s. s;
  set_debug = λ b s. s;
  set_histogram = λ b s. s;
  set_procs_debug = λ b s. s;
  start_htif = λ s. done s;
  get_tohost_addr = λ s. 160;
  get_fromhost_addr = λ s. 168;
}

world-MemsLaws : MemsLaws world
world-MemsLaws = record {
  memory = λ s. s.bytes;
  holds = in_memory;
  stored = λ base src s h. (put_bytes base src s, rw h refl, λ x. refl, λ b n. refl);
}

world-CoresLaws : CoresLaws world core_of
world-CoresLaws = record {
  has_impl = λ h f s. s.impls h f;
  pc_write = λ h k a s. refl;
  impl_write = λ h k a f s. refl;
  pc_set = λ h k f b s. refl;
  impl_set = λ h k f g b s. refl;
  pc_erase = λ h k n s. refl;
  impl_erase = λ h k n f s. refl;
}

abbrev low : Backing
low = record { bytes = λ x. x + 1; size = 4 }

abbrev high : Backing
high = record { bytes = λ x. 9; size = 2 }

abbrev regions : List (ℕ × Backing)
regions = (100, low) ∷ (110, high) ∷ []

world-DeviceLaws : DeviceLaws world world-MemsLaws
unfolding world-MemsLaws
world-DeviceLaws = record { memory_kept = λ base d s x. refl; holds_kept = λ base d s b n. refl }

-- Of two harts, when hart 0 calls
configure_cores-one_example :
    IsConfigured world core_of world-CoresLaws 0 4 (configure_cores world core_of 0 4 2 fresh)
    × IsUntouched world core_of world-CoresLaws 1 fresh (configure_cores world core_of 0 4 2 fresh)
configure_cores-one_example =
    configure_cores-one world core_of world-CoresLaws 0 1 4 2 fresh (omega arith) (omega arith)

abbrev target : SystemInfo
target = record {
  isa = [];
  pmpregions = 8;
  maxpglevels = 4;
  mem0_base = 100;
  mem0_size = 100;
  mem1_base = 0;
  mem1_size = 0;
  mem2_base = 0;
  mem2_size = 0;
  nharts = 2;
  bootrom = [];
  priv = [];
  htif_args = [];
}

abbrev options : CospikeOptions
options = record {
  in_permissive = false;
  cospike_debug = false;
  cospike_timeout = 0;
  cospike_printf = true;
  cospike_enable = true;
  htif_args = [];
}

abbrev bare : SystemInfo
bare = record target { isa = codes "rv64_zicntr"; priv = codes "MSU"; bootrom = 19 ∷ 0 ∷ [] }

abbrev at_reset : Commit
at_reset = record {
  cycle = 3;
  hartid = 1;
  valid = true;
  iaddr = 0x10000;
  insn = 0x13;
  raise_exception = false;
  raise_interrupt = false;
  cause = 0;
  wdata = 0;
  priv = 3;
}

first_call-threw_example :
    cospike_cosim_first world core_of at_reset (some bare) options none (some ((100, low) ∷ []))
    ≡ stop threw
unfolding make_info set_options cospike_set_sysinfo
first_call-threw_example =
    first_call-threw world core_of at_reset options (codes "rv64") (codes "MSU") (codes "19 0")
      target (codes "+vcs" ∷ []) none ((100, low) ∷ []) (refl, tt) refl refl (omega arith)

abbrev loaded : SystemInfo
loaded = record bare { htif_args = codes "prog" ∷ [] }

new_sim-contents_example :
    (s : World) × (new_sim world loaded regions ≡ done s)
    × All
        (λ (r : ℕ × Backing). bytes_at s.bytes r.0 r.1.size ≡ bytes_at r.1.bytes 0 r.1.size)
        regions
    × (s.bytes 104 ≡ 0)
unfolding world-MemsLaws
new_sim-contents_example =
    new_sim-contents world world-MemsLaws world-DeviceLaws loaded regions fresh 104 (omega arith)
      refl (omega arith) (omega arith) refl (refl, (refl, tt)) ((inl (omega arith), tt), (tt, tt))
      (inr (omega arith), (inl (omega arith), tt))

-- After the setting up, and after the first instruction
abbrev ready : World
ready = configure_cores world core_of 1 4 2 (put_bytes 100 (1 ∷ 2 ∷ 3 ∷ 4 ∷ []) fresh)

abbrev left : Globals World
left = globals_with world options none loaded ((core_of 1).step ready)

first_call-some_instance :
    (true ≡ true)
    × (2 < 0x10000)
    × (false ≡ false)
    × (3 ≤ 4)
    × (4 ≤ 5)
    × ((rs : List (ℕ × Backing)) × (s : World) × (some ((100, low) ∷ []) ≡ some rs)
        × (configure world core_of 1 false loaded rs ≡ done s)
        × (cospike_cosim core_of at_reset (globals_with world options none loaded s)
            ≡ done (0, left)))
unfolding configure configure_cores cospike_cosim_first cospike_cosim
first_call-some_instance =
    first_call-some world core_of at_reset loaded options none (some ((100, low) ∷ [])) refl

after_first :
    (s : World) × (configure world core_of 1 false loaded ((100, low) ∷ []) ≡ done s)
    × (s.pcs 1 ≡ 0x10000)
    × (s.pcs 0 ≡ 0x1000)
    × (s.bytes 102 ≡ 3)
unfolding configure
after_first = (_, refl, refl, refl, refl)
