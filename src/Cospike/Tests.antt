-- ===== src/Cospike/Tests.antt =====
-- A simulator whose every step adds four to its address and writes 7 to x5.
use uart_tsi.Base.{
  ℕ, ◌+◌, ◌*◌, ◌/◌, ◌%◌, ◌≡◌, refl, ap, Bool, true, false, not, none, [], ◌∷◌, if◌then◌else◌, ◌==◌,
  arith, done, stop, undefined,
}
use uart_tsi.Base.Text.{codes, text_eq, starts_with}
use uart_tsi.Permissive.{permissive, permissive_off}
use uart_tsi.Cospike.Core.{Core, Commit, Globals, live, mip_msip, mip_seip}
use uart_tsi.Cospike.Loadarch.{restore_loadarch}
use uart_tsi.Cospike.Writes.{see_stores}
use uart_tsi.Cospike.Cosim.{cospike_cosim, cospike_cosim_wrapper}
use uart_tsi.Cospike.Agree.{CoreLaws, cosim_plain}
use uart_tsi.Cospike.Pending.{IsLowered, cosim_unset, cosim_deleted}
use uart_tsi.Cospike.Sysinfo.{CospikeOptions, set_options}
use uart_tsi.Cospike.Arguments.{set_options-section}

pub record Toy : Type 0 where
  pub at_ : ℕ
  pub pending : ℕ

abbrev set_bit : ℕ → ℕ → ℕ → ℕ
set_bit m v w =
    if m == mip_seip
    then w % 512 + v / 512 % 2 * 512 + w / 1024 * 1024
    else if m == mip_msip
    then w % 8 + v / 8 % 2 * 8 + w / 16 * 16
    else w % 128 + v / 128 % 2 * 128 + w / 256 * 256

abbrev toy : Core Toy
toy = record {
  pc = λ s. s.at_;
  write_pc = λ a s. record s { at_ = a };
  write_prv = λ p s. s;
  mip = λ s. s.pending;
  write_mip = λ m v s. record s { pending = set_bit m v s.pending };
  write_xpr = λ n w s. s;
  write_fpr = λ n w s. s;
  read_csr = λ n s. 0;
  write_csr = λ n w s. s;
  vector_length = λ s. 0;
  element_length = λ s. 0;
  write_vpr = λ a bs s. s;
  clear_waiting_for_interrupt = λ s. s;
  forget_reads = λ s. s;
  step = λ s. record s { at_ = s.at_ + 4 };
  device_read = λ s. false;
  mem_reads = λ s. [];
  mem_writes = λ s. [];
  reg_writes = λ s. record { key = 80; value = 7 } ∷ [];
}

abbrev seip_of : ℕ → Bool
seip_of b = not (b == 0)

toy-CoreLaws : CoreLaws toy
toy-CoreLaws = record {
  reads_kept = λ m v s. refl;
  seip_written = λ v s. ap seip_of (omega arith);
  seip_msip = λ v s. ap seip_of (omega arith);
  seip_mtip = λ v s. ap seip_of (omega arith);
  seip_xpr = λ n w s. refl;
}

abbrev set_up : Globals Toy
set_up = record {
  sim = live (record { at_ = 0x80000000; pending = 0 });
  cospike_enable = true;
  cospike_timeout = 100;
  tohost_addr = 0;
  fromhost_addr = 0;
  mem0_base = 0x80000000;
  mem0_size = 0x1000;
  magic_addrs = [];
  dtm = none;
  spike_loadarch_done = false;
}

abbrev stepped_once : Globals Toy
stepped_once = record set_up { sim = live (record { at_ = 0x80000004; pending = 0 }) }

-- `addi x5, x0, 7`
abbrev commit : Commit
commit = record {
  cycle = 3;
  hartid = 0;
  valid = true;
  iaddr = 0x80000000;
  insn = 0x700293;
  raise_exception = false;
  raise_interrupt = false;
  cause = 0;
  wdata = 7;
  priv = 3;
}

cosim_plain_example : cospike_cosim_wrapper (λ h. toy) commit set_up ≡ done stepped_once
unfolding restore_loadarch see_stores
cosim_plain_example =
    cosim_plain (λ h. toy) commit set_up (record { at_ = 0x80000000; pending = 0 }) false
      (record { at_ = 0x80000000; pending = 0 }) toy-CoreLaws (refl, refl, refl, refl, refl) refl
      refl refl refl refl

-- The same instruction, before which the target takes an external interrupt.
cosim_unset_example :
    (rval : ℕ) × (g' : Globals Toy) × (cospike_cosim
        (λ h. toy)
        (record commit { raise_interrupt = true; cause = 0x8000000000000009 })
        set_up
      ≡ done (rval, g'))
    × IsLowered toy g'.sim
unfolding restore_loadarch
cosim_unset_example =
    cosim_unset (λ h. toy) (record commit { raise_interrupt = true; cause = 0x8000000000000009 })
      set_up (record { at_ = 0x80000000; pending = 0 }) false
      (record { at_ = 0x80000000; pending = 0 }) toy-CoreLaws (refl, refl, refl, refl, refl) refl
      refl refl refl

cosim_deleted_instance :
    (g' : Globals Toy) × (cospike_cosim (λ h. toy) (record commit { cycle = 101 }) set_up
      ≡ done (0, g'))
    × (cospike_cosim (λ h. toy) commit g' ≡ stop undefined)
cosim_deleted_instance =
    cosim_deleted (λ h. toy) (record commit { cycle = 101 }) commit set_up
      (record { at_ = 0x80000000; pending = 0 }) refl refl refl refl (omega arith) (omega arith)

abbrev no_options : CospikeOptions
no_options = record {
  in_permissive = false;
  cospike_debug = false;
  cospike_timeout = 0;
  cospike_printf = true;
  cospike_enable = true;
  htif_args = [];
}

set_options-section_instance :
    (set_options
      (codes "prog"
        ∷ permissive
        ∷ (codes "+vcs" ∷ codes "+cospike-enable=0" ∷ permissive_off ∷ codes "a" ∷ []))
      no_options).htif_args
    ≡ codes "prog" ∷ codes "a" ∷ []
unfolding text_eq starts_with
set_options-section_instance =
    set_options-section (codes "prog" ∷ []) (codes "+vcs" ∷ codes "+cospike-enable=0" ∷ [])
      (codes "a" ∷ []) no_options refl (refl, tt) (refl, (refl, tt)) (refl, tt)
