-- ===== src/Cospike/Configure.antt =====
-- The part of `cospike_cosim` in csrc/cospike_impl.cc that sets up the simulator at the first call,
-- and the devices that it adds.
pub mod Matching
pub mod Contents
pub mod Cores
pub mod First
mod Tests
use uart_tsi.Base.{
  ℕ, zero, suc, ◌+◌, ◌-◌, ◌%◌, ◌^◌, Bool, true, false, ◌&&◌, not, Option, none, some, List, [], ◌∷◌,
  ◌++◌, if◌then◌else◌, leb, ltb, ◌==◌, length, replicate, is_empty, le_bytes, Run, done, stop,
  aborted, threw, check, ◌>>=◌, ◌>>◌,
}
use uart_tsi.Base.Text.{Text, codes}
use uart_tsi.Base.Memory.{bytes_at}
use uart_tsi.Simdram.{Backing}
use uart_tsi.Dtm.State.{LoadarchState}
use uart_tsi.Cospike.Core.{Core, Commit, Globals, live}
use uart_tsi.Cospike.Cosim.{cospike_cosim}
use uart_tsi.Cospike.Sysinfo.{SystemInfo, CospikeOptions}

-- `read_override_device_t`
pub record Override : Type 0 where
  pub name : Text
  pub size : ℕ
  pub was_read_from : Bool

abbrev pub new_override : Text → ℕ → Override
new_override name size = record { name = name; size = size; was_read_from = false }

-- `load` of it, which leaves the bytes as they are. The sum has 64 bits.
unfoldable pub load_override : ℕ → ℕ → Override → Bool × Override
load_override addr len d =
    if ltb d.size ((addr + len) % 2 ^ 64)
    then (false, d)
    else (true, record d { was_read_from = true })

unfoldable pub store_override : ℕ → ℕ → Override → Bool
store_override addr len d = leb ((addr + len) % 2 ^ 64) d.size

-- What is added to the simulator: memory of a size with bytes stored at its start, a ROM, or one of
-- the devices above.
pub data SimDevice : Type 0 where
  ram : ℕ → List ℕ → SimDevice
  rom : List ℕ → SimDevice
  overriding : Override → SimDevice

-- `cfg_t`, less what is the same for every target.
pub record Config : Type 0 where
  pub isa : Text
  pub priv : Text
  pub pmpregions : ℕ
  pub mem_layout : List (ℕ × ℕ)
  pub hartids : List ℕ

-- The features of a core that are set.
pub data Impl : Type 0 where
  sv48 sv57 asid : Impl

-- The simulator's library, over its state `S`. `make_sim` makes the memories of the layout too, and
-- is given the arguments of the host interface. `mems_store` is `store` of a bus with these memories
-- only, `none` where that returns false. `set_impl` and `erase_csr` take the core's number first.
-- `start` is that of the host interface, which loads the program.
pub record Spike (S : Type 0) : Type 0 where
  pub make_sim : Config → List Text → Run S
  pub add_device : ℕ → SimDevice → S → S
  pub mems_store : ℕ → List ℕ → S → Option S
  pub configure_log : Bool → Bool → S → S
  pub set_impl : ℕ → Impl → Bool → S → S
  pub erase_csr : ℕ → ℕ → S → S
  pub set_debug : Bool → S → S
  pub set_histogram : Bool → S → S
  pub set_procs_debug : Bool → S → S
  pub start_htif : S → Run S
  pub get_tohost_addr : S → ℕ
  pub get_fromhost_addr : S → ℕ

-- `mem_cfg`: the first memory, and each of the others whose base is not zero.
unfoldable pub mem_layout_of : SystemInfo → List (ℕ × ℕ)
mem_layout_of info =
    (info.mem0_base, info.mem0_size)
    ∷ ((if info.mem1_base == 0 then [] else (info.mem1_base, info.mem1_size) ∷ [])
        ++ (if info.mem2_base == 0 then [] else (info.mem2_base, info.mem2_size) ∷ []))

-- The numbers from `i` on, `n` of them.
unfoldable pub hartids_from : ℕ → ℕ → List ℕ
hartids_from i zero = []
hartids_from i (suc n) = i ∷ hartids_from (i + 1) n

unfoldable pub config_of : SystemInfo → Config
unfolding mem_layout_of hartids_from
config_of info = record {
  isa = info.isa;
  priv = info.priv;
  pmpregions = info.pmpregions;
  mem_layout = mem_layout_of info;
  hartids = hartids_from 0 info.nharts;
}

-- `resize` to 64 KB
unfoldable pub boot_rom_of : List ℕ → Run (List ℕ)
boot_rom_of bootrom = do
  check (ltb (length bootrom) 0x10000) aborted
  done (bootrom ++ replicate (0x10000 - length bootrom) 0)

-- `devices`, with the bases
unfoldable pub devices_with : List ℕ → List (ℕ × SimDevice)
devices_with boot_rom =
    (0x1000, ram 4096 (le_bytes 8 0x80000000))
    ∷ (0x10000, rom boot_rom)
    ∷ (0x2000000, overriding (new_override (codes "clint") 0x10000))
    ∷ (0x10020000, overriding (new_override (codes "uart") 0x1000))
    ∷ (0xc000000, overriding (new_override (codes "plic") 0x4000000))
    ∷ []

module _ {S : Type 0} (spike : Spike S) where
  open spike use {
    make_sim, add_device, mems_store, configure_log, set_impl, erase_csr, set_debug, set_histogram,
    set_procs_debug, start_htif, get_tohost_addr, get_fromhost_addr,
  }

  unfoldable pub add_devices : List (ℕ × SimDevice) → S → S
  add_devices [] s = s
  add_devices ((base, d) ∷ ds) s = add_devices ds (add_device base d s)

  unfoldable pub store_or_abort : Option S → Run S
  store_or_abort none = stop aborted
  store_or_abort (some s) = done s

  -- The loop over `backing_mem_data[0]`, whose entries are in the order of the map.
  unfoldable pub match_memories : List (ℕ × Backing) → S → Run S
  unfolding store_or_abort
  match_memories [] s = done s
  match_memories ((base, b) ∷ regions) s = do
    s' ← store_or_abort (mems_store base (bytes_at b.bytes 0 b.size) s)
    match_memories regions s'

  -- The body of the loop over the harts: 0xc01 is `CSR_TIME`.
  unfoldable pub configure_core : (ℕ → Core S) → ℕ → ℕ → S → S
  configure_core get_core hartid maxpglevels s =
      let core : Core S = get_core hartid in
      let s₁ = set_impl hartid sv48 (leb 4 maxpglevels) (core.write_pc 0x10000 s) in
      let s₂ = set_impl hartid asid false (set_impl hartid sv57 (leb 5 maxpglevels) s₁) in
      erase_csr hartid 0xc01 s₂

  -- The loop itself, with `n` rounds left. `hartid` is that of the call.
  unfoldable pub configure_cores : (ℕ → Core S) → ℕ → ℕ → ℕ → S → S
  unfolding configure_core
  configure_cores get_core hartid maxpglevels zero s = s
  configure_cores get_core hartid maxpglevels (suc n) s =
      configure_cores get_core hartid maxpglevels n (configure_core get_core hartid maxpglevels s)

  -- Up to the loop over the harts, but for the log: the printed list of the arguments loses its last two characters, and
  -- `erase` throws where there are none.
  unfoldable pub new_sim : SystemInfo → List (ℕ × Backing) → Run S
  unfolding config_of boot_rom_of devices_with add_devices match_memories
  new_sim info regions = do
    boot_rom ← boot_rom_of info.bootrom
    check (not (is_empty info.htif_args)) threw
    s ← make_sim (config_of info) info.htif_args
    s' ← match_memories regions (add_devices (devices_with boot_rom) s)
    check (leb 3 info.maxpglevels && leb info.maxpglevels 5) aborted
    done s'

  unfoldable pub configure : (ℕ → Core S) → ℕ → Bool → SystemInfo → List (ℕ × Backing) → Run S
  unfolding new_sim configure_cores
  configure get_core hartid debug info regions = do
    s ← new_sim info regions
    let s' =
        configure_cores get_core hartid info.maxpglevels info.nharts (configure_log true true s)
    start_htif (set_procs_debug debug (set_histogram true (set_debug debug s')))

  abbrev pub globals_with :
      CospikeOptions → Option (Bool × List LoadarchState) → SystemInfo → S → Globals S
  globals_with o dtm info s = record {
    sim = live s;
    cospike_enable = o.cospike_enable;
    cospike_timeout = o.cospike_timeout;
    tohost_addr = get_tohost_addr s;
    fromhost_addr = get_fromhost_addr s;
    mem0_base = info.mem0_base;
    mem0_size = info.mem0_size;
    magic_addrs = [];
    dtm = dtm;
    spike_loadarch_done = false;
  }

  -- `cospike_cosim` while there is no simulator, which is still so after it where the result has no
  -- variables. `backing` is `none` while `memory_init` has not run.
  unfoldable pub cospike_cosim_first :
      (ℕ → Core S)
      → Commit
      → Option SystemInfo
      → CospikeOptions
      → Option (Bool × List LoadarchState)
      → Option (List (ℕ × Backing))
      → Run (ℕ × Option (Globals S))
  unfolding configure cospike_cosim
  cospike_cosim_first get_core i none o dtm backing = stop aborted
  cospike_cosim_first get_core i (some info) o dtm none = done (0, none)
  cospike_cosim_first get_core i (some info) o dtm (some regions) =
      let run = (do
        s ← configure get_core i.hartid o.cospike_debug info regions
        (rval, g) ← cospike_cosim get_core i (globals_with o dtm info s)
        done (rval, some g)) in
      if o.cospike_enable then run else done (0, none)
