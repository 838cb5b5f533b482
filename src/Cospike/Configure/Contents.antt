-- ===== src/Cospike/Configure/Contents.antt =====
-- The setting up of the simulator in `cospike_cosim`, up to the loop over the harts.
use uart_tsi.Base.{
  ℕ, ◌<◌, ◌≤◌, ◌≡◌, refl, ◌∙◌, ◌&&◌, leb, true, false, List, [], ◌∷◌, ◌++◌, arith, ltb, length,
  replicate, is_empty, All, done, ◌-◌,
}
use uart_tsi.Base.Memory.{bytes_at}
use uart_tsi.Simdram.{Backing}
use uart_tsi.Cospike.Sysinfo.{SystemInfo}
use uart_tsi.Cospike.Configure.{
  Spike, SimDevice, config_of, boot_rom_of, devices_with, add_devices, new_sim,
}
use uart_tsi.Cospike.Configure.Matching.{
  MemsLaws, Disjoint, IsOutside, held-kept, match_memories-contents,
}

-- What the library documents of `add_device`: it leaves the memories.
pub record DeviceLaws {S : Type 0} (spike : Spike S) (laws : MemsLaws spike) : Type 0 where
  pub memory_kept :
      (base : ℕ) (d : SimDevice) (s : S) (x : ℕ)
      → laws.memory (spike.add_device base d s) x ≡ laws.memory s x
  pub holds_kept :
      (base : ℕ) (d : SimDevice) (s : S) (b n : ℕ)
      → laws.holds b n (spike.add_device base d s) ≡ laws.holds b n s

module _ {S : Type 0} (spike : Spike S) (laws : MemsLaws spike) (dev : DeviceLaws spike laws) where
  add_devices-memory :
      (ds : List (ℕ × SimDevice)) (s : S) (x : ℕ)
      → laws.memory (add_devices spike ds s) x ≡ laws.memory s x
  unfolding add_devices
  add_devices-memory [] s x = refl
  add_devices-memory ((base, d) ∷ ds) s x =
      add_devices-memory ds (spike.add_device base d s) x ∙ dev.memory_kept base d s x

  add_devices-holds :
      (ds : List (ℕ × SimDevice)) (s : S) (b n : ℕ)
      → laws.holds b n (add_devices spike ds s) ≡ laws.holds b n s
  unfolding add_devices
  add_devices-holds [] s b n = refl
  add_devices-holds ((base, d) ∷ ds) s b n =
      add_devices-holds ds (spike.add_device base d s) b n ∙ dev.holds_kept base d s b n

  -- With a boot ROM below 64 KB, arguments for the host interface, three to five levels of page
  -- tables, and a library that makes a simulator from the configuration, whose memories hold the
  -- target's regions: where these do not overlap, the setting up reaches the loop over the harts. The simulator's memory then has the
  -- bytes of every region of the target at its place, and an address outside of all regions is as
  -- the library has made it.
  pub new_sim-contents :
      (info : SystemInfo) (regions : List (ℕ × Backing)) (s₀ : S) (x : ℕ)
      → length info.bootrom < 0x10000
      → is_empty info.htif_args ≡ false
      → 3 ≤ info.maxpglevels
      → info.maxpglevels ≤ 5
      → spike.make_sim (config_of info) info.htif_args ≡ done s₀
      → All (λ r. laws.holds r.0 r.1.size s₀ ≡ true) regions
      → Disjoint regions
      → All (IsOutside x) regions
      → (s : S) × (new_sim spike info regions ≡ done s)
        × All (λ r. bytes_at (laws.memory s) r.0 r.1.size ≡ bytes_at r.1.bytes 0 r.1.size) regions
        × (laws.memory s x ≡ laws.memory s₀ x)
  unfolding new_sim boot_rom_of
  new_sim-contents info regions s₀ x small given low high made held apart_ out =
      let boot_rom : List ℕ = info.bootrom ++ replicate (0x10000 - length info.bootrom) 0 in
      let s₁ : S = add_devices spike (devices_with boot_rom) s₀ in
      let levels : (leb 3 info.maxpglevels && leb info.maxpglevels 5) ≡ true = ground arith in
      let small' : ltb (length info.bootrom) 0x10000 ≡ true = ground arith in
      let (s, e, contents, outside) =
        match_memories-contents spike laws regions s₁ x
          (held-kept laws s₀ s₁ (add_devices-holds (devices_with boot_rom) s₀) regions held) apart_
          out in
      (
        s,
        rw (small', given, made, e, levels) refl,
        contents,
        outside ∙ add_devices-memory (devices_with boot_rom) s₀ x,
      )
