-- ===== src/Cospike/Configure/First.antt =====
-- The first call of `cospike_cosim`, which sets up the simulator.
use uart_tsi.Base.{
  ℕ, ◌≤◌, ◌<◌, ◌≡◌, refl, ap, sym, ◌∙◌, Bool, true, false, ◌&&◌, not, Option, none, some, List, [],
  ◌∷◌, ◌++◌, if◌then◌else◌, leb, ltb, arith, length, is_empty, All, ◌⊎◌, inl, inr, done, stop,
  aborted, threw, check, >>=-eq-done, done-injective, check-done,
}
use mathlib.Core.Option.{some-injective}
use mathlib.Core.Path.{ap₂}
use uart_tsi.Base.Text.{Text}
use uart_tsi.Permissive.{permissive, permissive_off}
use uart_tsi.Simdram.{Backing}
use uart_tsi.Dtm.State.{LoadarchState}
use uart_tsi.Cospike.Core.{Core, Commit, Globals}
use uart_tsi.Cospike.Cosim.{cospike_cosim}
use uart_tsi.Cospike.Sysinfo.{
  SystemInfo, CospikeOptions, make_info, set_options, cospike_set_sysinfo, is_flag,
}
use uart_tsi.Cospike.Arguments.{set_options-section}
use uart_tsi.Cospike.Configure.{
  Spike, boot_rom_of, config_of, add_devices, devices_with, match_memories, new_sim, configure,
  globals_with, cospike_cosim_first,
}

if-eq {ℓ} :
    {A : Type ℓ} (b : Bool) (x y : A) {a : A}
    → (if b then x else y) ≡ a
    → ((b ≡ true) × (x ≡ a)) ⊎ ((b ≡ false) × (y ≡ a))
if-eq true x y h = inl (refl, h)
if-eq false x y h = inr (refl, h)

boot_rom_of-done :
    (bootrom : List ℕ) {rom_ : List ℕ} → boot_rom_of bootrom ≡ done rom_ → length bootrom < 0x10000
unfolding boot_rom_of
boot_rom_of-done bootrom {rom_} h =
    let (u, e, h') = >>=-eq-done (check (ltb (length bootrom) 0x10000) aborted) _ h in
    let small = check-done (ltb (length bootrom) 0x10000) aborted e in ground arith

new_sim-done :
    {S : Type 0} (spike : Spike S) (info : SystemInfo) (regions : List (ℕ × Backing)) {s : S}
    → new_sim spike info regions ≡ done s
    → (length info.bootrom < 0x10000)
      × (is_empty info.htif_args ≡ false)
      × (3 ≤ info.maxpglevels)
      × (info.maxpglevels ≤ 5)
unfolding new_sim
new_sim-done spike info regions {s} h =
    let (r, e, h') = >>=-eq-done (boot_rom_of info.bootrom) _ h in
    let (u, e', h'') = >>=-eq-done (check (not (is_empty info.htif_args)) threw) _ h' in
    let given = check-done (not (is_empty info.htif_args)) threw e' in
    let (s₀, e₀, h₀) = >>=-eq-done (spike.make_sim (config_of info) info.htif_args) _ h'' in
    let (s₁, e₁, h₁) =
      >>=-eq-done (match_memories spike regions (add_devices spike (devices_with r) s₀)) _ h₀ in
    let (u', e'', h₂) =
      >>=-eq-done (check (leb 3 info.maxpglevels && leb info.maxpglevels 5) aborted) _ h₁ in
    let levels = check-done (leb 3 info.maxpglevels && leb info.maxpglevels 5) aborted e'' in
    (boot_rom_of-done info.bootrom e, ground arith, ground arith, ground arith)

configure-done :
    {S : Type 0} (spike : Spike S) (get_core : ℕ → Core S) (hartid : ℕ) (debug : Bool)
    (info : SystemInfo) (regions : List (ℕ × Backing)) {s : S}
    → configure spike get_core hartid debug info regions ≡ done s
    → (length info.bootrom < 0x10000)
      × (is_empty info.htif_args ≡ false)
      × (3 ≤ info.maxpglevels)
      × (info.maxpglevels ≤ 5)
unfolding configure
configure-done spike get_core hartid debug info regions {s} h =
    let (s₁, e, h') = >>=-eq-done (new_sim spike info regions) _ h in
    new_sim-done spike info regions e

-- Without arguments for the host interface
new_sim-threw :
    {S : Type 0} (spike : Spike S) (info : SystemInfo) (regions : List (ℕ × Backing))
    → length info.bootrom < 0x10000
    → info.htif_args ≡ []
    → new_sim spike info regions ≡ stop threw
unfolding new_sim boot_rom_of
new_sim-threw spike info regions small empty_ =
    let small' : ltb (length info.bootrom) 0x10000 ≡ true = ground arith in rw (small', empty_) refl

-- Arguments of the simulation that all stand in one permissive section, which begins with the first
-- of them and ends with the last, leave none for the host interface: where `cospike_set_sysinfo`
-- returns for them, with a boot ROM below 64 KB, the co-simulation on and the memories made, the
-- first call of `cospike_cosim` ends by a C++ exception.
pub first_call-threw :
    {S : Type 0} (spike : Spike S) (get_core : ℕ → Core S) (i : Commit) (o : CospikeOptions)
    (isa priv bootrom : Text) (target : SystemInfo) (section : List Text)
    (dtm : Option (Bool × List LoadarchState)) (regions : List (ℕ × Backing)) {info : SystemInfo}
    {o' : CospikeOptions}
    → All (λ arg. is_flag arg ≡ false) section
    → cospike_set_sysinfo none o isa priv bootrom target
        (permissive ∷ (section ++ permissive_off ∷ []))
      ≡ done (info, o')
    → o'.cospike_enable ≡ true
    → length info.bootrom < 0x10000
    → cospike_cosim_first spike get_core i (some info) o' dtm (some regions) ≡ stop threw
unfolding cospike_set_sysinfo cospike_cosim_first configure
first_call-threw spike get_core i o isa priv bootrom target section dtm regions {info} {o'} inside
      set_ on small =
    let o₀ : CospikeOptions = record o {
      in_permissive = false;
      cospike_debug = false;
      htif_args = [];
    } in
    let args : List Text = permissive ∷ (section ++ permissive_off ∷ []) in
    let (info₀, e, h) = >>=-eq-done (make_info isa priv bootrom target) _ set_ in
    let same : record info₀ { htif_args = (set_options args o₀).htif_args } ≡ info =
      ap (λ (r : SystemInfo × CospikeOptions). r.0) (done-injective h) in
    let empty_ : info.htif_args ≡ [] =
      sym (ap (λ (r : SystemInfo). r.htif_args) same)
      ∙ set_options-section [] section [] o₀ refl tt inside tt in
    rw (on, new_sim-threw spike info regions small empty_) refl

-- A first call that leaves a simulator: the co-simulation is on, the memories have been made, the
-- boot ROM is below 64 KB, the host interface has arguments and the target three to five levels of
-- page tables; the rest of the call is a later call's, on the simulator as it is set up.
pub first_call-some :
    {S : Type 0} (spike : Spike S) (get_core : ℕ → Core S) (i : Commit) (info : SystemInfo)
    (o : CospikeOptions) (dtm : Option (Bool × List LoadarchState))
    (backing : Option (List (ℕ × Backing))) {rval : ℕ} {g : Globals S}
    → cospike_cosim_first spike get_core i (some info) o dtm backing ≡ done (rval, some g)
    → (o.cospike_enable ≡ true)
      × (length info.bootrom < 0x10000)
      × (is_empty info.htif_args ≡ false)
      × (3 ≤ info.maxpglevels)
      × (info.maxpglevels ≤ 5)
      × ((regions : List (ℕ × Backing)) × (s : S) × (backing ≡ some regions)
          × (configure spike get_core i.hartid o.cospike_debug info regions ≡ done s)
          × (cospike_cosim get_core i (globals_with spike o dtm info s) ≡ done (rval, g)))
unfolding cospike_cosim_first
first_call-some {S} spike get_core i info o dtm none {rval} {g} h = cc
first_call-some {S} spike get_core i info o dtm (some regions) {rval} {g} h =
    elim (if-eq o.cospike_enable _ _ h) [
      | inl (on, h₀) ↦
          let (s, e, h') =
            >>=-eq-done (configure spike get_core i.hartid o.cospike_debug info regions) _ h₀ in
          let (r, e', h'') =
            >>=-eq-done (cospike_cosim get_core i (globals_with spike o dtm info s)) _ h' in
          let same : (r.0, some r.1) ≡ (rval, some g) = done-injective h'' in
          let (small, given, low, high) =
            configure-done spike get_core i.hartid o.cospike_debug info regions e in
          let num : r.0 ≡ rval = ap (λ (q : ℕ × Option (Globals S)). q.0) same in
          let vars : r.1 ≡ g =
            some-injective r.1 g (ap (λ (q : ℕ × Option (Globals S)). q.1) same) in
          (
            on,
            small,
            given,
            low,
            high,
            (regions, s, refl, e, e' ∙ ap done (ap₂ (λ (n : ℕ) (q : Globals S). (n, q)) num vars)),
          )
      | inr (off, h₀) ↦ cc
    ]
