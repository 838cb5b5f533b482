-- ===== src/Cospike/Pending.antt =====
-- The external interrupt that the co-simulation makes pending for the time of a step, and the
-- simulator that a timeout deletes.
use uart_tsi.Base.{
  ℕ, ◌/◌, ◌%◌, ◌^◌, ◌<◌, ◌≡◌, refl, ap, ◌∙◌, Bool, true, false, ◌&&◌, not, List, [], ◌∷◌,
  if◌then◌else◌, ltb, ◌==◌, arith, Bool-cases, inl, inr, done, stop, undefined,
}
use uart_tsi.Cospike.Core.{Core, Commit, Globals, Sim, live, deleted, RegWrite, mip_seip, has_seip}
use uart_tsi.Cospike.Interrupt.{raise, interrupt, advance, lower}
use uart_tsi.Cospike.Writes.{
  Verdict, passes, fails, and_then, is_scalar, csr_read, csr_addr, is_own, is_status, is_tval,
  ignore_read, check_scalar, check_write, check_writes, see_stores, rd_of,
}
use uart_tsi.Cospike.Cosim.{conclude, compare_step, after_ladder, with_sim, cospike_cosim}
use uart_tsi.Cospike.Agree.{CoreLaws, IsRunning, cospike_cosim-running, see_stores-kept}

abbrev Lowered : {S : Type 0} → Core S → S → Type 0
Lowered core s = has_seip (core.mip s) ≡ false

-- The simulator is there, and the external interrupt is not pending.
abbrev pub IsLowered : {S : Type 0} → Core S → Sim S → Type 0
IsLowered core (live s) = has_seip (core.mip s) ≡ false
IsLowered core deleted = ⊥

abbrev BothLowered : {S : Type 0} → Core S → Verdict S → Type 0
BothLowered core (passes s) = Lowered core s
BothLowered core (fails s) = Lowered core s

BothLowered-if :
    {S : Type 0} (core : Core S) (b : Bool) (v w : Verdict S)
    → BothLowered core v
    → BothLowered core w
    → BothLowered core (if b then v else w)
BothLowered-if core true v w h k = h
BothLowered-if core false v w h k = k

module _ {S : Type 0} (core : Core S) (laws : CoreLaws core) where
  check_scalar-Lowered :
      (g : Globals S) (i : Commit) (r : RegWrite) (s : S)
      → (csr_read i.insn && is_status (csr_addr i.insn)) ≡ false
      → Lowered core s
      → BothLowered core (check_scalar core g i r s)
  unfolding check_scalar
  check_scalar-Lowered g i r s no_status h =
      let written : Lowered core (core.write_xpr (rd_of r) i.wdata s) =
        laws.seip_xpr (rd_of r) i.wdata s ∙ h in
      rw no_status (
        BothLowered-if core (csr_read i.insn && is_own (csr_addr i.insn)) (passes _) _ written (
          BothLowered-if core (csr_read i.insn && is_tval (csr_addr i.insn)) (passes _) _ written (
            BothLowered-if core (ignore_read core g i s) (passes _) _ written
              (BothLowered-if core (i.wdata == r.value) (passes s) (fails s) h h))))

  and_then-Lowered :
      (v : Verdict S) (k : S → Verdict S)
      → BothLowered core v
      → ((s : S) → Lowered core s → BothLowered core (k s))
      → BothLowered core (and_then v k)
  and_then-Lowered (passes s) k h l = l s h
  and_then-Lowered (fails s) k h l = h

  check_writes-Lowered :
      (g : Globals S) (i : Commit) (rs : List RegWrite) (s : S)
      → (csr_read i.insn && is_status (csr_addr i.insn)) ≡ false
      → Lowered core s
      → BothLowered core (check_writes core g i rs s)
  unfolding check_writes check_write
  check_writes-Lowered g i [] s n h = h
  check_writes-Lowered g i (r ∷ rs) s n h =
      and_then-Lowered _ _
        (BothLowered-if core (is_scalar r) _ (passes s) (check_scalar-Lowered g i r s n h) h)
        (λ s' h'. check_writes-Lowered g i rs s' n h')

conclude-Lowered :
    {S : Type 0} (core : Core S) (get_core : ℕ → Core S) (g : Globals S) (v : Verdict S)
    → BothLowered core v
    → IsLowered core (conclude get_core g v).1.sim
unfolding conclude
conclude-Lowered core get_core g (passes s) h = h
conclude-Lowered core get_core g (fails s) h = h

compare_step-Lowered :
    {S : Type 0} (get_core : ℕ → Core S) (s_pc : ℕ) (i : Commit) (s : S) (g : Globals S)
    → CoreLaws (get_core i.hartid)
    → (csr_read i.insn && is_status (csr_addr i.insn)) ≡ false
    → Lowered (get_core i.hartid) s
    → IsLowered (get_core i.hartid) (compare_step get_core s_pc i s g).1.sim
unfolding compare_step
compare_step-Lowered get_core s_pc i s g laws n h =
    let core = get_core i.hartid in
    let seen = see_stores core i.hartid (core.mem_writes s) s g in
    let kept : Lowered core seen.0 =
      see_stores-kept core (λ s'. has_seip (core.mip s')) (laws.seip_msip 0) (laws.seip_mtip 0)
        i.hartid (core.mem_writes s) s g
      ∙ h in
    elim (Bool-cases (i.valid && not i.raise_exception)) [
      | inr off ↦ rw off h
      | inl on ↦ elim (Bool-cases (s_pc == i.iaddr)) [
        | inr off ↦ rw (on, off) h
        | inl at_ ↦
            rw (on, at_)
              (conclude-Lowered core get_core seen.1
                (check_writes core seen.1 i (core.reg_writes s) seen.0)
                (check_writes-Lowered core laws seen.1 i (core.reg_writes s) seen.0 n kept))
      ]
    ]

raised_step :
    {S : Type 0} (get_core : ℕ → Core S) (i : Commit) (g : Globals S) (s : S)
    → i.raise_interrupt ≡ true
    → i.cause % 2 ^ 63 ≡ 9
    → has_seip ((get_core i.hartid).mip s) ≡ false
    → let core : Core S = get_core i.hartid in
      after_ladder get_core (core.pc s) i (raise core i s) s g
      ≡ compare_step get_core
          (core.pc s)
          i
          (core.write_mip mip_seip 0 (advance core i (core.write_mip mip_seip mip_seip s)))
          g
unfolding after_ladder raise interrupt lower
raised_step get_core i g s raised cause_ idle = rw (raised, cause_, idle) refl

-- A call that raises a supervisor's external interrupt which is not pending in the simulator
-- returns, and with the simulator there and the interrupt not pending again, whatever the
-- simulator's step does. It holds with the co-simulation on, outside debug mode and before the
-- timeout, where the instruction is not an access to a status CSR and the simulator keeps the
-- pending bits apart.
pub cosim_unset :
    {S : Type 0} (get_core : ℕ → Core S) (i : Commit) (g : Globals S) (s : S) (spike_done : Bool)
    (s' : S)
    → CoreLaws (get_core i.hartid)
    → IsRunning get_core i g s spike_done s'
    → i.raise_interrupt ≡ true
    → i.cause % 2 ^ 63 ≡ 9
    → has_seip ((get_core i.hartid).mip s') ≡ false
    → (csr_read i.insn && is_status (csr_addr i.insn)) ≡ false
    → (rval : ℕ) × (g' : Globals S) × (cospike_cosim get_core i g ≡ done (rval, g'))
      × IsLowered (get_core i.hartid) g'.sim
cosim_unset get_core i g s spike_done s' laws running raised cause_ idle n =
    let core = get_core i.hartid in
    let g₀ = record g { spike_loadarch_done = spike_done } in
    let s₁ = core.write_mip mip_seip mip_seip s' in
    let s₂ = core.write_mip mip_seip 0 (advance core i s₁) in
    let low : Lowered core s₂ = laws.seip_written 0 (advance core i s₁) ∙ refl in
    let (rval, g') = compare_step get_core (core.pc s') i s₂ g₀ in
    (
      rval,
      g',
      cospike_cosim-running get_core i g s spike_done s' running
          ∙ ap done (raised_step get_core i g₀ s' raised cause_ idle),
      compare_step-Lowered get_core (core.pc s') i s₂ g₀ laws n low,
    )

-- The first call after the timeout deletes the simulator and returns 0; every later one that is
-- made with the co-simulation on and outside debug mode uses it again, at any cycle, which is
-- undefined behaviour.
pub cosim_deleted :
    {S : Type 0} (get_core : ℕ → Core S) (i j : Commit) (g : Globals S) (s : S)
    → g.cospike_enable ≡ true
    → g.sim ≡ live s
    → i.priv / 4 % 2 ≡ 0
    → j.priv / 4 % 2 ≡ 0
    → 0 < g.cospike_timeout
    → g.cospike_timeout < i.cycle
    → (g' : Globals S) × (cospike_cosim get_core i g ≡ done (0, g'))
      × (cospike_cosim get_core j g' ≡ stop undefined)
unfolding cospike_cosim with_sim
cosim_deleted get_core i j g s on alive pi pj pos late =
    let out : (i.priv / 4 % 2 == 1) ≡ false = ground arith in
    let out' : (j.priv / 4 % 2 == 1) ≡ false = ground arith in
    let set_ : (g.cospike_timeout == 0) ≡ false = ground arith in
    let over_ : ltb g.cospike_timeout i.cycle ≡ true = ground arith in
    (record g { sim = deleted }, rw (on, out, alive, set_, over_) refl, rw (on, out') refl)
