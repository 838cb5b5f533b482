-- ===== src/Cospike/Agree.antt =====
-- When a committed instruction passes the comparison.
use uart_tsi.Base.{
  ℕ, ◌*◌, ◌/◌, ◌%◌, ◌≡◌, refl, ap, ◌∙◌, Bool, true, false, ◌&&◌, ◌||◌, not, List, [], ◌∷◌,
  if◌then◌else◌, ltb, ◌==◌, is_empty, add64, arith, Bool-cases, inl, inr, Run, done, stop, exited,
  ◌>>=◌,
}
use uart_tsi.Cospike.Core.{
  Core, Commit, Globals, live, RegWrite, mip_msip, mip_mtip, has_seip, mip_seip,
}
use uart_tsi.Cospike.Loadarch.{restore_loadarch}
use uart_tsi.Cospike.Interrupt.{raise}
use uart_tsi.Cospike.Writes.{
  passes, fails, is_scalar, is_sc, csr_read, ignore_read, check_scalar, check_writes, see_stores,
}
use uart_tsi.Cospike.Cosim.{
  compare_step, after_ladder, run_commit, with_sim, cospike_cosim, cospike_cosim_wrapper,
}

-- What the simulator documents of its state: the writes that the co-simulation makes by itself
-- leave the log of reads, and change of the pending bits only those of their mask.
pub record CoreLaws {S : Type 0} (core : Core S) : Type 0 where
  pub reads_kept : (m v : ℕ) (s : S) → core.mem_reads (core.write_mip m v s) ≡ core.mem_reads s
  pub seip_written :
      (v : ℕ) (s : S) → has_seip (core.mip (core.write_mip mip_seip v s)) ≡ has_seip v
  pub seip_msip :
      (v : ℕ) (s : S) → has_seip (core.mip (core.write_mip mip_msip v s)) ≡ has_seip (core.mip s)
  pub seip_mtip :
      (v : ℕ) (s : S) → has_seip (core.mip (core.write_mip mip_mtip v s)) ≡ has_seip (core.mip s)
  pub seip_xpr :
      (n w : ℕ) (s : S) → has_seip (core.mip (core.write_xpr n w s)) ≡ has_seip (core.mip s)

-- Neither an access to a CSR nor a conditional store
abbrev pub is_plain : ℕ → Bool
is_plain insn = not (csr_read insn) && not (is_sc insn)

-- Every scalar register that is written gets `w`.
abbrev pub all_agree : ℕ → List RegWrite → Bool
all_agree w [] = true
all_agree w (r ∷ rs) = (not (is_scalar r) || w == r.value) && all_agree w rs

if-kept {ℓ κ} :
    {A : Type ℓ} {X : Type κ} (o : A → X) (b : Bool) {a' a : A}
    → o a' ≡ o a
    → o (if b then a' else a) ≡ o a
if-kept o true h = h
if-kept o false h = refl

module _ {S : Type 0} (core : Core S) where
  check_writes_plain :
      (g : Globals S) (i : Commit) (rs : List RegWrite) (s : S)
      → csr_read i.insn ≡ false
      → is_sc i.insn ≡ false
      → is_empty (core.mem_reads s) ≡ true
      → check_writes core g i rs s ≡ (if all_agree i.wdata rs then passes s else fails s)
  unfolding check_writes check_scalar ignore_read
  check_writes_plain g i [] s c sc e = refl
  check_writes_plain g i (r ∷ rs) s c sc e = elim (Bool-cases (is_scalar r)) [
    | inr off ↦ rw off (check_writes_plain g i rs s c sc e)
    | inl on ↦ elim (Bool-cases (i.wdata == r.value)) [
      | inl same ↦ rw (on, c, sc, e, same) (check_writes_plain g i rs s c sc e)
      | inr other ↦ rw (on, c, sc, e, other) refl
    ]
  ]

  -- What no change of the two pending bits changes is kept over the stores.
  pub see_stores-kept {ℓ} :
      {X : Type ℓ} (o : S → X)
      → ((s : S) → o (core.write_mip mip_msip 0 s) ≡ o s)
      → ((s : S) → o (core.write_mip mip_mtip 0 s) ≡ o s)
      → (hartid : ℕ) (ws : List (ℕ × ℕ)) (s : S) (g : Globals S)
      → o (see_stores core hartid ws s g).0 ≡ o s
  unfolding see_stores
  see_stores-kept o km kt hartid [] s g = refl
  see_stores-kept o km kt hartid ((a, w) ∷ ws) s g =
      see_stores-kept o km kt hartid ws _ _
      ∙ if-kept o (a == add64 0x2004000 (4 * hartid)) (kt _)
      ∙ if-kept o (a == add64 0x2000000 (4 * hartid) && w == 0) (km s)

-- A call with the co-simulation on, outside debug mode and before the timeout, and what it does
-- about the debug transport's state.
abbrev pub IsRunning : {S : Type 0} → (ℕ → Core S) → Commit → Globals S → S → Bool → S → Type 0
IsRunning get_core i g s spike_done s' =
    (g.cospike_enable ≡ true)
    × (i.priv / 4 % 2 ≡ 0)
    × (g.sim ≡ live s)
    × ((not (g.cospike_timeout == 0) && ltb g.cospike_timeout i.cycle) ≡ false)
    × (restore_loadarch (get_core i.hartid) i.hartid g.dtm g.spike_loadarch_done s
        ≡ done (spike_done, s'))

pub cospike_cosim-running :
    {S : Type 0} (get_core : ℕ → Core S) (i : Commit) (g : Globals S) (s : S) (spike_done : Bool)
    (s' : S)
    → IsRunning get_core i g s spike_done s'
    → cospike_cosim get_core i g
      ≡ done (
          after_ladder get_core
            ((get_core i.hartid).pc s')
            i
            (raise (get_core i.hartid) i s')
            s'
            (record g { spike_loadarch_done = spike_done }))
unfolding cospike_cosim
cospike_cosim-running get_core i g s spike_done s' (on, nodebug, alive, early, restored) =
    let out : (i.priv / 4 % 2 == 1) ≡ false = ground arith in
    rw (on, out, alive) (rw (with_sim, early) (rw (run_commit, restored) refl))

-- The simulator after its step for an instruction that is committed without an interrupt.
abbrev pub stepped : {S : Type 0} → Core S → S → S
stepped core s =
    core.step
      (core.forget_reads (core.clear_waiting_for_interrupt (core.clear_waiting_for_interrupt s)))

-- `if (rval) exit(rval)`
abbrev ended : {S : Type 0} → ℕ × Globals S → Run (Globals S)
ended r = if r.0 == 0 then done r.1 else stop (exited r.0)

neither : (a b : Bool) → (not a && not b) ≡ true → (a ≡ false) × (b ≡ false)
neither false false h = (refl, refl)
neither false true h = cc
neither true b h = cc

after_ladder-plain :
    {S : Type 0} (get_core : ℕ → Core S) (s_pc : ℕ) (i : Commit) (s : S) (g : Globals S)
    → i.valid ≡ true
    → i.raise_exception ≡ false
    → i.raise_interrupt ≡ false
    → after_ladder get_core s_pc i (raise (get_core i.hartid) i s) s g
      ≡ compare_step get_core s_pc i (stepped (get_core i.hartid) s) g
unfolding after_ladder raise
after_ladder-plain get_core s_pc i s g v x n = rw (n, v) refl

ended-compare_step :
    {S : Type 0} (get_core : ℕ → Core S) (s_pc : ℕ) (i : Commit) (s : S) (g : Globals S)
    → CoreLaws (get_core i.hartid)
    → i.valid ≡ true
    → i.raise_exception ≡ false
    → csr_read i.insn ≡ false
    → is_sc i.insn ≡ false
    → is_empty ((get_core i.hartid).mem_reads s) ≡ true
    → let core : Core S = get_core i.hartid in
      let seen : S × Globals S = see_stores core i.hartid (core.mem_writes s) s g in
      ended (compare_step get_core s_pc i s g) ≡ (
        if s_pc == i.iaddr && all_agree i.wdata (core.reg_writes s)
        then done (record (seen.1) { sim = live seen.0 })
        else stop (exited 1))
unfolding compare_step
ended-compare_step get_core s_pc i s g laws v x c sc e =
    let core : Core _ = get_core i.hartid in
    let seen = see_stores core i.hartid (core.mem_writes s) s g in
    let kept : is_empty (core.mem_reads seen.0) ≡ true =
      ap is_empty (
        see_stores-kept core core.mem_reads (laws.reads_kept mip_msip 0)
          (laws.reads_kept mip_mtip 0) i.hartid (core.mem_writes s) s g)
      ∙ e in
    let checked = check_writes_plain core seen.1 i (core.reg_writes s) seen.0 c sc kept in
    elim (Bool-cases (s_pc == i.iaddr)) [
      | inr off ↦ rw (v, x, off) refl
      | inl at_ ↦ elim (Bool-cases (all_agree i.wdata (core.reg_writes s))) [
        | inl all ↦ rw (v, x, at_, checked, all) refl
        | inr some_ ↦ rw (v, x, at_, checked, some_) refl
      ]
    ]

-- An instruction that is committed without an interrupt or an exception, is neither an access to
-- a CSR nor a conditional store, and in the simulator reads no memory: the simulation goes on if
-- the simulator was at the target's address and every scalar register that it writes gets the
-- target's value, and ends with code 1 otherwise. It holds of a call with the co-simulation on,
-- outside debug mode, before the timeout and on a simulator that is there, whose own writes leave
-- the log of reads.
pub cosim_plain :
    {S : Type 0} (get_core : ℕ → Core S) (i : Commit) (g : Globals S) (s : S) (spike_done : Bool)
    (s' : S)
    → CoreLaws (get_core i.hartid)
    → IsRunning get_core i g s spike_done s'
    → i.valid ≡ true
    → i.raise_exception ≡ false
    → i.raise_interrupt ≡ false
    → is_plain i.insn ≡ true
    → is_empty ((get_core i.hartid).mem_reads (stepped (get_core i.hartid) s')) ≡ true
    → let core : Core S = get_core i.hartid in
      let s₁ : S = stepped core s' in
      let seen : S × Globals S =
        see_stores core i.hartid
          (core.mem_writes s₁)
          s₁
          (record g { spike_loadarch_done = spike_done }) in
      cospike_cosim_wrapper get_core i g ≡ (
        if core.pc s' == i.iaddr && all_agree i.wdata (core.reg_writes s₁)
        then done (record (seen.1) { sim = live seen.0 })
        else stop (exited 1))
unfolding cospike_cosim_wrapper
cosim_plain {S = S} get_core i g s spike_done s' laws running valid_ no_exception no_interrupt plain
      e =
    let core : Core S = get_core i.hartid in
    let g₀ : Globals S = record g { spike_loadarch_done = spike_done } in
    let (c, sc) = neither (csr_read i.insn) (is_sc i.insn) plain in
    ap (λ (m : Run (ℕ × Globals S)). m >>= ended)
      (cospike_cosim-running get_core i g s spike_done s' running)
    ∙ ap ended (after_ladder-plain get_core (core.pc s') i s' g₀ valid_ no_exception no_interrupt)
    ∙ ended-compare_step get_core (core.pc s') i (stepped core s') g₀ laws valid_ no_exception c sc
        e
