-- ===== src/Cospike/Cosim.antt =====
-- `cospike_cosim` of csrc/cospike_impl.cc, once the simulator has been set up.
use uart_tsi.Base.{
  ℕ, ◌/◌, ◌%◌, ◌&&◌, ◌||◌, not, if◌then◌else◌, ltb, ◌==◌, Run, done, stop, exited, undefined, ◌>>=◌,
}
use uart_tsi.Cospike.Core.{Core, Commit, Globals, Sim, live, deleted}
use uart_tsi.Cospike.Loadarch.{restore_loadarch}
use uart_tsi.Cospike.Interrupt.{Ladder, goes_on, returns, raise, advance, lower}
use uart_tsi.Cospike.Writes.{Verdict, passes, fails, check_writes, see_stores}

module _ {S : Type 0} (get_core : ℕ → Core S) where
  -- What `cospike_cosim` returns, with the variables then.
  abbrev pub Returned : Type 0
  Returned = ℕ × Globals S

  unfoldable pub conclude : Globals S → Verdict S → Returned
  conclude g (passes s) = (0, record g { sim = live s })
  conclude g (fails s) = (1, record g { sim = live s })

  -- `if (valid && !raise_exception)`: `s_pc` is from before the step.
  unfoldable pub compare_step : ℕ → Commit → S → Globals S → Returned
  unfolding conclude see_stores check_writes
  compare_step s_pc i s g =
      let core : Core S = get_core i.hartid in
      let (s₁, g₁) = see_stores core i.hartid (core.mem_writes s) s g in
      if i.valid && not i.raise_exception
      then (if s_pc == i.iaddr
          then conclude g₁ (check_writes core g₁ i (core.reg_writes s) s₁)
          else (1, record g { sim = live s }))
      else (0, record g { sim = live s })

  unfoldable pub after_ladder : ℕ → Commit → Ladder S → S → Globals S → Returned
  unfolding advance lower compare_step
  after_ladder s_pc i (returns n) s g = (n, record g { sim = live s })
  after_ladder s_pc i (goes_on s' unset_seip) s g =
      compare_step s_pc i (lower (get_core i.hartid) unset_seip (advance (get_core i.hartid) i s'))
        g

  unfoldable pub run_commit : Commit → S → Globals S → Run Returned
  unfolding restore_loadarch raise after_ladder
  run_commit i s g = do
    let core = get_core i.hartid
    (spike_done, s') ← restore_loadarch core i.hartid g.dtm g.spike_loadarch_done s
    done (
        after_ladder (core.pc s') i (raise core i s') s'
          (record g { spike_loadarch_done = spike_done }))

  -- A second `delete`, or a use of what was deleted, is undefined.
  unfoldable pub with_sim : Commit → Sim S → Globals S → Run Returned
  unfolding run_commit
  with_sim i deleted g = stop undefined
  with_sim i (live s) g =
      if not (g.cospike_timeout == 0) && ltb g.cospike_timeout i.cycle
      then done (0, record g { sim = deleted })
      else run_commit i s g

  -- `priv & 0x4` is the debug mode.
  unfoldable pub cospike_cosim : Commit → Globals S → Run Returned
  unfolding with_sim
  cospike_cosim i g =
      if not g.cospike_enable || i.priv / 4 % 2 == 1 then done (0, g) else with_sim i g.sim g

  -- csrc/cospike.cc: anything but zero ends the simulation.
  unfoldable pub cospike_cosim_wrapper : Commit → Globals S → Run (Globals S)
  unfolding cospike_cosim
  cospike_cosim_wrapper i g = do
    (rval, g') ← cospike_cosim i g
    if rval == 0 then done g' else stop (exited rval)
