-- ===== src/Dtm/Reset.antt =====
-- `testchip_dtm_t` of csrc/testchip_dtm.h and csrc/testchip_dtm.cc: its constructor, its chunk
-- accesses, `load_program` and `reset`.
use uart_tsi.Base.{
  ℕ, zero, suc, ◌+◌, ◌*◌, Bool, true, false, Option, none, some, List, [], ◌∷◌, ◌++◌, if◌then◌else◌,
  ◌==◌, length, drop, is_empty, word_bytes, Run, done, stop, aborted, check, le_bytes, ◌>>=◌, ◌>>◌,
}
use uart_tsi.Base.Text.{Text, codes, starts_with}
use uart_tsi.Htif.{Bus, HtifArgs, default_args, parse_htif_args, perform_init_accesses}
use uart_tsi.Dtm.Encoding.{Command}
use uart_tsi.Dtm.State.{LoadarchState}
use uart_tsi.Dtm.Restore.{run_calls, restore_calls}
use uart_tsi.Dtm.Parse.{line_at, stoull, parse_hart}

-- What `reset` uses of `dtm_t`, over its state `S`. `data_base` is `get_data_base()`.
pub record DebugModule (S : Type 0) : Type 0 where
  pub bus : Bus S
  pub halt : ℕ → S → S
  pub resume : ℕ → S → S
  pub run_abstract_command : Command → S → ℕ × S
  pub data_base : ℕ

-- `testchip_dtm_t`, around the state `S` of `dtm_t`.
pub record TestchipDtm (S : Type 0) : Type 0 where
  pub host : S
  pub has_loadmem : Bool
  pub is_loadmem : Bool
  pub loadarch_file : Text
  pub loadarch_state : List LoadarchState
  pub loadarch_done : Bool
  pub htif : HtifArgs

unfoldable pub parse_dtm_arg : {S : Type 0} → Bool → Text → TestchipDtm S → TestchipDtm S
unfolding starts_with
parse_dtm_arg can_have_loadmem arg t = record t {
  has_loadmem = if starts_with (codes "+loadmem=") arg then can_have_loadmem else t.has_loadmem;
  loadarch_file = if starts_with (codes "+loadarch=") arg then drop 10 arg else t.loadarch_file;
}

unfoldable pub parse_dtm_args : {S : Type 0} → Bool → List Text → TestchipDtm S → TestchipDtm S
unfolding parse_dtm_arg
parse_dtm_args can [] t = t
parse_dtm_args can (arg ∷ args) t = parse_dtm_args can args (parse_dtm_arg can arg t)

-- `args` is `argv` without the program's name.
unfoldable pub construct : {S : Type 0} → Bool → List Text → S → Run (TestchipDtm S)
unfolding parse_dtm_args
construct can args host = do
  htif ← parse_htif_args args default_args
  done (
      parse_dtm_args can args (record {
        host = host;
        has_loadmem = false;
        is_loadmem = false;
        loadarch_file = [];
        loadarch_state = [];
        loadarch_done = false;
        htif = htif;
      }))

module _ {S : Type 0} (dm : DebugModule S) where
  open dm use {bus, halt, resume, run_abstract_command, data_base}

  -- `load_mem_write` and `load_mem_read` do nothing in this class.
  unfoldable pub dtm_write_chunk : ℕ → List ℕ → TestchipDtm S → Run (TestchipDtm S)
  dtm_write_chunk taddr src t =
      if t.is_loadmem
      then done t
      else do s ← bus.write_chunk taddr src t.host; done (record t { host = s })

  -- `dst` is what the buffer holds before the call.
  unfoldable pub dtm_read_chunk : ℕ → ℕ → List ℕ → TestchipDtm S → Run (List ℕ × TestchipDtm S)
  dtm_read_chunk taddr nbytes dst t =
      if t.is_loadmem
      then done (dst, t)
      else do (bytes, s) ← bus.read_chunk taddr nbytes t.host; done (bytes, record t { host = s })

  -- The virtual functions of the object, as `perform_init_accesses` calls them.
  unfoldable pub dtm_bus : Bus (TestchipDtm S)
  unfolding dtm_write_chunk dtm_read_chunk
  dtm_bus = record {
    write_chunk = dtm_write_chunk;
    read_chunk = λ taddr nbytes t. dtm_read_chunk taddr nbytes [] t;
  }

  -- `mtime` and the hart's `mtimecmp`, then the hart's own registers.
  unfoldable pub load_hart : ℕ → LoadarchState → TestchipDtm S → Run (TestchipDtm S)
  unfolding dtm_write_chunk run_calls restore_calls
  load_hart hartsel st t = do
    t₁ ← dtm_write_chunk 0x200bff8 (le_bytes 8 st.mtime) t
    t₂ ← dtm_write_chunk (0x2004000 + hartsel * 8) (le_bytes 8 st.mtimecmp) t₁
    s ← run_calls run_abstract_command data_base (restore_calls st) (halt hartsel t₂.host)
    done (record t₂ { host = s; loadarch_state = t₂.loadarch_state ++ st ∷ [] })

  -- The loop over the harts, from `hartsel` on with `n` to go. The entries of `loadarch_state`
  -- are written in order.
  unfoldable pub load_harts : ℕ → ℕ → List Text → ℕ → TestchipDtm S → Run (ℕ × TestchipDtm S)
  unfolding load_hart parse_hart
  load_harts zero hartsel lines id t = done (id, t)
  load_harts (suc n) hartsel lines id t = do
    (st, id') ← parse_hart lines id
    t' ← load_hart hartsel st t
    load_harts n (hartsel + 1) lines id' t'

  unfoldable pub resume_harts : ℕ → ℕ → S → S
  resume_harts zero hartsel s = s
  resume_harts (suc n) hartsel s = resume_harts n (hartsel + 1) (resume hartsel s)

  unfoldable pub loadarch : List Text → TestchipDtm S → Run (TestchipDtm S)
  unfolding line_at stoull load_harts resume_harts
  loadarch lines t = do
    s ← line_at lines 0
    nharts ← stoull 0 s
    (id, t') ← load_harts nharts 0 lines 2 (record t { loadarch_state = [] })
    check (id == length lines) aborted
    done (record t' { loadarch_done = true; host = resume_harts nharts 0 t'.host })

  -- `files` gives the lines of a file that can be opened.
  unfoldable pub loadarch_from : Option (List Text) → TestchipDtm S → Run (TestchipDtm S)
  unfolding loadarch
  loadarch_from none t = stop aborted
  loadarch_from (some lines) t = loadarch lines t

  unfoldable pub reset : (Text → Option (List Text)) → TestchipDtm S → Run (TestchipDtm S)
  unfolding dtm_bus loadarch_from
  reset files t = do
    t' ← perform_init_accesses dtm_bus t.htif.init_accesses t
    let msip =
        (if t'.htif.write_hart0_msip then dtm_write_chunk 0x2000000 (word_bytes 1) t' else done t')
    if is_empty t'.loadarch_file then msip else loadarch_from (files t'.loadarch_file) t'

  -- `dtm_load` is the library's, which writes through the object.
  unfoldable pub dtm_load_program :
      (TestchipDtm S → Run (TestchipDtm S)) → TestchipDtm S → Run (TestchipDtm S)
  dtm_load_program dtm_load t = do
    t' ← dtm_load (record t { is_loadmem = t.has_loadmem })
    done (record t' { is_loadmem = false })
