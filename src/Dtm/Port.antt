-- ===== src/Dtm/Port.antt =====
-- csrc/TestchipSimDTM.cc: the debug transport's signals.
use uart_tsi.Base.{
  ℕ, ◌+◌, ◌*◌, Bool, true, Option, none, some, List, if◌then◌else◌, Run, done, ◌>>=◌,
}
use uart_tsi.Base.Text.{Text}
use uart_tsi.Dtm.Reset.{TestchipDtm, construct}

-- The inputs of `debug_tick`.
pub record DebugInputs : Type 0 where
  pub debug_req_ready : Bool
  pub debug_resp_valid : Bool
  pub debug_resp_bits_resp : ℕ
  pub debug_resp_bits_data : ℕ

-- What it writes and returns.
pub record DebugOutputs : Type 0 where
  pub debug_resp_ready : Bool
  pub debug_req_valid : Bool
  pub debug_req_bits_addr : ℕ
  pub debug_req_bits_op : ℕ
  pub debug_req_bits_data : ℕ
  pub code : ℕ

-- What `debug_tick` uses of `dtm_t`, over its state.
pub record DtmPort (S : Type 0) : Type 0 where
  pub tick : DebugInputs → S → S
  pub resp_ready : S → Bool
  pub req_valid : S → Bool
  pub req_addr : S → ℕ
  pub req_op : S → ℕ
  pub req_data : S → ℕ
  pub is_done : S → Bool
  pub exit_code : S → ℕ

-- `if (!dtm)`: `args` are the arguments without the program's name, and `host` is what the
-- library's constructor makes.
unfoldable pub dtm_of : {S : Type 0} → List Text → S → Option (TestchipDtm S) → Run (TestchipDtm S)
unfolding construct
dtm_of args host none = construct true args host
dtm_of args host (some t) = done t

module _ {S : Type 0} (port : DtmPort S) where
  unfoldable pub debug_outputs : S → DebugOutputs
  debug_outputs s = record {
    debug_resp_ready = port.resp_ready s;
    debug_req_valid = port.req_valid s;
    debug_req_bits_addr = port.req_addr s;
    debug_req_bits_op = port.req_op s;
    debug_req_bits_data = port.req_data s;
    code = if port.is_done s then port.exit_code s * 2 + 1 else 0;
  }

  unfoldable pub debug_tick :
      List Text → S → DebugInputs → Option (TestchipDtm S) → Run (DebugOutputs × TestchipDtm S)
  unfolding dtm_of debug_outputs
  debug_tick args host i dtm = do
    t ← dtm_of args host dtm
    let s = port.tick i t.host
    done (debug_outputs s, record t { host = s })
