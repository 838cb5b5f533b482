-- ===== src/Blkdev/Sim.antt =====
-- csrc/SimBlockDevice.cc: the device as the simulation calls it.
use uart_tsi.Base.{
  ℕ, Bool, true, false, not, Option, none, some, List, [], ◌∷◌, is_empty, Run, done, ◌>>=◌,
}
use uart_tsi.Blkdev.{Block, Data, Inputs, File, construct, max_req_len, tick, run_round}

-- What the simulation reads back; `none` is an output that is not written.
pub record Outputs : Type 0 where
  pub req_ready : Bool
  pub data_ready : Bool
  pub resp_valid : Bool
  pub resp_bits : Option Data

-- `resp_data()` and `resp_tag()` are the first response's, or zeros.
abbrev pub front : List Data → Data
front [] = record { beat = 0; tag = 0 }
front (r ∷ rs) = r

unfoldable pub outputs : Block → Outputs
outputs b = record {
  req_ready = true;
  data_ready = true;
  resp_valid = not (is_empty b.responses);
  resp_bits = some (front b.responses);
}

-- `bdev` is the global, none before `block_device_init`.
unfoldable pub block_device_init : Option File → ℕ → Run (Block × ℕ × ℕ)
block_device_init file ntags = do b ← construct file ntags; done (b, b.nsectors, max_req_len)

unfoldable pub block_device_tick : Inputs → Option Block → Run (Outputs × Option Block)
unfolding outputs tick run_round
block_device_tick i none =
    done
      (record { req_ready = false; data_ready = false; resp_valid = false; resp_bits = none }, none)
block_device_tick i (some b) = do b' ← run_round (tick i b); done (outputs b', some b')
