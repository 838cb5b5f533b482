-- ===== src/Simdram/ChannelTests.antt =====
-- A memory of 32 bytes, each holding its own address, that is read in two beats and written meanwhile.
use uart_tsi.Base.{ℕ, ◌≡◌, refl, true, false, List, [], ◌∷◌, ◌++◌, map, done}
use uart_tsi.Base.Memory.{bytes_at}
use uart_tsi.Mm.{Rresp, Magic, Axi, tick, ar_step, read, pop}
use uart_tsi.Dramsim.Tick.{Event, read_done, MemorySystem, Dram}
use uart_tsi.Dramsim.Tick
use uart_tsi.Simdram.DramReads.{dram_adds, dram_tick-rresp}
use uart_tsi.Simdram.Channel.{AxiOut, magic_object, run_channel, axi_outputs}
use uart_tsi.Simdram.Delivery.{expected, beat_of, run_channel-received}
use uart_tsi.Simdram.MagicReads.{magic_laws}

abbrev idle : Magic
idle = record {
  mm = record { bytes = λ x. x; mem_base = 0; mem_size = 32; word_size = 8 };
  store_inflight = false;
  store_addr = 0;
  store_id = 0;
  store_size = 0;
  store_count = 0;
  bresp = [];
  rresp = [];
  cycle = 0;
}

abbrev quiet : Axi
quiet = record {
  reset = false;
  ar_valid = false;
  ar_addr = 0;
  ar_id = 0;
  ar_len = 0;
  aw_valid = false;
  aw_addr = 0;
  aw_id = 0;
  aw_size = 0;
  aw_len = 0;
  w_valid = false;
  w_strb = 0;
  w_data = λ i. 0;
  w_last = false;
  r_ready = true;
  b_ready = false;
}

-- Two words from 8 on
abbrev ask : Axi
ask = record quiet { ar_valid = true; ar_addr = 8; ar_id = 3; ar_len = 1 }

abbrev inputs : List (Axi × ℕ)
inputs = (ask, 3) ∷ (record quiet { r_ready = false }, 3) ∷ (quiet, 3) ∷ []

abbrev shown_at_first : AxiOut
shown_at_first = axi_outputs magic_object 0 idle

abbrev word_8 : Rresp
word_8 = record { id = 3; word = bytes_at (λ x. x) 8 8; last = false }

abbrev word_16 : Rresp
word_16 = record { id = 3; word = bytes_at (λ x. x) 16 8; last = true }

-- Of the two beats the first is taken by the third call; the other is still queued.
one_taken :
    run_channel magic_object inputs shown_at_first idle
    ≡ done (beat_of word_8 ∷ [], record idle { rresp = word_16 ∷ []; cycle = 3 })
unfolding run_channel magic_object tick ar_step read axi_outputs
one_taken = refl

run_channel-received_example :
    (taken : List Rresp) × (beat_of word_8 ∷ [] ≡ map beat_of taken)
    × (taken ++ word_16 ∷ [] ≡ [] ++ expected magic_object magic_laws inputs idle)
unfolding magic_object axi_outputs
run_channel-received_example =
    run_channel-received magic_object magic_laws inputs shown_at_first idle
      (refl, (refl, (refl, tt))) refl one_taken

-- A timing simulator that has completed a read of word 16, which waits at its address.
abbrev completing : MemorySystem (List Event)
completing = record {
  will_accept = λ m. false;
  add_transaction = λ is_write a m. m;
  update = λ m. (m, []);
}

abbrev waiting : Dram (List Event)
waiting = record {
  mm = record { bytes = λ x. x; mem_base = 0; mem_size = 32; word_size = 8 };
  mem = read_done 16 ∷ [];
  cycle = 0;
  store_inflight = false;
  store_addr = 0;
  store_id = 0;
  store_size = 0;
  store_count = 0;
  bresp = [];
  wreq = [];
  rreq = (16, record { id = 3; size = 8; len = 1; addr = 16 } ∷ []) ∷ [];
  rresp = word_8 ∷ [];
  read_id_busy = false ∷ false ∷ false ∷ true ∷ [];
  write_id_busy = [];
  rreq_queue = [];
}

abbrev completed : Dram (List Event)
completed = record waiting {
  mem = [];
  cycle = 1;
  rreq = (16, []) ∷ [];
  rresp = word_16 ∷ [];
  read_id_busy = false ∷ false ∷ false ∷ false ∷ [];
}

completes_one : Tick.tick completing quiet 3 waiting ≡ done completed
unfolding Tick.tick read
completes_one = refl

dram_tick-rresp_instance : word_16 ∷ [] ≡ [] ++ dram_adds completing quiet 3 waiting
unfolding pop
dram_tick-rresp_instance = dram_tick-rresp completing quiet 3 waiting completed refl completes_one
