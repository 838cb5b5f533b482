-- ===== src/Dramsim/Tests.antt =====
-- A timing simulator that answers at once, with a read of identifier 1 waiting and another coming.
use uart_tsi.Base.{ℕ, zero, suc, ◌≡◌, refl, true, false, List, [], ◌∷◌, ◌++◌, if◌then◌else◌, done}
use uart_tsi.Mm.{Axi, Rresp, read}
use uart_tsi.Dramsim.Queues.{Req}
use uart_tsi.Dramsim.Order.{select}
use uart_tsi.Dramsim.Tick.{
  Event, read_done, write_done, MemorySystem, Dram, issue, updated, take_requests, give_responses,
  tick,
}
use uart_tsi.Dramsim.Fifo.{IsTracked, pending}
use uart_tsi.Dramsim.Steps.{asked}
use uart_tsi.Dramsim.Answers.{left_after, tick-pending}
use uart_tsi.Dramsim.Bursts.{AreAnswers}

abbrev at_once : MemorySystem (List Event)
at_once = record {
  will_accept = λ m. true;
  add_transaction = λ is_write a m. m ++ (if is_write then write_done a else read_done a) ∷ [];
  update = λ m. (m, []);
}

abbrev waiting : Req
waiting = record { id = 1; size = 8; len = 1; addr = 0x80000008 }

abbrev coming : Req
coming = record { id = 1; size = 8; len = 1; addr = 0x80000010 }

abbrev idle : Dram (List Event)
idle = record {
  mm = record { bytes = λ x. x; mem_base = 0x80000000; mem_size = 32; word_size = 8 };
  mem = [];
  cycle = 0;
  store_inflight = false;
  store_addr = 0;
  store_id = 0;
  store_size = 0;
  store_count = 0;
  bresp = [];
  wreq = [];
  rreq = (0x80000008, []) ∷ [];
  rresp = [];
  read_id_busy = false ∷ false ∷ [];
  write_id_busy = false ∷ false ∷ [];
  rreq_queue = waiting ∷ [];
}

idle-IsTracked : IsTracked idle
idle-IsTracked zero = refl
idle-IsTracked (suc zero) = refl
idle-IsTracked (suc (suc n)) = refl

abbrev ask : Axi
ask = record {
  reset = false;
  ar_valid = true;
  ar_addr = 0x80000010;
  ar_id = 1;
  ar_len = 0;
  aw_valid = false;
  aw_addr = 0;
  aw_id = 0;
  aw_size = 0;
  aw_len = 0;
  w_valid = false;
  w_strb = 0;
  w_data = λ i. 0;
  w_last = false;
  r_ready = false;
  b_ready = false;
}

abbrev answered_one : Dram (List Event)
answered_one = record idle {
  cycle = 1;
  rresp = record { id = 1; word = 8 ∷ 9 ∷ 10 ∷ 11 ∷ 12 ∷ 13 ∷ 14 ∷ 15 ∷ []; last = true } ∷ [];
  rreq_queue = coming ∷ [];
}

tick-ask : tick at_once ask 3 idle ≡ done answered_one
unfolding tick take_requests give_responses updated issue read
tick-ask = refl

tick-pending_example :
    IsTracked answered_one
    × ((cs : List Req) × (new : List Rresp) × ((n : ℕ)
          → pending n idle ++ select n (asked at_once ask 3 idle)
            ≡ select n cs ++ pending n answered_one)
        × AreAnswers answered_one.mm cs new
        × (answered_one.rresp ≡ left_after ask [] new))
tick-pending_example = tick-pending at_once ask 3 idle idle-IsTracked tick-ask
