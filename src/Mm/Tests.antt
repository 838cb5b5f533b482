-- ===== src/Mm/Tests.antt =====
-- A memory of 32 bytes with words of eight.
use uart_tsi.Base.{
  ℕ, ◌+◌, ◌-◌, ◌≡◌, refl, true, false, ◌&&◌, [], ◌∷◌, if◌then◌else◌, arith, inl, done,
}
use uart_tsi.Mm.{Mm, Magic, Axi, lane, write, read_beats, tick, aw_step, end_step}
use uart_tsi.Mm.Lanes.{within, write-bytes}
use uart_tsi.Mm.Burst.{words_at, read_beats_lem, IsCounting, tick-IsCounting}
use uart_tsi.Mm.Store.{run_ticks, request, beats, run_ticks-burst}

abbrev small : Mm
small = record { bytes = λ x. x; mem_base = 0x80000000; mem_size = 32; word_size = 8 }

write-bytes_example :
    (m' : Mm) × (write 0x8000000a (λ i. 100 + i) 255 2 small ≡ done m')
    × ((x : ℕ) → m'.bytes x ≡ (if within 8 8 x && lane 255 2 2 (x - 8) then 100 + (x - 8) else x))
write-bytes_example =
    write-bytes 0x8000000a (λ i. 100 + i) 255 2 small (omega arith) (omega arith) (omega arith)

read_beats_lem_example : read_beats 1 0x80000008 3 small ≡ done (words_at 1 8 3 small)
read_beats_lem_example =
    read_beats_lem 1 0x80000008 3 small (omega arith) (omega arith) (omega arith) (omega arith)

abbrev quiet : Magic
quiet = record {
  mm = small;
  store_inflight = false;
  store_addr = 0;
  store_id = 0;
  store_size = 0;
  store_count = 0;
  bresp = [];
  rresp = [];
  cycle = 0;
}

-- A store of two beats is asked for.
abbrev store_two : Axi
store_two = record {
  reset = false;
  ar_valid = false;
  ar_addr = 0;
  ar_id = 0;
  ar_len = 0;
  aw_valid = true;
  aw_addr = 0x80000000;
  aw_id = 5;
  aw_size = 3;
  aw_len = 1;
  w_valid = false;
  w_strb = 0;
  w_data = λ i. 0;
  w_last = false;
  r_ready = false;
  b_ready = false;
}

abbrev storing : Magic
storing = record quiet {
  store_inflight = true;
  store_addr = 0x80000000;
  store_id = 5;
  store_size = 8;
  store_count = 2;
  cycle = 1;
}

tick-store_two : tick store_two quiet ≡ done storing
unfolding tick aw_step end_step
tick-store_two = refl

tick-IsCounting_example : IsCounting storing
tick-IsCounting_example = tick-IsCounting store_two quiet (omega arith) (inl refl) tick-store_two

run_ticks-burst_example :
    (g' : Magic) × (run_ticks
        (request 0x80000008 5 1 ∷ beats 255 ((λ i. i) ∷ (λ i. i + 1) ∷ []))
        quiet
      ≡ done g')
    × (g'.bresp ≡ 5 ∷ [])
    × (g'.store_inflight ≡ false)
run_ticks-burst_example =
    run_ticks-burst 0x80000008 5 255 (λ i. i) ((λ i. i + 1) ∷ []) quiet 8 refl refl refl refl
      (omega arith) (omega arith)
