-- ===== src/Dramsim/Tick.antt =====
-- `mm_dramsim2_t::tick` of csrc/mm_dramsim2.cc and its callbacks.
use uart_tsi.Base.{
  ℕ, zero, suc, ◌*◌, ◌/◌, ◌^◌, Bool, true, false, ◌&&◌, not, Option, none, some, List, [], ◌∷◌,
  ◌++◌, if◌then◌else◌, ltb, ◌==◌, add64, sub64, is_empty, length, set, replicate, Run, done, stop,
  aborted, undefined, ◌>>=◌, check, ◌>>◌,
}
use uart_tsi.Mm.{Mm, Rresp, Axi, read_beats, write, pop}
use uart_tsi.Dramsim.Queues.{Req, Queues, queue_at, push_at, pop_at, pick}

-- What `update` of the simulator calls back, with the address.
pub data Event : Type 0 where
  read_done : ℕ → Event
  write_done : ℕ → Event

-- `DRAMSim::MultiChannelMemorySystem`, over its state `M`. Its answers to `update` are in the
-- order of the calls.
pub record MemorySystem (M : Type 0) : Type 0 where
  pub will_accept : M → Bool
  pub add_transaction : Bool → ℕ → M → M
  pub update : M → List Event × M

-- `mm_dramsim2_t`
pub record Dram (M : Type 0) : Type 0 where
  pub mm : Mm
  pub mem : M
  pub cycle : ℕ
  pub store_inflight : Bool
  pub store_addr : ℕ
  pub store_id : ℕ
  pub store_size : ℕ
  pub store_count : ℕ
  pub bresp : List ℕ
  pub wreq : Queues ℕ
  pub rreq : Queues Req
  pub rresp : List Rresp
  pub read_id_busy : List Bool
  pub write_id_busy : List Bool
  pub rreq_queue : List Req

-- The loop over the `len` beats of a request, `none` for a `len` that has wrapped to zero.
unfoldable pub beats_of : ℕ → ℕ → ℕ → Mm → Run (List Rresp)
unfolding read_beats
beats_of zero addr id m = done []
beats_of (suc n) addr id m = read_beats n addr id m

module _ {M : Type 0} where
  unfoldable pub read_complete_of : ℕ → List Req → Dram M → Run (Dram M)
  unfolding beats_of pop_at
  read_complete_of address [] d = stop aborted
  read_complete_of address (req ∷ _) d = do
    beats ← beats_of req.len (req.addr / d.mm.word_size * d.mm.word_size) req.id d.mm
    check (ltb req.id (length d.read_id_busy)) undefined
    done (record d {
      rresp = d.rresp ++ beats;
      read_id_busy = set d.read_id_busy req.id false;
      rreq = pop_at address d.rreq;
    })

  unfoldable pub read_complete : ℕ → Dram M → Run (Dram M)
  unfolding read_complete_of queue_at
  read_complete address d = read_complete_of address (queue_at address d.rreq) d

  unfoldable pub write_complete_of : ℕ → List ℕ → Dram M → Run (Dram M)
  unfolding pop_at
  write_complete_of address [] d = stop aborted
  write_complete_of address (b_id ∷ _) d = do
    check (ltb b_id (length d.write_id_busy)) undefined
    done (record d {
      bresp = d.bresp ++ b_id ∷ [];
      write_id_busy = set d.write_id_busy b_id false;
      wreq = pop_at address d.wreq;
    })

  unfoldable pub write_complete : ℕ → Dram M → Run (Dram M)
  unfolding write_complete_of queue_at
  write_complete address d = write_complete_of address (queue_at address d.wreq) d

  unfoldable pub call_back : Event → Dram M → Run (Dram M)
  unfolding read_complete write_complete
  call_back (read_done address) d = read_complete address d
  call_back (write_done address) d = write_complete address d

  unfoldable pub call_backs : List Event → Dram M → Run (Dram M)
  unfolding call_back
  call_backs [] d = done d
  call_backs (e ∷ es) d = do d' ← call_back e d; call_backs es d'

  unfoldable pub ar_push : Axi → ℕ → Dram M → Run (Dram M)
  ar_push i ar_size d =
      if ltb 30 ar_size
      then stop undefined
      else done (record d {
        rreq_queue =
            d.rreq_queue
            ++ record { id = i.ar_id; size = 2 ^ ar_size; len = add64 i.ar_len 1; addr = i.ar_addr }
              ∷ [];
      })

  unfoldable pub aw_take : Axi → Dram M → Run (Dram M)
  aw_take i d =
      if ltb 30 i.aw_size
      then stop undefined
      else done (record d {
        store_addr = i.aw_addr;
        store_id = i.aw_id;
        store_count = add64 i.aw_len 1;
        store_size = 2 ^ i.aw_size;
        store_inflight = true;
      })

  unfoldable pub pop_responses : Bool → Bool → Dram M → Dram M
  unfolding pop
  pop_responses b_fire r_fire d = record d {
    bresp = if b_fire then pop d.bresp else d.bresp;
    rresp = if r_fire then pop d.rresp else d.rresp;
  }

  unfoldable pub count_cycle : Bool → Dram M → Dram M
  count_cycle true d = record d { bresp = []; rresp = []; cycle = 0 }
  count_cycle false d = record d { cycle = add64 d.cycle 1 }

module _ {M : Type 0} (sys : MemorySystem M) where
  open sys use {will_accept, add_transaction, update}

  abbrev pub dram_ar_ready : Dram M → Bool
  dram_ar_ready d = will_accept d.mem

  abbrev pub dram_aw_ready : Dram M → Bool
  dram_aw_ready d = will_accept d.mem && not d.store_inflight

  unfoldable pub send_read : Option (Req × List Req) → Dram M → Dram M
  unfolding push_at
  send_read none d = d
  send_read (some (r, rest)) d = record d {
    read_id_busy = set d.read_id_busy r.id true;
    rreq = push_at r.addr r d.rreq;
    mem = add_transaction false r.addr d.mem;
    rreq_queue = rest;
  }

  unfoldable pub issue : Dram M → Run (Dram M)
  unfolding pick send_read
  issue d =
      let picked = (do o ← pick d.read_id_busy d.rreq_queue; done (send_read o d)) in
      if will_accept d.mem then picked else done d

  -- `if (store_count == 0)`. `store_addr` is past the burst by then.
  unfoldable pub end_store : Bool → Dram M → Run (Dram M)
  unfolding push_at
  end_store last d =
      let over =
        (if last
          then done (record d {
            store_inflight = false;
            mem = add_transaction true d.store_addr d.mem;
            wreq = push_at d.store_addr d.store_id d.wreq;
          })
          else stop aborted) in
      if d.store_count == 0 then over else done d

  unfoldable pub w_take : Axi → Dram M → Run (Dram M)
  unfolding end_store
  w_take i d = do
    m ← write d.store_addr i.w_data i.w_strb d.store_size d.mm
    end_store i.w_last (record d {
      mm = m;
      store_addr = add64 d.store_addr d.store_size;
      store_count = sub64 d.store_count 1;
    })

  unfoldable pub updated : Dram M → Run (Dram M)
  unfolding call_backs
  updated d = let (events, mem) = update d.mem in call_backs events (record d { mem = mem })

  -- All the handshakes are of the state before the tick.
  unfoldable pub take_requests : Axi → ℕ → Dram M → Run (Dram M)
  unfolding issue ar_push aw_take w_take
  take_requests i ar_size d = do
    d₀ ← issue d
    d₁ ← (if not i.reset && i.ar_valid && dram_ar_ready d then ar_push i ar_size d₀ else done d₀)
    d₂ ← (if not i.reset && i.aw_valid && dram_aw_ready d then aw_take i d₁ else done d₁)
    (if not i.reset && i.w_valid && d.store_inflight then w_take i d₂ else done d₂)

  -- What pops, updates and counts, after the requests.
  unfoldable pub give_responses : Axi → Bool → Bool → Dram M → Run (Dram M)
  unfolding pop_responses updated count_cycle
  give_responses i b_valid r_valid d = do
    d' ← updated (
        pop_responses (not i.reset && b_valid && i.b_ready) (not i.reset && r_valid && i.r_ready) d)
    done (count_cycle i.reset d')

  unfoldable pub tick : Axi → ℕ → Dram M → Run (Dram M)
  unfolding take_requests give_responses
  tick i ar_size d = do
    d' ← take_requests i ar_size d
    give_responses i (not (is_empty d.bresp)) (not (is_empty d.rresp)) d'

-- The constructor, with the simulator's state as the library makes it.
unfoldable pub construct : {M : Type 0} → ℕ → ℕ → ℕ → ℕ → (ℕ → ℕ) → ℕ → M → Run (Dram M)
construct mem_base mem_size word_size line_size bytes axi4_ids mem = do
  check (line_size == 64) aborted
  check (mem_size / 2 ^ 20 * 2 ^ 20 == mem_size) aborted
  done (record {
    mm = record { bytes = bytes; mem_base = mem_base; mem_size = mem_size; word_size = word_size };
    mem = mem;
    cycle = 0;
    store_inflight = false;
    store_addr = 0;
    store_id = 0;
    store_size = 0;
    store_count = 0;
    bresp = [];
    wreq = [];
    rreq = [];
    rresp = [];
    read_id_busy = replicate axi4_ids false;
    write_id_busy = replicate axi4_ids false;
    rreq_queue = [];
  })
