-- ===== src/Simdram/DramReads.antt =====
-- The queue of read responses through a tick of `mm_dramsim2_t` in csrc/mm_dramsim2.cc.
use uart_tsi.Base.{
  ℕ, ◌*◌, ◌/◌, ◌≡◌, ap, sym, ◌∙◌, Bool, true, false, ◌&&◌, not, List, [], ◌∷◌, ◌++◌, append-nil,
  append_assoc, if◌then◌else◌, ltb, is_empty, length, done, undefined, check, >>=-eq-done,
  done-injective,
}
use uart_tsi.Mm.{Mm, Rresp, Axi, pop}
use uart_tsi.Dramsim.Queues.{Req, queue_at}
use uart_tsi.Dramsim.Tick.{
  Event, read_done, write_done, MemorySystem, Dram, beats_of, read_complete_of, read_complete,
  write_complete, call_back, call_backs, pop_responses, count_cycle, updated, take_requests,
  give_responses, tick,
}
use uart_tsi.Dramsim.Kept.{popped, Rresp-done, write_complete_of-Rresp, take_requests-Rresp}
use uart_tsi.Simdram.Channel.{dram_object}
use uart_tsi.Simdram.Delivery.{ObjectLaws, expected_after}
use uart_tsi.Simdram.MagicReads.{beats_or_none}

-- The beats of the first read in the queue of an address
unfoldable pub first_beats : List Req → Mm → List Rresp
first_beats [] m = []
first_beats (r ∷ rs) m = beats_or_none (beats_of r.len (r.addr / m.word_size * m.word_size) r.id m)

module _ {M : Type 0} where
  unfoldable pub completes : Event → Dram M → List Rresp
  unfolding first_beats
  completes (read_done address) d = first_beats (queue_at address d.rreq) d.mm
  completes (write_done address) d = []

  unfoldable pub completes_all : List Event → Dram M → List Rresp
  unfolding completes
  completes_all [] d = []
  completes_all (e ∷ es) d = completes e d ++ expected_after (completes_all es) (call_back e d)

  read_complete_of-rresp :
      (address : ℕ) (q : List Req) (d : Dram M) {d' : Dram M}
      → read_complete_of address q d ≡ done d'
      → d'.rresp ≡ d.rresp ++ first_beats q d.mm
  unfolding read_complete_of first_beats
  read_complete_of-rresp address [] d {d'} h = cc
  read_complete_of-rresp address (r ∷ q) d {d'} h =
      let m = beats_of r.len (r.addr / d.mm.word_size * d.mm.word_size) r.id d.mm in
      let (beats, e, h₁) = >>=-eq-done m _ h in
      let (u, e₁, h₂) = >>=-eq-done (check (ltb r.id (length d.read_id_busy)) undefined) _ h₁ in
      ap (λ (x : Dram M). x.rresp) (sym (done-injective h₂))
      ∙ ap (λ x. d.rresp ++ beats_or_none x) (sym e)

  call_back-rresp :
      (e : Event) (d : Dram M) {d' : Dram M}
      → call_back e d ≡ done d'
      → d'.rresp ≡ d.rresp ++ completes e d
  unfolding call_back read_complete write_complete completes
  call_back-rresp (read_done address) d h =
      read_complete_of-rresp address (queue_at address d.rreq) d h
  call_back-rresp (write_done address) d h =
      Rresp-done d _ (write_complete_of-Rresp address (queue_at address d.wreq) d) h
      ∙ sym (append-nil d.rresp)

  call_backs-rresp :
      (es : List Event) (d : Dram M) {d' : Dram M}
      → call_backs es d ≡ done d'
      → d'.rresp ≡ d.rresp ++ completes_all es d
  unfolding call_backs completes_all
  call_backs-rresp [] d h =
      ap (λ (x : Dram M). x.rresp) (sym (done-injective h)) ∙ sym (append-nil d.rresp)
  call_backs-rresp (e ∷ es) d {d'} h =
      let (d₁, e₀, h₀) = >>=-eq-done (call_back e d) _ h in
      call_backs-rresp es d₁ h₀
      ∙ ap (λ l. l ++ completes_all es d₁) (call_back-rresp e d e₀)
      ∙ append_assoc d.rresp (completes e d) (completes_all es d₁)
      ∙ ap (λ r. d.rresp ++ (completes e d ++ expected_after (completes_all es) r)) (sym e₀)

  module _ (sys : MemorySystem M) where
    -- The state in which the timing simulator is updated
    abbrev pub before_update : Axi → List Rresp → List ℕ → Dram M → Dram M
    before_update i rs bs d =
        pop_responses (not i.reset && not (is_empty bs) && i.b_ready)
          (not i.reset && not (is_empty rs) && i.r_ready) d

    abbrev pub updates : Dram M → List Rresp
    updates d = completes_all (sys.update d.mem).0 (record d { mem = (sys.update d.mem).1 })

    -- The beats of the reads that are completed in a tick, as the memory is then.
    unfoldable pub dram_adds : Axi → ℕ → Dram M → List Rresp
    unfolding completes_all
    dram_adds i n d =
        expected_after (λ d'. updates (before_update i d.rresp d.bresp d'))
          (take_requests sys i n d)

    count_part :
        (r b : Bool) (l new : List Rresp) (ready : Bool) (d d₂ : Dram M)
        → r ≡ false
        → d.rresp ≡ l
        → d₂.rresp ≡ (pop_responses b (not r && not (is_empty l) && ready) d).rresp ++ new
        → (count_cycle r d₂).rresp ≡ (if ready then pop l else l) ++ new
    unfolding count_cycle pop_responses
    count_part true b l new ready d d₂ up e h = cc
    count_part false b l new ready d d₂ up e h =
        h
        ∙ ap (λ (q : List Rresp). (if not (is_empty l) && ready then pop q else q) ++ new) e
        ∙ ap (λ (q : List Rresp). q ++ new) (popped l ready)

    -- A tick without reset that returns leaves as responses those of before, without the first if the
    -- design is ready, and then, for each read that the timing simulator completes in the tick, the
    -- beats of the first read in the queue of the address, with the bytes that the memory has
    -- after the write of the tick, if any.
    pub dram_tick-rresp :
        (i : Axi) (n : ℕ) (d d' : Dram M)
        → i.reset ≡ false
        → tick sys i n d ≡ done d'
        → d'.rresp ≡ (if i.r_ready then pop d.rresp else d.rresp) ++ dram_adds i n d
    unfolding tick give_responses updated dram_adds
    dram_tick-rresp i n d d' up h =
        let (d₁, e₁, h₁) = >>=-eq-done (take_requests sys i n d) _ h in
        let d₂ : Dram M = before_update i d.rresp d.bresp d₁ in
        let (d₃, e₃, h₃) =
          >>=-eq-done (call_backs (sys.update d₂.mem).0 (record d₂ { mem = (sys.update d₂.mem).1 }))
            _ h₁ in
        let added =
          call_backs-rresp (sys.update d₂.mem).0 (record d₂ { mem = (sys.update d₂.mem).1 }) e₃ in
        ap (λ (x : Dram M). x.rresp) (sym (done-injective h₃))
        ∙ count_part i.reset (not i.reset && not (is_empty d.bresp) && i.b_ready) d.rresp
            (updates d₂) i.r_ready d₁ d₃ up (take_requests-Rresp sys i n d e₁) added
        ∙ ap
            (λ r.
              (if i.r_ready then pop d.rresp else d.rresp)
              ++ expected_after (λ x. updates (before_update i d.rresp d.bresp x)) r)
            (sym e₁)

unfoldable pub dram_laws : {M : Type 0} (sys : MemorySystem M) → ObjectLaws (dram_object sys)
unfolding dram_object
dram_laws sys = record { adds = dram_adds sys; tick_rresp = dram_tick-rresp sys }
