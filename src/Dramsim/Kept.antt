-- ===== src/Dramsim/Kept.antt =====
-- The steps of a tick that put nothing in the queue of read responses.
use uart_tsi.Base.{
  ℕ, ◌≡◌, refl, ◌∙◌, Bool, true, false, ◌&&◌, not, Option, none, some, List, [], ◌∷◌, if◌then◌else◌,
  is_empty, ltb, ◌==◌, length, add64, sub64, Run, done, stop, aborted, undefined, check, ◌>>=◌,
  >>=-eq-done,
}
use mathlib.Core.Path.{subst}
use uart_tsi.Mm.{Rresp, Axi, write, pop}
use uart_tsi.Dramsim.Queues.{Req, pick}
use uart_tsi.Dramsim.Tick.{
  MemorySystem, Dram, write_complete_of, ar_push, aw_take, dram_ar_ready, dram_aw_ready, send_read,
  issue, end_store, w_take, take_requests,
}

pub popped :
    (l : List Rresp) (ready : Bool)
    → (if not (is_empty l) && ready then pop l else l) ≡ (if ready then pop l else l)
unfolding pop
popped [] true = refl
popped [] false = refl
popped (r ∷ rs) ready = refl

module _ {M : Type 0} where
  -- Where nothing is added
  abbrev pub KeepsRresp : Dram M → Run (Dram M) → Type 0
  KeepsRresp d (done d') = d'.rresp ≡ d.rresp
  KeepsRresp d (stop s) = Unit

  Rresp-if :
      (d : Dram M) (b : Bool) (m m' : Run (Dram M))
      → KeepsRresp d m
      → KeepsRresp d m'
      → KeepsRresp d (if b then m else m')
  Rresp-if d true m m' h k = h
  Rresp-if d false m m' h k = k

  Rresp-bind :
      {A : Type 0} (d : Dram M) (m : Run A) (f : A → Run (Dram M))
      → ((a : A) → KeepsRresp d (f a))
      → KeepsRresp d (m >>= f)
  Rresp-bind d (done a) f h = h a
  Rresp-bind d (stop s) f h = tt

  pub Rresp-done :
      (d : Dram M) (m : Run (Dram M)) {d' : Dram M}
      → KeepsRresp d m
      → m ≡ done d'
      → d'.rresp ≡ d.rresp
  Rresp-done d m h e = subst (KeepsRresp d) e h

  pub write_complete_of-Rresp :
      (address : ℕ) (q : List ℕ) (d : Dram M) → KeepsRresp d (write_complete_of address q d)
  unfolding write_complete_of
  write_complete_of-Rresp address [] d = tt
  write_complete_of-Rresp address (b ∷ q) d =
      Rresp-bind d (check (ltb b (length d.write_id_busy)) undefined) _ (λ u. refl)

  ar_push-Rresp : (i : Axi) (n : ℕ) (d : Dram M) → KeepsRresp d (ar_push i n d)
  unfolding ar_push
  ar_push-Rresp i n d = Rresp-if d (ltb 30 n) (stop undefined) (done _) tt refl

  aw_take-Rresp : (i : Axi) (d : Dram M) → KeepsRresp d (aw_take i d)
  unfolding aw_take
  aw_take-Rresp i d = Rresp-if d (ltb 30 i.aw_size) (stop undefined) (done _) tt refl

  module _ (sys : MemorySystem M) where
    send_read-rresp :
        (o : Option (Req × List Req)) (d : Dram M) → (send_read sys o d).rresp ≡ d.rresp
    unfolding send_read
    send_read-rresp none d = refl
    send_read-rresp (some (r, rest)) d = refl

    issue-Rresp : (d : Dram M) → KeepsRresp d (issue sys d)
    unfolding issue
    issue-Rresp d =
        Rresp-if d (sys.will_accept d.mem) _ (done d)
          (Rresp-bind d (pick d.read_id_busy d.rreq_queue) _ (λ o. send_read-rresp o d)) refl

    end_store-Rresp : (last : Bool) (d : Dram M) → KeepsRresp d (end_store sys last d)
    unfolding end_store
    end_store-Rresp last d =
        Rresp-if d (d.store_count == 0) _ (done d) (Rresp-if d last (done _) (stop aborted) refl tt)
          refl

    w_take-Rresp : (i : Axi) (d : Dram M) → KeepsRresp d (w_take sys i d)
    unfolding w_take
    w_take-Rresp i d = Rresp-bind d (write d.store_addr i.w_data i.w_strb d.store_size d.mm) _ (λ m.
        end_store-Rresp i.w_last (record d {
          mm = m;
          store_addr = add64 d.store_addr d.store_size;
          store_count = sub64 d.store_count 1;
        }))

    pub take_requests-Rresp :
        (i : Axi) (n : ℕ) (d : Dram M) {d' : Dram M}
        → take_requests sys i n d ≡ done d'
        → d'.rresp ≡ d.rresp
    unfolding take_requests
    take_requests-Rresp i n d {d'} h =
        let (d₀, e₀, h₀) = >>=-eq-done (issue sys d) _ h in
        let (d₁, e₁, h₁) =
          >>=-eq-done
            (if not i.reset && i.ar_valid && dram_ar_ready sys d then ar_push i n d₀ else done d₀) _
            h₀ in
        let (d₂, e₂, h₂) =
          >>=-eq-done
            (if not i.reset && i.aw_valid && dram_aw_ready sys d then aw_take i d₁ else done d₁) _
            h₁ in
        Rresp-done d₂ _ (Rresp-if d₂ _ _ (done d₂) (w_take-Rresp i d₂) refl) h₂
        ∙ Rresp-done d₁ _ (Rresp-if d₁ _ _ (done d₁) (aw_take-Rresp i d₁) refl) e₂
        ∙ Rresp-done d₀ _ (Rresp-if d₀ _ _ (done d₀) (ar_push-Rresp i n d₀) refl) e₁
        ∙ Rresp-done d _ (issue-Rresp d) e₀
