-- ===== src/Dramsim/Steps.antt =====
-- The parts of a tick, as the queue of the reads of each identifier sees them.
use uart_tsi.Base.{
  ℕ, ◌^◌, ◌≡◌, refl, ap, sym, ◌∙◌, Bool, true, false, ◌&&◌, not, List, [], ◌∷◌, ◌++◌, if◌then◌else◌,
  ◌==◌, append_assoc, append-nil, Bool-cases, inl, inr, ltb, length, Run, done, stop, undefined,
  aborted, check, if-eq-done, ◌>>=◌, >>=-eq-done, done-injective, add64, sub64,
}
use mathlib.Core.Path.{subst}
use uart_tsi.Mm.{Axi, write}
use uart_tsi.Dramsim.Queues.{Req, queue_at, flat}
use uart_tsi.Dramsim.Order.{select, select-append, is_busy}
use uart_tsi.Dramsim.Bursts.{Served, AreAnswers, AreAnswers-append}
use uart_tsi.Dramsim.Fifo.{IsTracked, pending, read_complete-answered}
use uart_tsi.Dramsim.Tick.{
  Event, read_done, write_done, MemorySystem, Dram, write_complete_of, write_complete, call_back,
  call_backs, ar_push, aw_take, pop_responses, count_cycle, dram_ar_ready, end_store, w_take,
}

-- The read that a tick takes.
abbrev pub asked : {M : Type 0} → MemorySystem M → Axi → ℕ → Dram M → List Req
asked sys i ar_size d =
    if not i.reset && i.ar_valid && dram_ar_ready sys d
    then record { id = i.ar_id; size = 2 ^ ar_size; len = add64 i.ar_len 1; addr = i.ar_addr } ∷ []
    else []

if-append :
    (b : Bool) (r : Req) (l : List Req) → (if b then r ∷ l else l) ≡ (if b then r ∷ [] else []) ++ l
if-append true r l = refl
if-append false r l = refl

-- From `d` to `d'`, the reads `cs` are answered and no other is taken.
abbrev Answered : {M : Type 0} → Dram M → List Req → Dram M → Type 0
Answered d cs d' = IsTracked d' × ((n : ℕ) → pending n d ≡ select n cs ++ pending n d')

abbrev SameReads : {M : Type 0} → Dram M → Dram M → Type 0
SameReads d d' =
    (d'.rreq ≡ d.rreq) × (d'.read_id_busy ≡ d.read_id_busy) × (d'.rreq_queue ≡ d.rreq_queue)

module _ {M : Type 0} where
  pub SameReads-Answered : (d d' : Dram M) → SameReads d d' → IsTracked d → Answered d [] d'
  SameReads-Answered d d' (r, b, q) tracked = (
    λ n.
        ap (λ m. length (select n (flat m))) r
        ∙ tracked n
        ∙ ap (λ l. if is_busy l n then 1 else 0) (sym b),
    λ n.
        ap (λ m. select n (flat m) ++ select n d.rreq_queue) (sym r)
        ∙ ap (λ l. select n (flat d'.rreq) ++ select n l) (sym q),
  )

  abbrev Same : Dram M → Run (Dram M) → Type 0
  Same d (done d') = SameReads d d'
  Same d (stop s) = Unit

  pub Same-if :
      (d : Dram M) (b : Bool) (m m' : Run (Dram M))
      → Same d m
      → Same d m'
      → Same d (if b then m else m')
  Same-if d true m m' h k = h
  Same-if d false m m' h k = k

  Same-bind :
      {A : Type 0} (d : Dram M) (m : Run A) (f : A → Run (Dram M))
      → ((a : A) → Same d (f a))
      → Same d (m >>= f)
  Same-bind d (done a) f h = h a
  Same-bind d (stop s) f h = tt

  pub Same-done :
      (d : Dram M) (m : Run (Dram M)) {d' : Dram M} → Same d m → m ≡ done d' → SameReads d d'
  Same-done d m h e = subst (Same d) e h

  write_complete_of-Same :
      (address : ℕ) (q : List ℕ) (d : Dram M) → Same d (write_complete_of address q d)
  unfolding write_complete_of
  write_complete_of-Same address [] d = tt
  write_complete_of-Same address (b ∷ q) d =
      Same-bind d (check (ltb b (length d.write_id_busy)) undefined) _ (λ u. (refl, refl, refl))

  write_complete_of-Served :
      (address : ℕ) (q : List ℕ) (d : Dram M) {d' : Dram M}
      → write_complete_of address q d ≡ done d'
      → Served d [] d'
  unfolding write_complete_of
  write_complete_of-Served address [] d h = cc
  write_complete_of-Served address (b ∷ q) d h =
      let (u, e, h₁) = >>=-eq-done (check (ltb b (length d.write_id_busy)) undefined) _ h in
      (
        [],
        ap (λ (x : Dram M). x.rresp) (sym (done-injective h₁)) ∙ sym (append-nil d.rresp),
        refl,
        ap (λ (x : Dram M). x.mm) (sym (done-injective h₁)),
      )

  call_back-Answered :
      (e : Event) (d : Dram M) {d' : Dram M}
      → IsTracked d
      → call_back e d ≡ done d'
      → (cs : List Req) × IsTracked d'
        × ((n : ℕ) → pending n d ≡ select n cs ++ pending n d')
        × Served d cs d'
  unfolding call_back write_complete
  call_back-Answered (read_done address) d {d'} tracked h =
      let (r, tracked', p, served) = read_complete-answered address d tracked h in
      (r ∷ [], tracked', λ n. p n ∙ if-append (r.id == n) r (pending n d'), served)
  call_back-Answered (write_done address) d {d'} tracked h =
      let (tracked', p) =
        SameReads-Answered d d'
          (Same-done d _ (write_complete_of-Same address (queue_at address d.wreq) d) h) tracked in
      ([], tracked', p, write_complete_of-Served address (queue_at address d.wreq) d h)

  pub call_backs-Answered :
      (es : List Event) (d : Dram M) {d' : Dram M}
      → IsTracked d
      → call_backs es d ≡ done d'
      → (cs : List Req) × IsTracked d'
        × ((n : ℕ) → pending n d ≡ select n cs ++ pending n d')
        × Served d cs d'
  unfolding call_backs
  call_backs-Answered [] d tracked h =
      let (tracked', p) = subst (Answered d []) (done-injective h) (tracked, λ n. refl) in
      (
        [],
        tracked',
        p,
        subst (Served d []) (done-injective h) ([], sym (append-nil d.rresp), refl, refl),
      )
  call_backs-Answered (e ∷ es) d {d'} tracked h =
      let (d₁, e₀, h₀) = >>=-eq-done (call_back e d) _ h in
      let (cs, t₁, p₁, (l, q₁, a₁, m₁)) = call_back-Answered e d tracked e₀ in
      let (cs', t₂, p₂, (l', q₂, a₂, m₂)) = call_backs-Answered es d₁ t₁ h₀ in
      (
        cs ++ cs',
        t₂,
        λ n.
            p₁ n
            ∙ ap (λ l. select n cs ++ l) (p₂ n)
            ∙ sym (append_assoc (select n cs) (select n cs') (pending n d'))
            ∙ ap (λ l. l ++ pending n d') (sym (select-append n cs cs')),
        (
          l ++ l',
          q₂ ∙ ap (λ k. k ++ l') q₁ ∙ append_assoc d.rresp l l',
          AreAnswers-append d.mm cs cs' l l' a₁ (subst (λ m. AreAnswers m cs' l') m₁ a₂),
          m₂ ∙ m₁,
        ),
      )

  pub aw_take-Same : (i : Axi) (d : Dram M) → Same d (aw_take i d)
  unfolding aw_take
  aw_take-Same i d = Same-if d (ltb 30 i.aw_size) (stop undefined) (done _) tt (refl, refl, refl)

  end_store-Same : (sys : MemorySystem M) (last : Bool) (d : Dram M) → Same d (end_store sys last d)
  unfolding end_store
  end_store-Same sys last d =
      Same-if d (d.store_count == 0) _ (done d)
        (Same-if d last (done _) (stop aborted) (refl, refl, refl) tt) (refl, refl, refl)

  pub w_take-Same : (sys : MemorySystem M) (i : Axi) (d : Dram M) → Same d (w_take sys i d)
  unfolding w_take
  w_take-Same sys i d = Same-bind d (write d.store_addr i.w_data i.w_strb d.store_size d.mm) _ (λ m.
      end_store-Same sys i.w_last (record d {
        mm = m;
        store_addr = add64 d.store_addr d.store_size;
        store_count = sub64 d.store_count 1;
      }))

  pub pop_responses-SameReads : (b r : Bool) (d : Dram M) → SameReads d (pop_responses b r d)
  unfolding pop_responses
  pop_responses-SameReads b r d = (refl, refl, refl)

  pub count_cycle-SameReads : (reset : Bool) (d : Dram M) → SameReads d (count_cycle reset d)
  unfolding count_cycle
  count_cycle-SameReads true d = (refl, refl, refl)
  count_cycle-SameReads false d = (refl, refl, refl)

  -- A read that is asked for goes to the end.
  pub ar_step-pending :
      (sys : MemorySystem M) (i : Axi) (ar_size : ℕ) (d₀ d : Dram M) {d' : Dram M}
      → IsTracked d
      → (if not i.reset && i.ar_valid && dram_ar_ready sys d₀ then ar_push i ar_size d else done d)
        ≡ done d'
      → IsTracked d' × ((n : ℕ) → pending n d' ≡ pending n d ++ select n (asked sys i ar_size d₀))
  unfolding ar_push
  ar_step-pending sys i ar_size d₀ d tracked h =
      elim (Bool-cases (not i.reset && i.ar_valid && sys.will_accept d₀.mem)) [
        | inr off ↦ rw off (
            subst (λ d'. IsTracked d' × ((n : ℕ) → pending n d' ≡ pending n d ++ []))
              (done-injective (rw off at h)) (tracked, λ n. sym (append-nil (pending n d))))
        | inl on ↦
            let r : Req = record {
              id = i.ar_id;
              size = 2 ^ ar_size;
              len = add64 i.ar_len 1;
              addr = i.ar_addr;
            } in
            let (e, h') =
              if-eq-done (ltb 30 ar_size) undefined
                (done (record d { rreq_queue = d.rreq_queue ++ r ∷ [] })) (rw on at h) in
            rw on (
              subst
                (λ d'. IsTracked d' × ((n : ℕ) → pending n d' ≡ pending n d ++ select n (r ∷ [])))
                (done-injective h')
                (
                  tracked,
                  λ n.
                      ap (λ l. select n (flat d.rreq) ++ l) (select-append n d.rreq_queue (r ∷ []))
                      ∙ sym (
                          append_assoc (select n (flat d.rreq)) (select n d.rreq_queue)
                            (select n (r ∷ []))),
                ))
      ]
