-- ===== src/Dramsim/Answers.antt =====
-- A whole tick, as the queue of the reads of each identifier sees it.
use uart_tsi.Base.{
  ℕ, ◌≡◌, refl, ap, sym, ◌∙◌, Bool, ◌&&◌, true, false, not, List, [], ◌++◌, if◌then◌else◌, done,
  >>=-eq-done, done-injective, is_empty,
}
use mathlib.Core.Path.{subst}
use uart_tsi.Mm.{Axi, Rresp, pop}
use uart_tsi.Dramsim.Kept.{popped, take_requests-Rresp}
use uart_tsi.Dramsim.Bursts.{AreAnswers}
use uart_tsi.Dramsim.Queues.{Req}
use uart_tsi.Dramsim.Order.{select}
use uart_tsi.Dramsim.Fifo.{IsTracked, pending, issue-tracked}
use uart_tsi.Dramsim.Tick.{
  MemorySystem, Dram, call_backs, ar_push, aw_take, pop_responses, count_cycle, dram_ar_ready,
  dram_aw_ready, issue, updated, take_requests, give_responses, tick,
}
use uart_tsi.Dramsim.Steps.{
  asked, SameReads-Answered, Same-if, Same-done, call_backs-Answered, aw_take-Same, w_take-Same,
  pop_responses-SameReads, count_cycle-SameReads, ar_step-pending,
}

take_requests-pending :
    {M : Type 0} (sys : MemorySystem M) (i : Axi) (ar_size : ℕ) (d : Dram M) {d' : Dram M}
    → IsTracked d
    → take_requests sys i ar_size d ≡ done d'
    → IsTracked d' × ((n : ℕ) → pending n d ++ select n (asked sys i ar_size d) ≡ pending n d')
unfolding take_requests
take_requests-pending sys i ar_size d {d'} tracked h =
    let (d₀, e₀, h₀) = >>=-eq-done (issue sys d) _ h in
    let (t₀, p₀) = issue-tracked sys d tracked e₀ in
    let (d₁, e₁, h₁) =
      >>=-eq-done
        (if not i.reset && i.ar_valid && dram_ar_ready sys d then ar_push i ar_size d₀ else done d₀)
        _ h₀ in
    let (t₁, p₁) = ar_step-pending sys i ar_size d d₀ t₀ e₁ in
    let (d₂, e₂, h₂) =
      >>=-eq-done
        (if not i.reset && i.aw_valid && dram_aw_ready sys d then aw_take i d₁ else done d₁) _ h₁ in
    let (t₂, p₂) =
      SameReads-Answered d₁ d₂
        (Same-done d₁ _
          (Same-if d₁ (not i.reset && i.aw_valid && dram_aw_ready sys d) _ (done d₁)
            (aw_take-Same i d₁) (refl, refl, refl))
          e₂)
        t₁ in
    let (t₃, p₃) =
      SameReads-Answered d₂ d'
        (Same-done d₂ _
          (Same-if d₂ (not i.reset && i.w_valid && d.store_inflight) _ (done d₂)
            (w_take-Same sys i d₂) (refl, refl, refl))
          h₂)
        t₂ in
    (
      t₃,
      λ n. ap (λ l. l ++ select n (asked sys i ar_size d)) (sym (p₀ n)) ∙ sym (p₁ n) ∙ p₂ n ∙ p₃ n,
    )

-- What is left of the responses of before when the reads that are completed put theirs behind.
abbrev pub left_after : Axi → List Rresp → List Rresp → List Rresp
left_after i l new = if i.reset then [] else (if i.r_ready then pop l else l) ++ new

count_cycle-rresp :
    {M : Type 0} (r b : Bool) (i : Axi) (d d' : Dram M) (new : List Rresp)
    → i.reset ≡ r
    → d'.rresp ≡ (pop_responses b (not r && not (is_empty d.rresp) && i.r_ready) d).rresp ++ new
    → (count_cycle r d').rresp ≡ left_after i d.rresp new
unfolding count_cycle pop_responses
count_cycle-rresp true b i d d' new up h = rw up refl
count_cycle-rresp false b i d d' new up h =
    h ∙ rw up (ap (λ l. l ++ new) (popped d.rresp i.r_ready))

count_cycle-mm : {M : Type 0} (r : Bool) (d : Dram M) → (count_cycle r d).mm ≡ d.mm
unfolding count_cycle
count_cycle-mm true d = refl
count_cycle-mm false d = refl

give_responses-pending :
    {M : Type 0} (sys : MemorySystem M) (i : Axi) (b : Bool) (d : Dram M) {d' : Dram M}
    → IsTracked d
    → give_responses sys i b (not (is_empty d.rresp)) d ≡ done d'
    → (cs : List Req) × IsTracked d'
      × ((n : ℕ) → pending n d ≡ select n cs ++ pending n d')
      × (new : List Rresp) × AreAnswers d'.mm cs new
      × (d'.rresp ≡ left_after i d.rresp new)
unfolding give_responses updated
give_responses-pending sys i b d {d'} tracked h =
    let r = not (is_empty d.rresp) in
    let d₁ = pop_responses (not i.reset && b && i.b_ready) (not i.reset && r && i.r_ready) d in
    let (t₁, p₁) =
      SameReads-Answered d d₁
        (pop_responses-SameReads (not i.reset && b && i.b_ready) (not i.reset && r && i.r_ready) d)
        tracked in
    let (d₂, e₂, h₂) =
      >>=-eq-done (call_backs (sys.update d₁.mem).0 (record d₁ { mem = (sys.update d₁.mem).1 })) _
        h in
    let (cs, t₂, p₂, (new, q, a, m)) =
      call_backs-Answered (sys.update d₁.mem).0 (record d₁ { mem = (sys.update d₁.mem).1 }) t₁ e₂ in
    let (t₃, p₃) =
      SameReads-Answered d₂ (count_cycle i.reset d₂) (count_cycle-SameReads i.reset d₂) t₂ in
    let same = done-injective h₂ in
    let mm : d₁.mm ≡ d'.mm = sym m ∙ sym (count_cycle-mm i.reset d₂) ∙ ap (λ u. u.mm) same in
    (
      cs,
      subst IsTracked same t₃,
      λ n.
          p₁ n
          ∙ p₂ n
          ∙ ap (λ l. select n cs ++ l) (p₃ n)
          ∙ ap (λ u. select n cs ++ pending n u) same,
      new,
      subst (λ u. AreAnswers u cs new) mm a,
      ap (λ u. u.rresp) (sym same)
          ∙ count_cycle-rresp i.reset (not i.reset && b && i.b_ready) i d d₂ new refl q,
    )

-- Where each identifier has one read in flight if it is busy and none otherwise, a tick that
-- returns keeps that, and is one of a first-in first-out queue for each identifier: the reads `cs`
-- that it answers are taken from the front of their queues in order, the one it takes goes to the
-- end of its own, and nothing is lost or answered twice. It puts the beats of `cs` behind the
-- responses of before, of which the first has gone if the design is ready: for each read as many
-- beats as it asks for, under its identifier, with the words of the memory after the tick from the
-- word of its address on, and only the last marked so. With reset, it leaves no responses.
pub tick-pending :
    {M : Type 0} (sys : MemorySystem M) (i : Axi) (ar_size : ℕ) (d : Dram M) {d' : Dram M}
    → IsTracked d
    → tick sys i ar_size d ≡ done d'
    → IsTracked d'
      × ((cs : List Req) × (new : List Rresp) × ((n : ℕ)
            → pending n d ++ select n (asked sys i ar_size d) ≡ select n cs ++ pending n d')
          × AreAnswers d'.mm cs new
          × (d'.rresp ≡ left_after i d.rresp new))
unfolding tick
tick-pending sys i ar_size d {d'} tracked h =
    let (d₁, e₁, h₁) = >>=-eq-done (take_requests sys i ar_size d) _ h in
    let (t₁, p₁) = take_requests-pending sys i ar_size d tracked e₁ in
    let same : d₁.rresp ≡ d.rresp = take_requests-Rresp sys i ar_size d e₁ in
    let h₂ =
      ap (λ (l : List Rresp). give_responses sys i (not (is_empty d.bresp)) (not (is_empty l)) d₁)
        same
      ∙ h₁ in
    let (cs, t₂, p₂, new, a, q) = give_responses-pending sys i (not (is_empty d.bresp)) d₁ t₁ h₂ in
    (t₂, (cs, new, λ n. p₁ n ∙ p₂ n, a, q ∙ ap (λ l. left_after i l new) same))
