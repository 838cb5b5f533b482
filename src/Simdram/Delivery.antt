-- ===== src/Simdram/Delivery.antt =====
-- What the design reads through `memory_tick`, for any memory whose tick keeps the order of its
-- responses.
use uart_tsi.Base.{
  ℕ, ◌≡◌, refl, ap, sym, ◌∙◌, true, false, not, List, [], ◌∷◌, ◌++◌, map, append_assoc, append-nil,
  if◌then◌else◌, leb, is_empty, length, take, All, Bool-cases, inl, inr, Run, done, stop, undefined,
  check, >>=-eq-done, done-injective,
}
use mathlib.Core.Path.{subst, ap₂}
use mathlib.Core.List.{map-append}
use uart_tsi.Plusarg.{le_value}
use uart_tsi.Mm.{Mm, Rresp, Axi, pop}
use uart_tsi.Simdram.Channel.{
  MemoryObject, AxiOut, Beat, beat_of_out, received, shown_data, first_id, first_last, axi_outputs,
  memory_tick, run_channel,
}

-- What a memory keeps: a tick without reset takes the first response out if the design is ready,
-- and puts others, which `adds` names, behind the rest.
pub record ObjectLaws {A : Type 0} (obj : MemoryObject A) : Type 0 where
  pub adds : Axi → ℕ → A → List Rresp
  pub tick_rresp :
      (i : Axi) (ar_size : ℕ) (c c' : A)
      → i.reset ≡ false
      → obj.tick i ar_size c ≡ done c'
      → obj.rresp c' ≡ (if i.r_ready then pop (obj.rresp c) else obj.rresp c) ++ adds i ar_size c

-- A response as it is shown
abbrev pub beat_of : Rresp → Beat
beat_of r = record { id = r.id; word = le_value (take 8 r.word); last = r.last }

abbrev pub ShowsFirst : AxiOut → List Rresp → Type 0
ShowsFirst o [] = o.r_valid ≡ false
ShowsFirst o (r ∷ rs) = (o.r_valid ≡ true) × (beat_of_out o ≡ beat_of r)

-- Every later response in the order in which it is put in the queue.
abbrev pub expected_after : {A : Type 0} → (A → List Rresp) → Run A → List Rresp
expected_after f (done c) = f c
expected_after f (stop s) = []

unfoldable pub expected :
    {A : Type 0} (obj : MemoryObject A) → ObjectLaws obj → List (Axi × ℕ) → A → List Rresp
expected obj laws [] c = []
expected obj laws ((i, ar_size) ∷ is) c =
    laws.adds i ar_size c ++ expected_after (expected obj laws is) (obj.tick i ar_size c)

shown_first :
    (o : AxiOut) (l : List Rresp) (m : Mm)
    → o.r_valid ≡ not (is_empty l)
    → o.r_id ≡ first_id l
    → o.r_last ≡ first_last l
    → shown_data l m ≡ done o.r_data
    → ShowsFirst o l
unfolding shown_data first_id first_last
shown_first o [] m v i b d = v
shown_first o (r ∷ rs) m v i b d =
    let (u, e, d') = >>=-eq-done (check (leb 8 (length r.word)) undefined) _ d in
    let w : o.r_data ≡ le_value (take 8 r.word) = sym (done-injective d') in
    (v, λ k. record { id = i k; word = w k; last = b k })

-- What the design takes is the first response, which leaves the queue.
received-taken :
    (o : AxiOut) (i : Axi) (l : List Rresp)
    → ShowsFirst o l
    → (taken : List Rresp) × (received o i ≡ map beat_of taken)
      × (taken ++ (if i.r_ready then pop l else l) ≡ l)
unfolding pop
received-taken o i [] h = elim (Bool-cases i.r_ready) [
  | inl on ↦ ([], rw h refl, rw on refl)
  | inr off ↦ ([], rw h refl, rw off refl)
]
received-taken o i (r ∷ rs) (v, e) = elim (Bool-cases i.r_ready) [
  | inl on ↦ (r ∷ [], rw (v, on) (ap (λ (b : Beat). b ∷ []) e), rw on refl)
  | inr off ↦ ([], rw (v, off) refl, rw off refl)
]

-- The responses taken, the rest of the queue and what is put behind it, in order.
regroup :
    {B : Type 0} (taken bs q c c₁ left new later : List B)
    → bs ++ q ≡ c₁ ++ later
    → c₁ ≡ left ++ new
    → taken ++ left ≡ c
    → (taken ++ bs) ++ q ≡ c ++ (new ++ later)
regroup taken bs q c c₁ left new later h e k =
    append_assoc taken bs q
    ∙ ap (λ l. taken ++ l) (h ∙ ap (λ l. l ++ later) e ∙ append_assoc left new later)
    ∙ sym (append_assoc taken left (new ++ later))
    ∙ ap (λ l. l ++ (new ++ later)) k

module _ {A : Type 0} (obj : MemoryObject A) where
  memory_tick-shows :
      (i : Axi) (n : ℕ) (c : A) {o' : AxiOut} {c' : A}
      → memory_tick obj i n c ≡ done (o', c')
      → (obj.tick i n c ≡ done c') × ShowsFirst o' (obj.rresp c')
  unfolding memory_tick axi_outputs
  memory_tick-shows i n c {o'} {c'} h =
      let (c₁, e, h₁) = >>=-eq-done (obj.tick i n c) _ h in
      let (d, e₁, h₂) = >>=-eq-done (shown_data (obj.rresp c₁) (obj.mm c₁)) _ h₁ in
      let same : (axi_outputs obj d c₁, c₁) ≡ (o', c') = done-injective h₂ in
      let at_ : c₁ ≡ c' = ap (λ (r : AxiOut × A). r.1) same in
      (
        e ∙ ap done at_,
        subst (λ (r : AxiOut × A). ShowsFirst r.0 (obj.rresp r.1)) same
            (shown_first (axi_outputs obj d c₁) (obj.rresp c₁) (obj.mm c₁) refl refl refl e₁),
      )

  -- For a memory whose tick keeps the order of its responses, over calls of `memory_tick` without
  -- reset that all return, from outputs that show the first response queued, if any: the design takes,
  -- at each call with `r_ready`, what the call before has shown, which are the beats of the responses
  -- `taken`. These and then what is queued at the end are the responses queued at first and then all
  -- that the ticks have added, in order, none of them lost and none doubled. A beat has the
  -- identifier, the last flag and the first eight bytes of its response, and no other bytes of it.
  pub run_channel-received :
      (laws : ObjectLaws obj) (is : List (Axi × ℕ)) (o : AxiOut) (c : A) {beats : List Beat}
      {c' : A}
      → All (λ i. i.0.reset ≡ false) is
      → ShowsFirst o (obj.rresp c)
      → run_channel obj is o c ≡ done (beats, c')
      → (taken : List Rresp) × (beats ≡ map beat_of taken)
        × (taken ++ obj.rresp c' ≡ obj.rresp c ++ expected obj laws is c)
  unfolding run_channel expected
  run_channel-received laws [] o c {beats} {c'} up shown h = (
    [],
    ap (λ (r : List Beat × A). r.0) (sym (done-injective h)),
    ap (λ (r : List Beat × A). obj.rresp r.1) (sym (done-injective h))
        ∙ sym (append-nil (obj.rresp c)),
  )
  run_channel-received laws ((i, n) ∷ is) o c {beats} {c'} up shown h =
      let ((o₁, c₁), e, h₁) = >>=-eq-done (memory_tick obj i n c) _ h in
      let ((bs, c₂), e₁, h₂) = >>=-eq-done (run_channel obj is o₁ c₁) _ h₁ in
      let (ticked, shown₁) = memory_tick-shows i n c e in
      let (first, f₀, f₁) = received-taken o i (obj.rresp c) shown in
      let (later, l₀, l₁) = run_channel-received laws is o₁ c₁ up.1 shown₁ e₁ in
      let left = if i.r_ready then pop (obj.rresp c) else obj.rresp c in
      (
        first ++ later,
        ap (λ (r : List Beat × A). r.0) (sym (done-injective h₂))
            ∙ ap₂ ◌++◌ f₀ l₀
            ∙ sym (map-append beat_of first later),
        ap (λ (r : List Beat × A). (first ++ later) ++ obj.rresp r.1) (sym (done-injective h₂))
            ∙ regroup first later (obj.rresp c₂) (obj.rresp c) (obj.rresp c₁) left (laws.adds i n c)
                (expected obj laws is c₁) l₁ (laws.tick_rresp i n c c₁ up.0 ticked) f₁
            ∙ ap (λ r. obj.rresp c ++ (laws.adds i n c ++ expected_after (expected obj laws is) r))
                (sym ticked),
      )
