-- ===== src/Dramsim/Fifo.antt =====
-- The reads of one identifier are answered in the order in which they were asked for.
use uart_tsi.Base.{
  ℕ, ◌*◌, ◌/◌, ◌≤◌, ◌<◌, ◌≡◌, refl, ap, sym, ◌∙◌, Bool, true, false, Option, none, some, List, [],
  ◌∷◌, ◌++◌, if◌then◌else◌, ◌==◌, arith, length, set, All, Bool-cases, inl, inr, ltb, ltb→lt, done,
  undefined, check, check-done, >>=-eq-done, done-injective,
}
use mathlib.Core.Path.{subst}
use uart_tsi.Dramsim.Queues.{Req, queue_at, pop_at, flat, pick}
use uart_tsi.Dramsim.Order.{
  select, length-zero, select-first, select-other, select-only, select-rest, is_busy,
  is_busy-set_same, is_busy-set_other, flat-push_at, flat-pop_at, Picked, pick-Picked,
}
use uart_tsi.Dramsim.Bursts.{Served, AreAnswers-one, beats_of-IsAnswer}
use uart_tsi.Dramsim.Tick.{
  MemorySystem, Dram, beats_of, read_complete_of, read_complete, send_read, issue,
}

-- An identifier has one read in flight if it is busy, and none otherwise.
abbrev pub IsTracked : {M : Type 0} → Dram M → Type 0
IsTracked d =
    (n : ℕ) → length (select n (flat d.rreq)) ≡ (if is_busy d.read_id_busy n then 1 else 0)

-- The reads of the identifier `n` that are not answered yet, the next one first.
abbrev pub pending : {M : Type 0} → ℕ → Dram M → List Req
pending n d = select n (flat d.rreq) ++ select n d.rreq_queue

-- None of the requests of busy identifiers has the identifier of one that is not.
select-busy :
    (busy : List Bool) (n : ℕ) (xs : List Req)
    → is_busy busy n ≡ false
    → All (λ p. is_busy busy p.id ≡ true) xs
    → select n xs ≡ []
select-busy busy n [] free h = refl
select-busy busy n (x ∷ xs) free h = elim (Bool-cases (x.id == n)) [
  | inl e ↦
      let same : x.id ≡ n = ground arith in
      let on : is_busy busy n ≡ true = subst (λ (m : ℕ). is_busy busy m ≡ true) same h.0 in cc
  | inr e ↦ rw e (select-busy busy n xs free h.1)
]

id_is : (r : Req) (n : ℕ) → (r.id == n) ≡ true → r.id ≡ n
id_is r n h = ground (arith, h)

module _ {M : Type 0} (sys : MemorySystem M) where
  send_read-tracked :
      (d : Dram M) (p : Req × List Req)
      → IsTracked d
      → Picked d.read_id_busy d.rreq_queue p
      → IsTracked (send_read sys (some p) d)
        × ((n : ℕ) → pending n (send_read sys (some p) d) ≡ pending n d)
  unfolding send_read
  send_read-tracked d (r, rest) tracked (xs, ys, e, e', busy, free, lt) =
      let (us, vs, f, f') = flat-push_at r.addr r d.rreq in
      let none_ : (n : ℕ) → (r.id == n) ≡ true → length (select n (us ++ vs)) ≡ 0 = λ n h.
        ap (λ l. length (select n l)) (sym f)
        ∙ tracked n
        ∙ ap (λ (b : Bool). if b then 1 else 0)
            (ap (is_busy d.read_id_busy) (sym (id_is r n h)) ∙ free) in
      (
        λ n. elim (Bool-cases (r.id == n)) [
          | inl h ↦
              ap (λ l. length (select n l)) f'
              ∙ ap length (select-only n r us vs h (none_ n h))
              ∙ ap (λ (b : Bool). if b then 1 else 0)
                  (sym (is_busy-set_same d.read_id_busy r.id n true lt h))
          | inr h ↦
              ap (λ l. length (select n l)) f'
              ∙ ap length (select-other n r us vs h)
              ∙ ap (λ l. length (select n l)) (sym f)
              ∙ tracked n
              ∙ ap (λ (b : Bool). if b then 1 else 0)
                  (sym (is_busy-set_other d.read_id_busy r.id n true lt h))
        ],
        λ n. elim (Bool-cases (r.id == n)) [
          | inl h ↦
              let before : select n xs ≡ [] =
                select-busy d.read_id_busy n xs
                  (ap (is_busy d.read_id_busy) (sym (id_is r n h)) ∙ free) busy in
              let empty : select n (flat d.rreq) ≡ [] =
                length-zero _ (ap (λ l. length (select n l)) f ∙ none_ n h) in
              ap (λ l. select n l ++ select n rest) f'
              ∙ ap (λ l. l ++ select n rest) (select-only n r us vs h (none_ n h))
              ∙ ap (λ l. r ∷ select n l) e'
              ∙ sym (select-first n r xs ys h before)
              ∙ ap (select n) (sym e)
              ∙ ap (λ l. l ++ select n d.rreq_queue) (sym empty)
          | inr h ↦
              ap (λ l. select n l ++ select n rest) f'
              ∙ ap (λ l. l ++ select n rest) (select-other n r us vs h ∙ ap (select n) (sym f))
              ∙ ap (λ l. select n (flat d.rreq) ++ select n l) e'
              ∙ ap (λ l. select n (flat d.rreq) ++ l) (sym (select-other n r xs ys h))
              ∙ ap (λ l. select n (flat d.rreq) ++ select n l) (sym e)
        ],
      )

  sent :
      (d : Dram M) (o : Option (Req × List Req))
      → IsTracked d
      → pick d.read_id_busy d.rreq_queue ≡ done o
      → IsTracked (send_read sys o d) × ((n : ℕ) → pending n (send_read sys o d) ≡ pending n d)
  unfolding send_read
  sent d none tracked e = (tracked, λ n. refl)
  sent d (some p) tracked e =
      send_read-tracked d p tracked (pick-Picked d.read_id_busy d.rreq_queue e)

  pub issue-tracked :
      (d : Dram M) {d' : Dram M}
      → IsTracked d
      → issue sys d ≡ done d'
      → IsTracked d' × ((n : ℕ) → pending n d' ≡ pending n d)
  unfolding issue
  issue-tracked d tracked h = elim (Bool-cases (sys.will_accept d.mem)) [
    | inl on ↦
        let (o, e, h₁) = >>=-eq-done (pick d.read_id_busy d.rreq_queue) _ (rw on at h) in
        subst (λ d'. IsTracked d' × ((n : ℕ) → pending n d' ≡ pending n d)) (done-injective h₁)
          (sent d o tracked e)
    | inr off ↦
        subst (λ d'. IsTracked d' × ((n : ℕ) → pending n d' ≡ pending n d))
          (done-injective (rw off at h)) (tracked, λ n. refl)
  ]

-- What an answered read does to the reads of `n`.
abbrev pub answered : ℕ → Req → List Req → List Req
answered n r l = if r.id == n then r ∷ l else l

if-le_one : (b : Bool) → (if b then 1 else 0) ≤ 1
if-le_one true = omega arith
if-le_one false = omega arith

module _ {M : Type 0} where
  -- A request is taken out of those in flight, and its identifier is free again.
  taken_out :
      (d d' : Dram M) (r : Req) (us vs : List Req)
      → IsTracked d
      → r.id < length d.read_id_busy
      → flat d.rreq ≡ us ++ r ∷ vs
      → flat d'.rreq ≡ us ++ vs
      → d'.read_id_busy ≡ set d.read_id_busy r.id false
      → d'.rreq_queue ≡ d.rreq_queue
      → IsTracked d' × ((n : ℕ) → pending n d ≡ answered n r (pending n d'))
  taken_out d d' r us vs tracked lt f f' busy queue =
      let one : (n : ℕ) → length (select n (us ++ r ∷ vs)) ≤ 1 = λ n.
        subst (λ (k : ℕ). k ≤ 1) (sym (tracked n) ∙ ap (λ l. length (select n l)) f)
          (if-le_one (is_busy d.read_id_busy n)) in
      (
        λ n. elim (Bool-cases (r.id == n)) [
          | inl h ↦
              ap (λ l. length (select n l)) f'
              ∙ select-rest n r us vs h (one n)
              ∙ ap (λ (b : Bool). if b then 1 else 0)
                  (sym (
                    ap (λ l. is_busy l n) busy ∙ is_busy-set_same d.read_id_busy r.id n false lt h))
          | inr h ↦
              ap (λ l. length (select n l)) f'
              ∙ ap length (sym (select-other n r us vs h) ∙ ap (select n) (sym f))
              ∙ tracked n
              ∙ ap (λ (b : Bool). if b then 1 else 0)
                  (sym (
                    ap (λ l. is_busy l n) busy
                    ∙ is_busy-set_other d.read_id_busy r.id n false lt h))
        ],
        λ n. elim (Bool-cases (r.id == n)) [
          | inl h ↦
              ap (λ l. select n l ++ select n d.rreq_queue) f
              ∙ ap (λ l. l ++ select n d.rreq_queue)
                  (select-only n r us vs h (select-rest n r us vs h (one n)))
              ∙ ap (λ l. r ∷ select n l) (sym queue)
              ∙ ap (λ l. r ∷ (l ++ select n d'.rreq_queue))
                  (sym (ap (select n) f' ∙ length-zero _ (select-rest n r us vs h (one n))))
              ∙ ap (λ (b : Bool). if b then r ∷ pending n d' else pending n d') (sym h)
          | inr h ↦
              ap (λ l. select n l ++ select n d.rreq_queue) f
              ∙ ap (λ l. l ++ select n d.rreq_queue)
                  (select-other n r us vs h ∙ ap (select n) (sym f'))
              ∙ ap (λ l. select n (flat d'.rreq) ++ select n l) (sym queue)
              ∙ ap (λ (b : Bool). if b then r ∷ pending n d' else pending n d') (sym h)
        ],
      )

  of_queue :
      (address : ℕ) (d : Dram M) (q : List Req) {d' : Dram M}
      → IsTracked d
      → queue_at address d.rreq ≡ q
      → read_complete_of address q d ≡ done d'
      → (r : Req) × IsTracked d'
        × ((n : ℕ) → pending n d ≡ answered n r (pending n d'))
        × Served d (r ∷ []) d'
  unfolding read_complete_of
  of_queue address d [] tracked e h = cc
  of_queue address d (r ∷ q) tracked e h =
      let (beats, e₀, h₀) =
        >>=-eq-done (beats_of r.len (r.addr / d.mm.word_size * d.mm.word_size) r.id d.mm) _ h in
      let (u, e₁, h₁) = >>=-eq-done (check (ltb r.id (length d.read_id_busy)) undefined) _ h₀ in
      let (us, vs, f, f') = flat-pop_at address r q d.rreq e in
      let lt : r.id < length d.read_id_busy =
        ltb→lt r.id (length d.read_id_busy) (check-done _ undefined e₁) in
      let (tracked', pending') =
        subst (λ d'. IsTracked d' × ((n : ℕ) → pending n d ≡ answered n r (pending n d')))
          (done-injective h₁)
          (taken_out d
            (record d {
              rresp = d.rresp ++ beats;
              read_id_busy = set d.read_id_busy r.id false;
              rreq = pop_at address d.rreq;
            })
            r us vs tracked lt f f' refl refl) in
      (
        r,
        tracked',
        pending',
        (
          beats,
          ap (λ (x : Dram M). x.rresp) (sym (done-injective h₁)),
          AreAnswers-one d.mm r beats (beats_of-IsAnswer r d.mm e₀),
          ap (λ (x : Dram M). x.mm) (sym (done-injective h₁)),
        ),
      )

  pub read_complete-answered :
      (address : ℕ) (d : Dram M) {d' : Dram M}
      → IsTracked d
      → read_complete address d ≡ done d'
      → (r : Req) × IsTracked d'
        × ((n : ℕ) → pending n d ≡ answered n r (pending n d'))
        × Served d (r ∷ []) d'
  unfolding read_complete
  read_complete-answered address d tracked h =
      of_queue address d (queue_at address d.rreq) tracked refl h
