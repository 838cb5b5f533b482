-- ===== src/Dramsim/Order.antt =====
-- Requests by identifier, in the queues by address and in the lists that those come from.
use uart_tsi.Base.{
  ℕ, zero, suc, ◌≤◌, ◌<◌, ◌≡◌, refl, ap, sym, ◌∙◌, Bool, true, false, Option, none, some, List, [],
  ◌∷◌, ◌++◌, if◌then◌else◌, ◌==◌, arith, length, length-append, set, get_elem?, append_assoc, All,
  Bool-cases, inl, inr, done, >>=-eq-done, done-injective,
}
use mathlib.Core.Path.{subst}
use mathlib.Core.Option.{some-injective}
use uart_tsi.Dramsim.Queues.{
  Req, Queues, queue_at, push_at, pop_at, tail, flat, busy_at, keep, pick,
}

-- The requests with the identifier `n`.
abbrev pub select : ℕ → List Req → List Req
select n [] = []
select n (r ∷ rs) = if r.id == n then r ∷ select n rs else select n rs

abbrev pub is_busy : List Bool → ℕ → Bool
is_busy busy n = elim (get_elem? busy n) [ none ↦ false | some b ↦ b ]

pub select-append : (n : ℕ) (xs ys : List Req) → select n (xs ++ ys) ≡ select n xs ++ select n ys
select-append n [] ys = refl
select-append n (x ∷ xs) ys = elim (Bool-cases (x.id == n)) [
  | inl e ↦ rw e (ap (λ l. x ∷ l) (select-append n xs ys))
  | inr e ↦ rw e (select-append n xs ys)
]

module _ {ℓ} {A : Type ℓ} where
  pub flat-push_at :
      (a : ℕ) (x : A) (m : Queues A)
      → (xs : List A) × (ys : List A) × (flat m ≡ xs ++ ys) × (flat (push_at a x m) ≡ xs ++ x ∷ ys)
  unfolding push_at
  flat-push_at a x [] = ([], [], refl, refl)
  flat-push_at a x ((b, q) ∷ m) = elim (Bool-cases (b == a)) [
    | inl e ↦ (q, flat m, refl, rw e (append_assoc q (x ∷ []) (flat m)))
    | inr e ↦
        let (xs, ys, p, p') = flat-push_at a x m in
        (
          q ++ xs,
          ys,
          ap (λ l. q ++ l) p ∙ sym (append_assoc q xs ys),
          rw e (ap (λ l. q ++ l) p' ∙ sym (append_assoc q xs (x ∷ ys))),
        )
  ]

  pub flat-pop_at :
      (a : ℕ) (x : A) (q : List A) (m : Queues A)
      → queue_at a m ≡ x ∷ q
      → (xs : List A) × (ys : List A) × (flat m ≡ xs ++ x ∷ ys) × (flat (pop_at a m) ≡ xs ++ ys)
  unfolding pop_at queue_at
  flat-pop_at a x q [] h = cc
  flat-pop_at a x q ((b, q') ∷ m) h = elim (Bool-cases (b == a)) [
    | inl e ↦
        let e' : q' ≡ x ∷ q = rw e at h in
        ([], q ++ flat m, ap (λ l. l ++ flat m) e', rw e (ap (λ l. tail l ++ flat m) e'))
    | inr e ↦
        let (xs, ys, p, p') = flat-pop_at a x q m (rw e at h) in
        (
          q' ++ xs,
          ys,
          ap (λ l. q' ++ l) p ∙ sym (append_assoc q' xs (x ∷ ys)),
          rw e (ap (λ l. q' ++ l) p' ∙ sym (append_assoc q' xs ys)),
        )
  ]

-- How a request among others is selected.
pub select-middle :
    (n : ℕ) (r : Req) (xs ys : List Req)
    → select n (xs ++ r ∷ ys)
      ≡ (if r.id == n then select n xs ++ r ∷ select n ys else select n (xs ++ ys))
select-middle n r xs ys = elim (Bool-cases (r.id == n)) [
  | inl e ↦ select-append n xs (r ∷ ys) ∙ rw e refl
  | inr e ↦ select-append n xs (r ∷ ys) ∙ rw e (sym (select-append n xs ys))
]

pub length-zero : {A : Type 0} (xs : List A) → length xs ≡ 0 → xs ≡ []
length-zero [] h = refl
length-zero (x ∷ xs) h = absurd (omega arith)

append-nil_left : {A : Type 0} (xs ys : List A) → length (xs ++ ys) ≡ 0 → xs ≡ []
append-nil_left xs ys h = length-zero xs (omega (arith, length-append xs ys, h))

-- A request among others, where none before it has its identifier.
pub select-first :
    (n : ℕ) (r : Req) (xs ys : List Req)
    → (r.id == n) ≡ true
    → select n xs ≡ []
    → select n (xs ++ r ∷ ys) ≡ r ∷ select n (xs ++ ys)
select-first n r xs ys e h =
    select-middle n r xs ys
    ∙ rw e (
        ap (λ l. l ++ r ∷ select n ys) h
        ∙ ap (λ l. r ∷ l) (ap (λ l. l ++ select n ys) (sym h) ∙ sym (select-append n xs ys)))

pub select-other :
    (n : ℕ) (r : Req) (xs ys : List Req)
    → (r.id == n) ≡ false
    → select n (xs ++ r ∷ ys) ≡ select n (xs ++ ys)
select-other n r xs ys e = select-middle n r xs ys ∙ rw e refl

-- A request that is put among others of which none has its identifier.
pub select-only :
    (n : ℕ) (r : Req) (xs ys : List Req)
    → (r.id == n) ≡ true
    → length (select n (xs ++ ys)) ≡ 0
    → select n (xs ++ r ∷ ys) ≡ r ∷ []
select-only n r xs ys e h =
    select-first n r xs ys e
      (append-nil_left (select n xs) (select n ys) (ap length (sym (select-append n xs ys)) ∙ h))
    ∙ ap (λ l. r ∷ l) (length-zero (select n (xs ++ ys)) h)

-- Where at most one request has an identifier, none other than this one has it.
pub select-rest :
    (n : ℕ) (r : Req) (xs ys : List Req)
    → (r.id == n) ≡ true
    → length (select n (xs ++ r ∷ ys)) ≤ 1
    → length (select n (xs ++ ys)) ≡ 0
select-rest n r xs ys e h =
    let split : select n (xs ++ r ∷ ys) ≡ select n xs ++ r ∷ select n ys =
      select-middle n r xs ys ∙ rw e refl in
    let total = ap length split ∙ length-append (select n xs) (r ∷ select n ys) in
    let rest = ap length (select-append n xs ys) ∙ length-append (select n xs) (select n ys) in
    omega (arith, total, rest, h)

pub is_busy-set :
    (busy : List Bool) (i n : ℕ) (v : Bool)
    → i < length busy
    → is_busy (set busy i v) n ≡ (if i == n then v else is_busy busy n)
is_busy-set [] i n v lt = absurd (omega arith)
is_busy-set (b ∷ busy) zero zero v lt = refl
is_busy-set (b ∷ busy) zero (suc n) v lt = let e : (0 == suc n) ≡ false = ground arith in rw e refl
is_busy-set (b ∷ busy) (suc i) zero v lt = let e : (suc i == 0) ≡ false = ground arith in rw e refl
is_busy-set (b ∷ busy) (suc i) (suc n) v lt =
    is_busy-set busy i n v (omega arith)
    ∙ ap (λ (c : Bool). if c then v else is_busy busy n) (ground arith)

-- What is picked: the first request whose identifier is not busy.
abbrev pub Picked : List Bool → List Req → Req × List Req → Type 0
Picked busy q (r, rest) =
    (xs : List Req) × (ys : List Req) × (q ≡ xs ++ r ∷ ys)
    × (rest ≡ xs ++ ys)
    × All (λ p. is_busy busy p.id ≡ true) xs
    × (is_busy busy r.id ≡ false)
    × (r.id < length busy)

busy_at-done :
    (busy : List Bool) (n : ℕ) {b : Bool}
    → busy_at busy n ≡ done b
    → (is_busy busy n ≡ b) × (n < length busy)
unfolding busy_at
busy_at-done [] n h = cc
busy_at-done (c ∷ busy) zero h = (done-injective h, omega arith)
busy_at-done (c ∷ busy) (suc n) h = let (e, lt) = busy_at-done busy n h in (e, omega arith)

Picked-keep :
    (busy : List Bool) (r : Req) (rs : List Req) (o : Option (Req × List Req)) {p : Req × List Req}
    → is_busy busy r.id ≡ true
    → ((p' : Req × List Req) → o ≡ some p' → Picked busy rs p')
    → keep r o ≡ some p
    → Picked busy (r ∷ rs) p
unfolding keep
Picked-keep busy r rs none b ih h = cc
Picked-keep busy r rs (some (p', rest)) b ih h =
    let (xs, ys, e, e', all, free, lt) = ih (p', rest) refl in
    subst (Picked busy (r ∷ rs)) (some-injective _ _ h)
      (r ∷ xs, ys, ap (λ l. r ∷ l) e, ap (λ l. r ∷ l) e', (b, all), free, lt)

pub pick-Picked :
    (busy : List Bool) (q : List Req) {p : Req × List Req}
    → pick busy q ≡ done (some p)
    → Picked busy q p
unfolding pick
pick-Picked busy [] h = cc
pick-Picked busy (r ∷ rs) h =
    let (b, e₀, h₀) = >>=-eq-done (busy_at busy r.id) _ h in
    let (is_b, lt) = busy_at-done busy r.id e₀ in
    elim (Bool-cases b) [
      | inl on ↦
          let (o, e₁, h₁) = >>=-eq-done (pick busy rs) _ (rw on at h₀) in
          Picked-keep busy r rs o (is_b ∙ on) (λ p' e. pick-Picked busy rs (e₁ ∙ ap done e))
            (done-injective h₁)
      | inr off ↦
          subst (Picked busy (r ∷ rs)) (some-injective _ _ (done-injective (rw off at h₀)))
            ([], rs, refl, refl, tt, is_b ∙ off, lt)
    ]

pub is_busy-set_same :
    (busy : List Bool) (i n : ℕ) (v : Bool)
    → i < length busy
    → (i == n) ≡ true
    → is_busy (set busy i v) n ≡ v
is_busy-set_same busy i n v lt h = is_busy-set busy i n v lt ∙ rw h refl

pub is_busy-set_other :
    (busy : List Bool) (i n : ℕ) (v : Bool)
    → i < length busy
    → (i == n) ≡ false
    → is_busy (set busy i v) n ≡ is_busy busy n
is_busy-set_other busy i n v lt h = is_busy-set busy i n v lt ∙ rw h refl
