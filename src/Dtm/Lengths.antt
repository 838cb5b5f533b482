-- ===== src/Dtm/Lengths.antt =====
-- What the lines of the file give: numbers of 64 bits, in the arrays as many as there are lines.
use uart_tsi.Base.{
  ℕ, zero, suc, ◌+◌, ◌≡◌, refl, ap, sym, ◌∙◌, Bool, true, false, List, [], ◌∷◌, if◌then◌else◌, leb,
  ◌==◌, arith, length, All, All-get_elem?, get_elem?, Bool-cases, Option-cases, inl, inr, Run, done,
  stop, threw, aborted, check, if-eq-done, >>=-eq-done, done-injective, drop,
}
use uart_tsi.Base.Text.{
  Text, codes, magnitude, signed_value, strtoull, after_sign, skip_space, text_eq,
}
use mathlib.Core.Path.{subst}
use uart_tsi.Dtm.State.{Is64}
use uart_tsi.Dtm.Parse.{
  line_at, stoull, read_priv, numbers, floats, vector_reg, vector_regs, number_at,
}

signed_value-Is64 : (minus : Bool) (v : ℕ) → Is64 (signed_value minus v)
unfolding signed_value
signed_value-Is64 true v = ground arith
signed_value-Is64 false v = ground arith

after_sign-Is64 : (base : ℕ) (s : Text) → Is64 (after_sign base s)
unfolding after_sign
after_sign-Is64 base [] = omega arith
after_sign-Is64 base (c ∷ s) = elim (Bool-cases (c == b'-')) [
  | inl e ↦ rw e (signed_value-Is64 true (magnitude base s))
  | inr ne ↦ elim (Bool-cases (c == b'+')) [
    | inl e ↦ rw (ne, e) (signed_value-Is64 false (magnitude base s))
    | inr ne' ↦ rw (ne, ne') (signed_value-Is64 false (magnitude base (c ∷ s)))
  ]
]

pub stoull-Is64 : (base : ℕ) (s : Text) {w : ℕ} → stoull base s ≡ done w → Is64 w
unfolding stoull strtoull
stoull-Is64 base s h =
    let (e₀, h₀) = if-eq-done _ threw _ h in
    let (e₁, h₁) = if-eq-done _ threw _ h₀ in
    subst Is64 (done-injective h₁) (after_sign-Is64 base (skip_space s))

abbrev Yields {ℓ} : {A : Type ℓ} → (A → Type 0) → Run A → Type 0
Yields P (done a) = P a
Yields P (stop s) = Unit

Yields-if {ℓ} :
    {A : Type ℓ} (P : A → Type 0) (b : Bool) (m m' : Run A)
    → Yields P m
    → Yields P m'
    → Yields P (if b then m else m')
Yields-if P true m m' h k = h
Yields-if P false m m' h k = k

pub read_priv-Is64 : (s : Text) {w : ℕ} → read_priv s ≡ done w → Is64 w
unfolding read_priv
read_priv-Is64 s h =
    let machine : Run ℕ = if text_eq (codes "M") s then done 3 else stop aborted in
    let other : Run ℕ = if text_eq (codes "S") s then done 1 else machine in
    subst (Yields Is64) h (
      Yields-if Is64 (text_eq (codes "U") s) (done 0) other (omega arith) (
        Yields-if Is64 (text_eq (codes "S") s) (done 1) machine (omega arith)
          (Yields-if Is64 (text_eq (codes "M") s) (done 3) (stop aborted) (omega arith) tt)))

pub numbers-Is64 :
    (n : ℕ) (lines : List Text) (id : ℕ) {ws : List ℕ}
    → numbers n lines id ≡ done ws
    → (length ws ≡ n) × All Is64 ws
unfolding numbers
numbers-Is64 zero lines id h =
    subst (λ ws. (length ws ≡ 0) × All Is64 ws) (done-injective h) (refl, tt)
numbers-Is64 (suc n) lines id h =
    let (s, e₀, h₀) = >>=-eq-done (line_at lines id) _ h in
    let (w, e₁, h₁) = >>=-eq-done (stoull 0 s) _ h₀ in
    let (ws, e₂, h₂) = >>=-eq-done (numbers n lines (id + 1)) _ h₁ in
    let (len, all) = numbers-Is64 n lines (id + 1) e₂ in
    subst (λ us. (length us ≡ suc n) × All Is64 us) (done-injective h₂)
      (ap suc len, (stoull-Is64 0 s e₁, all))

pub floats-Is64 :
    (n : ℕ) (lines : List Text) (id : ℕ) {ws : List ℕ}
    → floats n lines id ≡ done ws
    → (length ws ≡ n) × All Is64 ws
unfolding floats
floats-Is64 zero lines id h =
    subst (λ ws. (length ws ≡ 0) × All Is64 ws) (done-injective h) (refl, tt)
floats-Is64 (suc n) lines id h =
    let (s, e₀, h₀) = >>=-eq-done (line_at lines id) _ h in
    let (u, c, h') = >>=-eq-done (check (leb 18 (length s)) threw) _ h₀ in
    let (w, e₁, h₁) = >>=-eq-done (stoull 16 (drop 18 s)) _ h' in
    let (ws, e₂, h₂) = >>=-eq-done (floats n lines (id + 1)) _ h₁ in
    let (len, all) = floats-Is64 n lines (id + 1) e₂ in
    subst (λ us. (length us ≡ suc n) × All Is64 us) (done-injective h₂)
      (ap suc len, (stoull-Is64 16 (drop 18 s) e₁, all))

pub number_at-Is64 : (ws : List ℕ) (k : ℕ) → All Is64 ws → Is64 (number_at ws k)
number_at-Is64 ws k h = elim (Option-cases (get_elem? ws k)) [
  | inl e ↦ rw (e, number_at) (omega arith)
  | inr (w, e) ↦ rw (e, number_at) (All-get_elem? Is64 ws k h e)
]

pub length-vector_regs :
    (n vlen elen : ℕ) (lines : List Text) (id : ℕ) {bss : List (List ℕ)}
    → vector_regs n vlen elen lines id ≡ done bss
    → length bss ≡ n
unfolding vector_regs
length-vector_regs zero vlen elen lines id h =
    ap (λ (bss : List (List ℕ)). length bss) (sym (done-injective h))
length-vector_regs (suc n) vlen elen lines id h =
    let (s, e₀, h₀) = >>=-eq-done (line_at lines id) _ h in
    let (bytes, e₁, h₁) = >>=-eq-done (vector_reg vlen elen s) _ h₀ in
    let (rest, e₂, h₂) = >>=-eq-done (vector_regs n vlen elen lines (id + 1)) _ h₁ in
    ap (λ (bss : List (List ℕ)). length bss) (sym (done-injective h₂))
    ∙ ap suc (length-vector_regs n vlen elen lines (id + 1) e₂)
