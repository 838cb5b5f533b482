-- ===== src/Dtm/Layout.antt =====
-- The order of the lines in the file of architectural state, for a hart without vectors.
use uart_tsi.Base.{
  ℕ, zero, suc, ◌+◌, leb→le, check-done, >>=-eq-done, done-injective, ◌≤◌, ◌≡◌, refl, ap, sym, ◌∙◌,
  ◌⊎◌, inl, inr, true, false, none, List, [], ◌∷◌, length, leb, arith, drop, replicate, done, threw,
  check,
}
use mathlib.Core.Path.{subst}
use uart_tsi.Base.Text.{Text, codes, find?}
use uart_tsi.Dtm.State.{LoadarchState}
use uart_tsi.Dtm.Parse.{
  line_at, stoull, read_priv, numbers, floats, scalars, vector_part, parse_vector, parse_scalars,
  parse_arrays, parse_hart,
}

-- The lines from `id` on are these numbers, in C's notation.
abbrev pub IsNumbers : List Text → ℕ → List ℕ → Type 0
IsNumbers lines id [] = Unit
IsNumbers lines id (w ∷ ws) =
    ((s : Text) × (line_at lines id ≡ done s) × (stoull 0 s ≡ done w)) × IsNumbers lines (id + 1) ws

-- The lines from `id` on are these numbers, in base 16 from the nineteenth character on.
abbrev pub IsFloats : List Text → ℕ → List ℕ → Type 0
IsFloats lines id [] = Unit
IsFloats lines id (w ∷ ws) =
    ((s : Text) × (line_at lines id ≡ done s) × (18 ≤ length s) × (stoull 16 (drop 18 s) ≡ done w))
    × IsFloats lines (id + 1) ws

-- The name of a privilege level
abbrev pub IsPriv : Text → ℕ → Type 0
IsPriv s p =
    ((s ≡ codes "U") × (p ≡ 0)) ⊎ (((s ≡ codes "S") × (p ≡ 1)) ⊎ ((s ≡ codes "M") × (p ≡ 3)))

-- The numbers behind the privilege level, in the order of their lines
abbrev pub in_lines : LoadarchState → List ℕ
in_lines st =
    st.fcsr ∷ st.vstart ∷ st.vxsat ∷ st.vxrm ∷ st.vcsr ∷ st.vtype ∷ st.stvec ∷ st.sscratch ∷ st.sepc
    ∷ st.scause ∷ st.stval ∷ st.satp ∷ st.mstatus ∷ st.medeleg ∷ st.mideleg ∷ st.mie ∷ st.mtvec
    ∷ st.mscratch ∷ st.mepc ∷ st.mcause ∷ st.mtval ∷ st.mip ∷ st.mcycle ∷ st.minstret ∷ st.mtime
    ∷ st.mtimecmp ∷ []

-- What a part of the file holds for a hart without vectors: ninety-three lines from `id` on.
pub record IsLaidOut (lines : List Text) (id : ℕ) (st : LoadarchState) : Type 0 where
  pub first : IsNumbers lines id (st.pc ∷ [])
  pub level : (s : Text) × (line_at lines (id + 1) ≡ done s) × IsPriv s st.prv
  pub members : IsNumbers lines (id + 2) (in_lines st)
  pub fprs : IsFloats lines (id + 28) st.fpr
  pub xprs : IsNumbers lines (id + 60) st.xpr
  pub last : (s : Text) × (line_at lines (id + 92) ≡ done s) × (find? (codes "VLEN") s ≡ none)
  pub fpr_length : length st.fpr ≡ 32
  pub xpr_length : length st.xpr ≡ 32

numbers-IsNumbers :
    (lines : List Text) (id : ℕ) (ws : List ℕ)
    → IsNumbers lines id ws
    → numbers (length ws) lines id ≡ done ws
unfolding numbers
numbers-IsNumbers lines id [] h = refl
numbers-IsNumbers lines id (w ∷ ws) ((s, e, v), h) =
    rw (e, v, numbers-IsNumbers lines (id + 1) ws h) refl

long_enough : (n : ℕ) → 18 ≤ n → leb 18 n ≡ true
long_enough n h = ground arith

floats-IsFloats :
    (lines : List Text) (id : ℕ) (ws : List ℕ)
    → IsFloats lines id ws
    → floats (length ws) lines id ≡ done ws
unfolding floats
floats-IsFloats lines id [] h = refl
floats-IsFloats lines id (w ∷ ws) ((s, e, long, v), h) =
    rw (e, long_enough (length s) long, v, floats-IsFloats lines (id + 1) ws h) refl

read_priv-IsPriv : (s : Text) (p : ℕ) → IsPriv s p → read_priv s ≡ done p
unfolding read_priv
read_priv-IsPriv s p (inl (e, e')) = rw (e, e') refl
read_priv-IsPriv s p (inr (inl (e, e'))) = rw (e, e') refl
read_priv-IsPriv s p (inr (inr (e, e'))) = rw (e, e') refl

-- Conversely, what has been read is there.
pub numbers-done :
    (n : ℕ) (lines : List Text) (id : ℕ) (ws : List ℕ)
    → numbers n lines id ≡ done ws
    → IsNumbers lines id ws
unfolding numbers
numbers-done zero lines id ws h = subst (IsNumbers lines id) (done-injective h) tt
numbers-done (suc n) lines id ws h =
    let (s, e₀, h₀) = >>=-eq-done (line_at lines id) _ h in
    let (w, e₁, h₁) = >>=-eq-done (stoull 0 s) _ h₀ in
    let (us, e₂, h₂) = >>=-eq-done (numbers n lines (id + 1)) _ h₁ in
    subst (IsNumbers lines id) (done-injective h₂)
      ((s, e₀, e₁), numbers-done n lines (id + 1) us e₂)

pub floats-done :
    (n : ℕ) (lines : List Text) (id : ℕ) (ws : List ℕ)
    → floats n lines id ≡ done ws
    → IsFloats lines id ws
unfolding floats
floats-done zero lines id ws h = subst (IsFloats lines id) (done-injective h) tt
floats-done (suc n) lines id ws h =
    let (s, e₀, h₀) = >>=-eq-done (line_at lines id) _ h in
    let (u, c, h') = >>=-eq-done (check (leb 18 (length s)) threw) _ h₀ in
    let (w, e₁, h₁) = >>=-eq-done (stoull 16 (drop 18 s)) _ h' in
    let (us, e₂, h₂) = >>=-eq-done (floats n lines (id + 1)) _ h₁ in
    subst (IsFloats lines id) (done-injective h₂) (
      (s, e₀, leb→le 18 (length s) (check-done (leb 18 (length s)) threw c), e₁),
      floats-done n lines (id + 1) us e₂,
    )

-- A state as the members' lines alone give it.
abbrev without_vectors : LoadarchState → LoadarchState
without_vectors st = record st { vlen = 0; elen = 0; vpr = replicate 32 []; has_vector = false }

parse_scalars-IsLaidOut :
    (lines : List Text) (id : ℕ) (st : LoadarchState)
    → IsLaidOut lines id st
    → parse_scalars lines id ≡ done (record (without_vectors st) { xpr = []; fpr = [] })
unfolding parse_scalars scalars
parse_scalars-IsLaidOut lines id st h =
    let ((s, e, v), u) = h.first in
    let (s', e', p) = h.level in
    rw
      (
        e,
        v,
        e',
        read_priv-IsPriv s' st.prv p,
        numbers-IsNumbers lines (id + 2) (in_lines st) h.members,
      )
      refl

-- Where the lines from `id` on are laid out for a hart without vectors (its address, the name of its
-- privilege level, the twenty-six other numbers, 32 floating-point registers, 32 general registers and
-- a line without VLEN), the reading ends behind these 93 lines with every member from its own line.
pub parse_hart-IsLaidOut :
    (lines : List Text) (id : ℕ) (st : LoadarchState)
    → IsLaidOut lines id st
    → parse_hart lines id
      ≡ done (record st { vlen = 0; elen = 0; vpr = replicate 32 []; has_vector = false }, id + 93)
unfolding parse_hart parse_arrays parse_vector vector_part
parse_hart-IsLaidOut lines id st h =
    let (s, e, off) = h.last in
    let f : floats 32 lines (id + 28) ≡ done st.fpr =
      ap (λ (n : ℕ). floats n lines (id + 28)) (sym h.fpr_length)
      ∙ floats-IsFloats lines (id + 28) st.fpr h.fprs in
    let end : id + 92 + 1 ≡ id + 93 = omega arith in
    let behind : id + 28 + 32 ≡ id + 60 = omega arith in
    let x : numbers 32 lines (id + 60) ≡ done st.xpr =
      ap (λ (n : ℕ). numbers n lines (id + 60)) (sym h.xpr_length)
      ∙ numbers-IsNumbers lines (id + 60) st.xpr h.xprs in
    rw (parse_scalars-IsLaidOut lines id st h, f, behind, x, e, off, end) refl
