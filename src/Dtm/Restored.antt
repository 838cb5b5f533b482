-- ===== src/Dtm/Restored.antt =====
-- What `reset` leaves in a hart's registers.
use uart_tsi.Base.{
  ℕ, ◌≡◌, refl, ap, sym, ◌∙◌, Bool, true, false, ◌&&◌, not, List, [], ◌∷◌, map, if◌then◌else◌, ◌==◌,
  arith, length, All, drop, Bool-cases, inl, inr,
}
use mathlib.Core.Path.{ap₂}
use uart_tsi.Dtm.Encoding.{csr_dscratch0}
use uart_tsi.Dtm.State.{LoadarchState, fs_on, vs_on, all_on}
use uart_tsi.Dtm.Restore.{
  reg, csr, regs_from, fregs_from, vregs_from, reg_words, restore_calls, float_calls, vector_calls,
  csr_calls,
}
use uart_tsi.Dtm.Hart.{Hart, csr_vstart, csr_vtype}
use uart_tsi.Dtm.Sequence.{effect, effects, effects-append}
use uart_tsi.Dtm.Written.{
  values_at, overwritten, values_at-overwritten, last_csr, last_f, last_v, csr-effects, f-effects,
  v-effects, x-effects-regs, Fits, last_csr-append, last_f-append, last_v-append, last_csr-regs,
  last_csr-fregs, last_csr-vregs, last_f-regs, last_f-fregs, last_f-vregs, last_v-regs,
  last_v-fregs, last_v-vregs,
}

-- A CSR that only its own calls change.
abbrev pub own : ℕ → Bool
own n = not (n == csr_dscratch0) && not (n == csr_vstart) && not (n == csr_vtype)

x-regs :
    (base : ℕ) (ws : List ℕ) (g : Hart)
    → length ws ≡ 32
    → values_at (effects base (regs_from 0 ws) g).x 1 31 ≡ drop 1 ws
x-regs base [] g len = absurd (omega arith)
x-regs base (w ∷ ws) g len =
    let n : length ws ≡ 31 = omega arith in
    ap (λ (f : ℕ → ℕ). values_at f 1 31)
      (x-effects-regs base 1 ws (effect base (reg 0 w) g) (omega arith))
    ∙ ap (values_at (overwritten 1 ws (effect base (reg 0 w) g).x) 1) (sym n)
    ∙ values_at-overwritten ws 1 _

module _ (base : ℕ) (st : LoadarchState) (h : Hart) where
  abbrev pub restored : Hart
  restored = effects base (restore_calls st) h

  -- What the calls before those of the nineteen leave.
  abbrev pub earlier : ℕ → ℕ
  earlier n =
      last_csr n (vector_calls st)
        (last_csr n (float_calls st) (if n == 0x300 then all_on else h.csr n))

  pub csr-restored : (n : ℕ) → own n ≡ true → restored.csr n ≡ last_csr n (csr_calls st) (earlier n)
  unfolding restore_calls
  csr-restored n o =
      csr-effects base n (restore_calls st) h (ground arith) (ground arith) (ground arith)
      ∙ last_csr-append n (float_calls st) _ _
      ∙ last_csr-append n (vector_calls st) _ _
      ∙ last_csr-append n (csr_calls st) (regs_from 0 st.xpr) (earlier n)
      ∙ last_csr-regs n 0 st.xpr _

  pub csrs-restored :
      (ns : List ℕ)
      → All (λ n. own n ≡ true) ns
      → map restored.csr ns ≡ map (λ n. last_csr n (csr_calls st) (earlier n)) ns
  csrs-restored [] o = refl
  csrs-restored (n ∷ ns) o = ap₂ ◌∷◌ (csr-restored n o.0) (csrs-restored ns o.1)

  pub last_csr-float : (n d : ℕ) → (n == 3) ≡ false → last_csr n (float_calls st) d ≡ d
  last_csr-float n d ne = elim (Bool-cases (fs_on st)) [
    | inl on ↦ rw on (
        last_csr-append n (fregs_from 0 st.fpr) _ d
        ∙ ap (λ (b : Bool). if b then st.fcsr else last_csr n (fregs_from 0 st.fpr) d) ne
        ∙ last_csr-fregs n 0 st.fpr d)
    | inr off ↦ rw off refl
  ]

  pub last_csr-float_fcsr :
      (d : ℕ) → last_csr 3 (float_calls st) d ≡ (if fs_on st then st.fcsr else d)
  last_csr-float_fcsr d = elim (Bool-cases (fs_on st)) [
    | inl on ↦ rw on (last_csr-append 3 (fregs_from 0 st.fpr) _ d)
    | inr off ↦ rw off refl
  ]

  -- The vector part leaves every CSR but its own, which are below 16 and from 8 on.
  pub last_csr-vector :
      (n d : ℕ)
      → (n == 8) ≡ false
      → (n == 9) ≡ false
      → (n == 10) ≡ false
      → (n == 15) ≡ false
      → last_csr n (vector_calls st) d ≡ d
  last_csr-vector n d e₀ e₁ e₂ e₃ = elim (Bool-cases (st.has_vector && vs_on st)) [
    | inl on ↦ rw on (
        last_csr-append n (vregs_from 0 st.vpr) _ d
        ∙ rw (e₀, e₁, e₂, e₃) (last_csr-vregs n 0 st.vpr d))
    | inr off ↦ rw off refl
  ]

  last_f-float :
      (f : ℕ → ℕ) → last_f (float_calls st) f ≡ (if fs_on st then overwritten 0 st.fpr f else f)
  last_f-float f = elim (Bool-cases (fs_on st)) [
    | inl on ↦ rw on (last_f-append (fregs_from 0 st.fpr) _ f ∙ last_f-fregs 0 st.fpr f)
    | inr off ↦ rw off refl
  ]

  last_f-vector : (f : ℕ → ℕ) → last_f (vector_calls st) f ≡ f
  last_f-vector f = elim (Bool-cases (st.has_vector && vs_on st)) [
    | inl on ↦ rw on (last_f-append (vregs_from 0 st.vpr) _ f ∙ last_f-vregs 0 st.vpr f)
    | inr off ↦ rw off refl
  ]

  pub f-restored : restored.f ≡ (if fs_on st then overwritten 0 st.fpr h.f else h.f)
  unfolding restore_calls
  f-restored =
      let f₁ : ℕ → ℕ = last_f (float_calls st) h.f in
      f-effects base (restore_calls st) h
      ∙ last_f-append (float_calls st) _ h.f
      ∙ last_f-append (vector_calls st) _ f₁
      ∙ last_f-append (csr_calls st) (regs_from 0 st.xpr) _
      ∙ last_f-regs 0 st.xpr _
      ∙ last_f-vector f₁
      ∙ last_f-float h.f

  last_v-float : (f : ℕ → List ℕ) → last_v (float_calls st) f ≡ f
  last_v-float f = elim (Bool-cases (fs_on st)) [
    | inl on ↦ rw on (last_v-append (fregs_from 0 st.fpr) _ f ∙ last_v-fregs 0 st.fpr f)
    | inr off ↦ rw off refl
  ]

  last_v-vector :
      (f : ℕ → List ℕ)
      → last_v (vector_calls st) f
        ≡ (if st.has_vector && vs_on st then overwritten 0 (map reg_words st.vpr) f else f)
  last_v-vector f = elim (Bool-cases (st.has_vector && vs_on st)) [
    | inl on ↦ rw on (last_v-append (vregs_from 0 st.vpr) _ f ∙ last_v-vregs 0 st.vpr f)
    | inr off ↦ rw off refl
  ]

  pub v-restored :
      All (Fits h.vwords) (restore_calls st)
      → restored.v
        ≡ (if st.has_vector && vs_on st then overwritten 0 (map reg_words st.vpr) h.v else h.v)
  unfolding restore_calls
  v-restored fits =
      v-effects base h.vwords (restore_calls st) h refl fits
      ∙ last_v-append (float_calls st) _ h.v
      ∙ last_v-append (vector_calls st) _ _
      ∙ last_v-append (csr_calls st) (regs_from 0 st.xpr) _
      ∙ last_v-regs 0 st.xpr _
      ∙ ap (last_v (vector_calls st)) (last_v-float h.v)
      ∙ last_v-vector h.v

  pub x-restored : length st.xpr ≡ 32 → values_at restored.x 1 31 ≡ drop 1 st.xpr
  unfolding restore_calls
  x-restored len =
      let h₁ : Hart = effects base (float_calls st) (effect base (csr 0x300 all_on) h) in
      let h₂ : Hart = effects base (vector_calls st) h₁ in
      ap (λ (g : Hart). values_at g.x 1 31)
        (effects-append base (float_calls st) _ (effect base (csr 0x300 all_on) h)
          ∙ effects-append base (vector_calls st) _ h₁
          ∙ effects-append base (csr_calls st) (regs_from 0 st.xpr) h₂)
      ∙ x-regs base st.xpr (effects base (csr_calls st) h₂) len
