-- ===== src/Dtm/Parsed.antt =====
-- What the file of architectural state gives: arrays of 32, and values of 64 bits.
use uart_tsi.Base.{
  ℕ, ◌+◌, ◌≡◌, refl, ap, List, [], ◌∷◌, leb, length, All, Option, none, some, done, aborted, check,
  >>=-eq-done, done-injective, replicate,
}
use uart_tsi.Base.Text.{Text, codes, find?}
use mathlib.Core.Path.{subst}
use uart_tsi.Dtm.State.{LoadarchState, IsLoadarch, Is64, csr_values}
use uart_tsi.Dtm.Parse.{
  line_at, stoull, read_priv, numbers, floats, vector_regs, setting, number_at, scalars,
  vector_part, parse_vector, parse_scalars, parse_arrays, parse_hart,
}
use uart_tsi.Dtm.Lengths.{
  stoull-Is64, read_priv-Is64, numbers-Is64, floats-Is64, number_at-Is64, length-vector_regs,
}

vector_part-IsLoadarch :
    (lines : List Text) (id : ℕ) (st : LoadarchState) (s : Text) (o : Option ℕ)
    {r : LoadarchState × ℕ}
    → IsLoadarch st
    → vector_part lines id st s o ≡ done r
    → IsLoadarch r.0
unfolding vector_part
vector_part-IsLoadarch lines id st s none p h =
    subst (λ (r : LoadarchState × ℕ). IsLoadarch r.0) (done-injective h) p
vector_part-IsLoadarch lines id st s (some i) p h =
    let (vlen, e₀, h₀) = >>=-eq-done (setting (codes "VLEN=") s) _ h in
    let (elen, e₁, h₁) = >>=-eq-done (setting (codes "ELEN=") s) _ h₀ in
    let (u, e₂, h₂) = >>=-eq-done (check (leb vlen 256) aborted) _ h₁ in
    let (vpr, e₃, h₃) = >>=-eq-done (vector_regs 32 vlen elen lines (id + 1)) _ h₂ in
    subst (λ (r : LoadarchState × ℕ). IsLoadarch r.0) (done-injective h₃)
      (p.0, p.1, length-vector_regs 32 vlen elen lines (id + 1) e₃, p.3, p.4, p.5, p.6)

-- What the members get from the numbers' lines.
abbrev Scalars : LoadarchState → Type 0
Scalars st =
    All Is64 (csr_values st)
    × All Is64 (st.fcsr ∷ st.vstart ∷ st.vxsat ∷ st.vxrm ∷ st.vcsr ∷ [])
    × (st.vpr ≡ replicate 32 [])

scalars-Scalars :
    (pc prv : ℕ) (ws : List ℕ) → Is64 pc → Is64 prv → All Is64 ws → Scalars (scalars pc prv ws)
unfolding scalars
scalars-Scalars pc prv ws hpc hprv hws =
    let at_ : (k : ℕ) → Is64 (number_at ws k) = λ k. number_at-Is64 ws k hws in
    (
      (
        at_ 6,
        (
          at_ 7,
          (
            at_ 8,
            (
              at_ 10,
              (
                at_ 11,
                (
                  at_ 12,
                  (
                    at_ 13,
                    (
                      at_ 14,
                      (
                        at_ 15,
                        (
                          at_ 16,
                          (
                            at_ 17,
                            (
                              at_ 18,
                              (at_ 19, (at_ 20, (at_ 21, (at_ 22, (at_ 23, (hprv, (hpc, tt))))))),
                            ),
                          ),
                        ),
                      ),
                    ),
                  ),
                ),
              ),
            ),
          ),
        ),
      ),
      (at_ 0, (at_ 1, (at_ 2, (at_ 3, (at_ 4, tt))))),
      refl,
    )

parse_scalars-Scalars :
    (lines : List Text) (id : ℕ) {st : LoadarchState}
    → parse_scalars lines id ≡ done st
    → Scalars st
unfolding parse_scalars
parse_scalars-Scalars lines id h =
    let (s₀, e₀, h₀) = >>=-eq-done (line_at lines id) _ h in
    let (pc, e₁, h₁) = >>=-eq-done (stoull 0 s₀) _ h₀ in
    let (s₁, e₂, h₂) = >>=-eq-done (line_at lines (id + 1)) _ h₁ in
    let (prv, e₃, h₃) = >>=-eq-done (read_priv s₁) _ h₂ in
    let (ws, e₄, h₄) = >>=-eq-done (numbers 26 lines (id + 2)) _ h₃ in
    subst Scalars (done-injective h₄) (
      scalars-Scalars pc prv ws (stoull-Is64 0 s₀ e₁) (read_priv-Is64 s₁ e₃)
        (numbers-Is64 26 lines (id + 2) e₄).1)

parse_arrays-IsLoadarch :
    (lines : List Text) (id : ℕ) (st : LoadarchState) {st' : LoadarchState}
    → Scalars st
    → parse_arrays lines id st ≡ done st'
    → IsLoadarch st'
unfolding parse_arrays
parse_arrays-IsLoadarch lines id st (c, f, nv) h =
    let (fpr, e₀, h₀) = >>=-eq-done (floats 32 lines id) _ h in
    let (xpr, e₁, h₁) = >>=-eq-done (numbers 32 lines (id + 32)) _ h₀ in
    let (nf, hf) = floats-Is64 32 lines id e₀ in
    let (nx, hx) = numbers-Is64 32 lines (id + 32) e₁ in
    subst IsLoadarch (done-injective h₁) (nx, nf, ap length nv, hx, hf, c, f)

-- What a part of the file that can be read gives for a hart: arrays of 32 and values of 64 bits.
pub parse_hart-IsLoadarch :
    (lines : List Text) (id : ℕ) {st : LoadarchState} {id' : ℕ}
    → parse_hart lines id ≡ done (st, id')
    → IsLoadarch st
unfolding parse_hart parse_vector
parse_hart-IsLoadarch lines id h =
    let (st₀, e₀, h₀) = >>=-eq-done (parse_scalars lines id) _ h in
    let (st₁, e₁, h₁) = >>=-eq-done (parse_arrays lines (id + 28) st₀) _ h₀ in
    let (s, e₂, h₂) = >>=-eq-done (line_at lines (id + 92)) _ h₁ in
    vector_part-IsLoadarch lines (id + 92) st₁ s (find? (codes "VLEN") s)
      (parse_arrays-IsLoadarch lines (id + 28) st₀ (parse_scalars-Scalars lines id e₀) e₁) h₂
