-- ===== src/Dtm/Written.antt =====
-- What a sequence of calls leaves in the register files and in the CSRs: the last value written.
use uart_tsi.Base.{
  ℕ, zero, suc, ◌+◌, ◌<◌, ◌≡◌, ◌≢◌, refl, ap, sym, ◌∙◌, true, false, List, [], ◌∷◌, ◌++◌, map,
  if◌then◌else◌, ◌==◌, arith, length, take-ge, All, take,
}
use mathlib.Core.Path.{ap₂}
use uart_tsi.Dtm.Encoding.{csr_dscratch0}
use uart_tsi.Dtm.Restore.{
  Restore, reg, freg, vreg, vtype, csr, regs_from, fregs_from, vregs_from, reg_words,
}
use uart_tsi.Dtm.Hart.{Hart, over, update, csr_vstart, csr_vtype}
use uart_tsi.Dtm.Sequence.{effect, effects}

-- `f` at the `n` numbers from `i` on.
abbrev pub values_at {ℓ} : {A : Type ℓ} → (ℕ → A) → ℕ → ℕ → List A
values_at f i zero = []
values_at f i (suc n) = f i ∷ values_at f (i + 1) n

-- A register file after writes to the registers from `i` on.
abbrev pub overwritten {ℓ} : {A : Type ℓ} → ℕ → List A → (ℕ → A) → ℕ → A
overwritten i [] f = f
overwritten i (a ∷ ys) f = overwritten (i + 1) ys (update f i a)

pub overwritten-below {ℓ} :
    {A : Type ℓ} (ys : List A) (i x : ℕ) (f : ℕ → A) → x < i → overwritten i ys f x ≡ f x
overwritten-below [] i x f h = refl
overwritten-below (a ∷ ys) i x f h =
    overwritten-below ys (i + 1) x (update f i a) (omega arith)
    ∙ (let no : (x == i) ≡ false = ground arith in rw no refl)

pub values_at-overwritten {ℓ} :
    {A : Type ℓ} (ys : List A) (i : ℕ) (f : ℕ → A)
    → values_at (overwritten i ys f) i (length ys) ≡ ys
values_at-overwritten [] i f = refl
values_at-overwritten (a ∷ ys) i f =
    ap₂ ◌∷◌
      (overwritten-below ys (i + 1) i (update f i a) (omega arith)
        ∙ (let yes_ : (i == i) ≡ true = ground arith in rw yes_ refl))
      (values_at-overwritten ys (i + 1) (update f i a))

-- The last value that the calls write to a CSR, to the floating-point registers or to the vector
-- registers.
abbrev pub last_csr : ℕ → List Restore → ℕ → ℕ
last_csr n [] d = d
last_csr n (csr m w ∷ rs) d = last_csr n rs (if n == m then w else d)
last_csr n (r ∷ rs) d = last_csr n rs d

abbrev pub last_f : List Restore → (ℕ → ℕ) → ℕ → ℕ
last_f [] f = f
last_f (freg n w ∷ rs) f = last_f rs (update f n w)
last_f (r ∷ rs) f = last_f rs f

pub csr-effects :
    (base n : ℕ) (rs : List Restore) (h : Hart)
    → n ≢ csr_dscratch0
    → n ≢ csr_vstart
    → n ≢ csr_vtype
    → (effects base rs h).csr n ≡ last_csr n rs (h.csr n)
csr-effects base n [] h d s t = refl
csr-effects base n (csr m w ∷ rs) h d s t =
    csr-effects base n rs (effect base (csr m w) h) d s t ∙ ap (last_csr n rs) (ground arith)
csr-effects base n (reg m w ∷ rs) h d s t =
    csr-effects base n rs (effect base (reg m w) h) d s t ∙ ap (last_csr n rs) (ground arith)
csr-effects base n (freg m w ∷ rs) h d s t = csr-effects base n rs (effect base (freg m w) h) d s t
csr-effects base n (vreg m ws ∷ rs) h d s t =
    csr-effects base n rs (effect base (vreg m ws) h) d s t ∙ ap (last_csr n rs) (ground arith)
csr-effects base n (vtype w ∷ rs) h d s t =
    csr-effects base n rs (effect base (vtype w) h) d s t ∙ ap (last_csr n rs) (ground arith)

pub f-effects : (base : ℕ) (rs : List Restore) (h : Hart) → (effects base rs h).f ≡ last_f rs h.f
f-effects base [] h = refl
f-effects base (csr m w ∷ rs) h = f-effects base rs (effect base (csr m w) h)
f-effects base (reg m w ∷ rs) h =
    f-effects base rs (effect base (reg m w) h) ∙ ap (last_f rs) (ground arith)
f-effects base (freg m w ∷ rs) h = f-effects base rs (effect base (freg m w) h)
f-effects base (vreg m ws ∷ rs) h = f-effects base rs (effect base (vreg m ws) h)
f-effects base (vtype w ∷ rs) h = f-effects base rs (effect base (vtype w) h)

pub last_csr-append :
    (n : ℕ) (rs ss : List Restore) (d : ℕ)
    → last_csr n (rs ++ ss) d ≡ last_csr n ss (last_csr n rs d)
last_csr-append n [] ss d = refl
last_csr-append n (csr m w ∷ rs) ss d = last_csr-append n rs ss _
last_csr-append n (reg m w ∷ rs) ss d = last_csr-append n rs ss d
last_csr-append n (freg m w ∷ rs) ss d = last_csr-append n rs ss d
last_csr-append n (vreg m ws ∷ rs) ss d = last_csr-append n rs ss d
last_csr-append n (vtype w ∷ rs) ss d = last_csr-append n rs ss d

pub last_f-append :
    (rs ss : List Restore) (f : ℕ → ℕ) → last_f (rs ++ ss) f ≡ last_f ss (last_f rs f)
last_f-append [] ss f = refl
last_f-append (csr m w ∷ rs) ss f = last_f-append rs ss f
last_f-append (reg m w ∷ rs) ss f = last_f-append rs ss f
last_f-append (freg m w ∷ rs) ss f = last_f-append rs ss _
last_f-append (vreg m ws ∷ rs) ss f = last_f-append rs ss f
last_f-append (vtype w ∷ rs) ss f = last_f-append rs ss f

pub last_csr-regs : (n i : ℕ) (ws : List ℕ) (d : ℕ) → last_csr n (regs_from i ws) d ≡ d
last_csr-regs n i [] d = refl
last_csr-regs n i (w ∷ ws) d = last_csr-regs n (i + 1) ws d

pub last_f-regs : (i : ℕ) (ws : List ℕ) (f : ℕ → ℕ) → last_f (regs_from i ws) f ≡ f
last_f-regs i [] f = refl
last_f-regs i (w ∷ ws) f = last_f-regs (i + 1) ws f

pub last_csr-fregs : (n i : ℕ) (ws : List ℕ) (d : ℕ) → last_csr n (fregs_from i ws) d ≡ d
last_csr-fregs n i [] d = refl
last_csr-fregs n i (w ∷ ws) d = last_csr-fregs n (i + 1) ws d

pub last_f-fregs :
    (i : ℕ) (ws : List ℕ) (f : ℕ → ℕ) → last_f (fregs_from i ws) f ≡ overwritten i ws f
last_f-fregs i [] f = refl
last_f-fregs i (w ∷ ws) f = last_f-fregs (i + 1) ws (update f i w)

pub last_csr-vregs : (n i : ℕ) (bss : List (List ℕ)) (d : ℕ) → last_csr n (vregs_from i bss) d ≡ d
last_csr-vregs n i [] d = refl
last_csr-vregs n i (bs ∷ bss) d = last_csr-vregs n (i + 1) bss d

pub last_f-vregs : (i : ℕ) (bss : List (List ℕ)) (f : ℕ → ℕ) → last_f (vregs_from i bss) f ≡ f
last_f-vregs i [] f = refl
last_f-vregs i (bs ∷ bss) f = last_f-vregs (i + 1) bss f

pub x-effects-regs :
    (base i : ℕ) (ws : List ℕ) (h : Hart)
    → 0 < i
    → (effects base (regs_from i ws) h).x ≡ overwritten i ws h.x
x-effects-regs base i [] h pos = refl
x-effects-regs base i (w ∷ ws) h pos =
    x-effects-regs base (i + 1) ws (effect base (reg i w) h) (omega arith)
    ∙ ap (overwritten (i + 1) ws) (let no : (i == 0) ≡ false = ground arith in rw no refl)

abbrev pub last_v : List Restore → (ℕ → List ℕ) → ℕ → List ℕ
last_v [] f = f
last_v (vreg n ws ∷ rs) f = last_v rs (update f n ws)
last_v (r ∷ rs) f = last_v rs f

-- A vector register is restored with as many words as it has.
abbrev pub Fits : ℕ → Restore → Type 0
Fits k (vreg n ws) = length ws ≡ k
Fits k _ = Unit

pub take-over : (ws us : List ℕ) → take (length ws) (over ws us) ≡ ws
take-over [] us = refl
take-over (w ∷ ws) [] = ap (λ (l : List ℕ). w ∷ l) (take-ge (length ws) ws (omega arith))
take-over (w ∷ ws) (u ∷ us) = ap (λ (l : List ℕ). w ∷ l) (take-over ws us)

pub v-effects :
    (base k : ℕ) (rs : List Restore) (h : Hart)
    → h.vwords ≡ k
    → All (Fits k) rs
    → (effects base rs h).v ≡ last_v rs h.v
v-effects base k [] h e fits = refl
v-effects base k (csr m w ∷ rs) h e fits = v-effects base k rs (effect base (csr m w) h) e fits.1
v-effects base k (reg m w ∷ rs) h e fits =
    v-effects base k rs (effect base (reg m w) h) (ground (arith, e)) fits.1
    ∙ ap (last_v rs) (ground arith)
v-effects base k (freg m w ∷ rs) h e fits = v-effects base k rs (effect base (freg m w) h) e fits.1
v-effects base k (vreg m ws ∷ rs) h e fits =
    v-effects base k rs (effect base (vreg m ws) h) e fits.1
    ∙ ap (λ (us : List ℕ). last_v rs (update h.v m us))
        (ap (λ (n : ℕ). take n (over ws h.words)) (e ∙ sym fits.0) ∙ take-over ws h.words)
v-effects base k (vtype w ∷ rs) h e fits = v-effects base k rs (effect base (vtype w) h) e fits.1

pub last_v-append :
    (rs ss : List Restore) (f : ℕ → List ℕ) → last_v (rs ++ ss) f ≡ last_v ss (last_v rs f)
last_v-append [] ss f = refl
last_v-append (csr m w ∷ rs) ss f = last_v-append rs ss f
last_v-append (reg m w ∷ rs) ss f = last_v-append rs ss f
last_v-append (freg m w ∷ rs) ss f = last_v-append rs ss f
last_v-append (vreg m ws ∷ rs) ss f = last_v-append rs ss _
last_v-append (vtype w ∷ rs) ss f = last_v-append rs ss f

pub last_v-regs : (i : ℕ) (ws : List ℕ) (f : ℕ → List ℕ) → last_v (regs_from i ws) f ≡ f
last_v-regs i [] f = refl
last_v-regs i (w ∷ ws) f = last_v-regs (i + 1) ws f

pub last_v-fregs : (i : ℕ) (ws : List ℕ) (f : ℕ → List ℕ) → last_v (fregs_from i ws) f ≡ f
last_v-fregs i [] f = refl
last_v-fregs i (w ∷ ws) f = last_v-fregs (i + 1) ws f

pub last_v-vregs :
    (i : ℕ) (bss : List (List ℕ)) (f : ℕ → List ℕ)
    → last_v (vregs_from i bss) f ≡ overwritten i (map reg_words bss) f
last_v-vregs i [] f = refl
last_v-vregs i (bs ∷ bss) f = last_v-vregs (i + 1) bss (update f i (reg_words bs))
