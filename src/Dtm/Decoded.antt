-- ===== src/Dtm/Decoded.antt =====
-- What each of the instructions of the programs does to a hart.
use uart_tsi.Base.{
  ℕ, ◌+◌, ◌*◌, ◌/◌, ◌%◌, ◌^◌, ◌<◌, ◌≡◌, refl, ap, ◌∙◌, true, Option, some, List, ◌∷◌, ◌==◌, arith,
  take,
}
use uart_tsi.Dtm.Encoding.{csrrw, load_insn, fload, addi, vl1r, vsetvl, x0, s0}
use uart_tsi.Dtm.Hart.{
  Hart, update, get_x, set_x, exec_word, exec_fields, exec_load, next, load_double, csr_vstart,
  csr_vtype,
}

-- A word is taken apart into the fields that it was put together from.
exec_word-fields :
    (base op dst funct3 src imm w : ℕ) (h : Hart)
    → op < 128
    → dst < 32
    → funct3 < 8
    → src < 32
    → w ≡ op + dst * 2 ^ 7 + funct3 * 2 ^ 12 + src * 2 ^ 15 + imm * 2 ^ 20
    → exec_word base w h ≡ exec_fields base op dst funct3 src imm h
unfolding exec_word
exec_word-fields base op dst funct3 src imm w h o d f s e =
    let e₀ : w % 128 ≡ op = omega arith in
    let e₁ : w / 128 % 32 ≡ dst = omega arith in
    let e₂ : w / 2 ^ 12 % 8 ≡ funct3 = omega arith in
    let e₃ : w / 2 ^ 15 % 32 ≡ src = omega arith in
    let e₄ : w / 2 ^ 20 ≡ imm = omega arith in rw (e₀, e₁, e₂, e₃, e₄)

pub csrrw-decoded :
    (base dst csr src : ℕ) (h : Hart)
    → dst < 32
    → src < 32
    → csr < 4096
    → exec_word base (csrrw dst csr src) h
      ≡ next (set_x dst (h.csr csr) (record h { csr = update h.csr csr (get_x h src) }))
unfolding csrrw exec_fields
csrrw-decoded base dst csr src h d s c =
    exec_word-fields base 0x73 dst 1 src csr (csrrw dst csr src) h (omega arith) d (omega arith) s
      (omega arith)

-- The doubleword in the data registers, as a load from `base` finds it.
load_double-base :
    (base lo hi : ℕ) (ws : List ℕ) (h : Hart)
    → h.words ≡ lo ∷ hi ∷ ws
    → load_double base (0 + base) h ≡ some (lo + 2 ^ 32 * hi)
load_double-base base lo hi ws h e = ground arith

pub load-decoded :
    (base dst lo hi : ℕ) (ws : List ℕ) (h : Hart)
    → dst < 32
    → base < 4096
    → h.words ≡ lo ∷ hi ∷ ws
    → exec_word base (load_insn 64 dst x0 base) h ≡ next (set_x dst (lo + 2 ^ 32 * hi) h)
unfolding load_insn exec_fields exec_load
load-decoded base dst lo hi ws h d b e =
    exec_word-fields base 0x03 dst 3 0 base (load_insn 64 dst x0 base) h (omega arith) d
      (omega arith) (omega arith) (omega arith)
    ∙ ap (λ (o : Option ℕ). exec_load o (λ w. set_x dst w h)) (load_double-base base lo hi ws h e)

pub fload-decoded :
    (base dst lo hi : ℕ) (ws : List ℕ) (h : Hart)
    → dst < 32
    → base < 4096
    → h.words ≡ lo ∷ hi ∷ ws
    → exec_word base (fload 64 dst x0 base) h
      ≡ next (record h { f = update h.f dst (lo + 2 ^ 32 * hi) })
unfolding fload exec_fields exec_load
fload-decoded base dst lo hi ws h d b e =
    exec_word-fields base 0x07 dst 3 0 base (fload 64 dst x0 base) h (omega arith) d (omega arith)
      (omega arith) (omega arith)
    ∙ ap (λ (o : Option ℕ). exec_load o (λ w. record h { f = update h.f dst w }))
        (load_double-base base lo hi ws h e)

pub addi-decoded :
    (base : ℕ) (h : Hart)
    → base < 4096
    → exec_word base (addi s0 x0 base) h ≡ next (record h { x = update h.x 8 base })
unfolding addi exec_fields
addi-decoded base h b =
    exec_word-fields base 0x13 8 0 0 base (addi s0 x0 base) h (omega arith) (omega arith)
      (omega arith) (omega arith) (omega arith)
    ∙ ap (λ (a : ℕ). next (record h { x = update h.x 8 a })) (omega arith)

pub vl1r-decoded :
    (base dst : ℕ) (h : Hart)
    → dst < 32
    → h.x 8 ≡ base
    → exec_word base (vl1r dst s0) h
      ≡ next
          (record h { v = update h.v dst (take h.vwords h.words); csr = update h.csr csr_vstart 0 })
unfolding vl1r exec_fields
vl1r-decoded base dst h d e =
    exec_word-fields base 0x07 dst 0 8 0x28 (vl1r dst s0) h (omega arith) d (omega arith)
      (omega arith) (omega arith)
    ∙ (let here : (h.x 8 == base) ≡ true = ground arith in rw here)

pub vsetvl-decoded :
    (base : ℕ) (h : Hart)
    → exec_word base (vsetvl x0 x0 s0) h
      ≡ next (record h { csr = update (update h.csr csr_vtype (h.x 8)) csr_vstart 0 })
unfolding exec_word vsetvl exec_fields
vsetvl-decoded base h = refl
