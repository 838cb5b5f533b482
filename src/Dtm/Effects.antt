-- ===== src/Dtm/Effects.antt =====
-- What each of the commands does to a hart.
use uart_tsi.Base.{
  ℕ, ◌+◌, ◌*◌, ◌/◌, ◌%◌, ◌^◌, ◌<◌, ◌≡◌, ◌≢◌, refl, ap, ◌∙◌, true, some, List, [], ◌∷◌, arith, take,
}
use mathlib.Core.Path.{fun_ext, ap₂}
use uart_tsi.Dtm.Encoding.{
  restore_freg, restore_vreg, restore_vtype, restore_csr, reg_data, csr_dscratch0, transfer,
  transfer_exec, ebreak, load_insn, x0, s0,
}
use uart_tsi.Dtm.Hart.{
  Hart, update, set_x, over, exec_command, exec_transfer, exec_program, exec_word, exec_fields,
  next, csr_vstart, csr_vtype,
}
use uart_tsi.Dtm.Decoded.{
  csrrw-decoded, load-decoded, fload-decoded, addi-decoded, vl1r-decoded, vsetvl-decoded,
}

-- `h` with the doubleword `w` in the first two of its data registers.
abbrev pub holding : ℕ → List ℕ → Hart → Hart
holding w ws h = record h { words = w % 2 ^ 32 ∷ w / 2 ^ 32 % 2 ^ 32 ∷ ws }

first_two-reg_data : (w : ℕ) → w < 2 ^ 64 → w % 2 ^ 32 + 2 ^ 32 * (w / 2 ^ 32 % 2 ^ 32) ≡ w
first_two-reg_data w lt = omega arith

-- A command with two words moves them into the register, and then runs its program.
pub exec_command-transfer :
    (base regno w : ℕ) (a b : ℕ) (ws : List ℕ) (h : Hart)
    → regno < 32
    → w < 2 ^ 64
    → exec_command base
        (record { command = transfer regno; program = []; words = reg_data w })
        (record h { words = a ∷ b ∷ ws })
      ≡ some (set_x regno w (holding w ws h))
unfolding exec_command exec_transfer transfer
exec_command-transfer base regno w a b ws h r lt =
    let n : ℕ = transfer regno in
    let e₀ : n / 2 ^ 23 ≡ 0 = omega arith in
    let e₁ : n / 2 ^ 20 ≡ 3 = omega arith in
    let e₂ : n / 2 ^ 16 % 4 ≡ 3 = omega arith in
    let e₃ : n % 2 ^ 16 / 32 ≡ 0x80 = omega arith in
    let e₄ : n % 32 ≡ regno = omega arith in
    let e₅ : n / 2 ^ 18 % 2 ≡ 0 = omega arith in
    rw (e₀, e₁, e₂, e₃, e₄, e₅, first_two-reg_data w lt)

exec_command-transfer_exec :
    (base w : ℕ) (program : List ℕ) (a b : ℕ) (ws : List ℕ) (h : Hart)
    → exec_command base
        (record { command = transfer_exec 0; program = program; words = reg_data w })
        (record h { words = a ∷ b ∷ ws })
      ≡ exec_program base program (holding w ws h)
unfolding exec_command exec_transfer transfer_exec
exec_command-transfer_exec base w program a b ws h = refl

exec_program-next :
    (base w : ℕ) (ws : List ℕ) (h : Hart) {h' : Hart}
    → exec_word base w h ≡ next h'
    → exec_program base (w ∷ ws) h ≡ exec_program base ws h'
unfolding exec_program
exec_program-next base w ws h e = rw e

exec_program-ebreak : (base : ℕ) (h : Hart) → exec_program base (ebreak ∷ []) h ≡ some h
unfolding exec_program exec_fields
exec_program-ebreak base h = refl

pub restore_csr_lem :
    (base n w : ℕ) (a b : ℕ) (ws : List ℕ) (h : Hart)
    → base < 2048
    → n < 4096
    → n ≢ csr_dscratch0
    → w < 2 ^ 64
    → exec_command base (restore_csr base n w) (record h { words = a ∷ b ∷ ws })
      ≡ some (record (holding w ws h) { csr = update (update h.csr n w) csr_dscratch0 (h.csr n) })
unfolding restore_csr
restore_csr_lem base n w a b ws h lt nlt ne wlt =
    let h₀ : Hart = holding w ws h in
    let h₁ : Hart =
      set_x 8 (h.csr csr_dscratch0) (record h₀ { csr = update h.csr csr_dscratch0 (h.x 8) }) in
    let h₂ : Hart = set_x 8 w h₁ in
    let h₃ : Hart = set_x 8 (h₁.csr n) (record h₂ { csr = update h₁.csr n w }) in
    let h₄ : Hart =
      set_x 8 (h₃.csr csr_dscratch0) (record h₃ { csr = update h₃.csr csr_dscratch0 (h₁.csr n) }) in
    let p₂ : exec_word base (load_insn 64 s0 x0 base) h₁ ≡ next h₂ =
      load-decoded base 8 (w % 2 ^ 32) (w / 2 ^ 32 % 2 ^ 32) ws h₁ (omega arith) (omega arith) refl
      ∙ ap (λ (v : ℕ). next (set_x 8 v h₁)) (first_two-reg_data w wlt) in
    exec_command-transfer_exec base w _ a b ws h
    ∙ exec_program-next base _ _ h₀
        (csrrw-decoded base 8 csr_dscratch0 8 h₀ (omega arith) (omega arith) (omega arith))
    ∙ exec_program-next base _ _ h₁ p₂
    ∙ exec_program-next base _ _ h₂ (csrrw-decoded base 8 n 8 h₂ (omega arith) (omega arith) nlt)
    ∙ exec_program-next base _ _ h₃
        (csrrw-decoded base 8 csr_dscratch0 8 h₃ (omega arith) (omega arith) (omega arith))
    ∙ exec_program-ebreak base h₄
    ∙ ap₂ (λ (x c : ℕ → ℕ). some (record h₀ { x = x; csr = c })) (fun_ext (λ (i : ℕ). ground arith))
        (fun_ext (λ (i : ℕ). ground arith))

pub restore_freg_lem :
    (base n w : ℕ) (a b : ℕ) (ws : List ℕ) (h : Hart)
    → base < 2048
    → n < 32
    → w < 2 ^ 64
    → exec_command base (restore_freg base n w) (record h { words = a ∷ b ∷ ws })
      ≡ some (record (holding w ws h) { f = update h.f n w })
unfolding restore_freg
restore_freg_lem base n w a b ws h lt nlt wlt =
    let h₀ : Hart = holding w ws h in
    let h₁ : Hart = record h₀ { f = update h.f n w } in
    exec_command-transfer_exec base w _ a b ws h
    ∙ exec_program-next base _ _ h₀ (
        fload-decoded base n (w % 2 ^ 32) (w / 2 ^ 32 % 2 ^ 32) ws h₀ nlt (omega arith) refl
        ∙ ap (λ (v : ℕ). next (record h₀ { f = update h.f n v })) (first_two-reg_data w wlt))
    ∙ exec_program-ebreak base h₁

exec_transfer-exec :
    (base : ℕ) (program vs : List ℕ) (a b : ℕ) (ws : List ℕ) (h : Hart)
    → exec_transfer base 0 true program vs (record h { words = a ∷ b ∷ ws })
      ≡ exec_program base program (record h { words = over vs (a ∷ b ∷ ws) })
unfolding exec_transfer
exec_transfer-exec base program [] a b ws h = refl
exec_transfer-exec base program (v ∷ []) a b ws h = refl
exec_transfer-exec base program (v ∷ w ∷ vs) a b ws h = refl

-- The words of a vector register go to the data registers, which a command writes from the first on.
pub restore_vreg_lem :
    (base n a b : ℕ) (vs ws : List ℕ) (h : Hart)
    → base < 2048
    → n < 32
    → exec_command base (restore_vreg base n vs) (record h { words = a ∷ b ∷ ws })
      ≡ some (record h {
        x = update h.x 8 base;
        v = update h.v n (take h.vwords (over vs (a ∷ b ∷ ws)));
        csr = update h.csr csr_vstart 0;
        words = over vs (a ∷ b ∷ ws);
      })
unfolding restore_vreg exec_command transfer_exec
restore_vreg_lem base n a b vs ws h lt nlt =
    let held : List ℕ = over vs (a ∷ b ∷ ws) in
    let h₀ : Hart = record h { words = held } in
    let h₁ : Hart = record h₀ { x = update h.x 8 base } in
    exec_transfer-exec base _ vs a b ws h
    ∙ exec_program-next base _ _ h₀ (addi-decoded base h₀ (omega arith))
    ∙ exec_program-next base _ _ h₁ (vl1r-decoded base n h₁ nlt refl)
    ∙ exec_program-ebreak base _

pub restore_vtype_lem :
    (base w : ℕ) (a b : ℕ) (ws : List ℕ) (h : Hart)
    → exec_command base (restore_vtype w) (record h { words = a ∷ b ∷ ws })
      ≡ some (record h {
        x = update h.x 8 (w + 2 ^ 32 * b);
        csr = update (update h.csr csr_vtype (w + 2 ^ 32 * b)) csr_vstart 0;
        words = w ∷ b ∷ ws;
      })
unfolding restore_vtype exec_command exec_transfer transfer_exec
restore_vtype_lem base w a b ws h =
    let h₀ : Hart = record h { x = update h.x 8 (w + 2 ^ 32 * b); words = w ∷ b ∷ ws } in
    exec_program-next base _ _ h₀ (vsetvl-decoded base h₀) ∙ exec_program-ebreak base _
