-- ===== src/Dtm/Hart.antt =====
-- A hart that is halted in debug mode, as the debug specification and the instruction set manual
-- describe it: what an abstract command does to it, and the instructions that its program buffer
-- holds. A CSR is a register that keeps what is written to it.
use uart_tsi.Dtm.Encoding.{Command}
use uart_tsi.Base.{
  ℕ, ◌+◌, ◌*◌, ◌/◌, ◌%◌, ◌^◌, Bool, ◌&&◌, Option, none, some, List, [], ◌∷◌, if◌then◌else◌, ◌==◌,
  take,
}

-- `words` are the data registers, which the hart sees from the address `base` on, `ram_words` is the
-- number of words in the program buffer, and `vwords` is the length of a vector register in words,
-- 0 without vectors.
pub record Hart : Type 0 where
  pub x : ℕ → ℕ
  pub f : ℕ → ℕ
  pub v : ℕ → List ℕ
  pub csr : ℕ → ℕ
  pub words : List ℕ
  pub ram_words : ℕ
  pub vwords : ℕ

abbrev pub update {ℓ} : {A : Type ℓ} → (ℕ → A) → ℕ → A → ℕ → A
update f n a i = if i == n then a else f i

abbrev pub get_x : Hart → ℕ → ℕ
get_x h rs = if rs == 0 then 0 else h.x rs

-- `x0` is always zero.
abbrev pub set_x : ℕ → ℕ → Hart → Hart
set_x rd a h = if rd == 0 then h else record h { x = update h.x rd a }

-- The doubleword in the first two data registers
abbrev pub first_two : List ℕ → Option ℕ
first_two (lo ∷ hi ∷ ws) = some (lo + 2 ^ 32 * hi)
first_two _ = none

-- A load of the doubleword at `a`, which is served from the data registers alone.
abbrev pub load_double : ℕ → ℕ → Hart → Option ℕ
load_double base a h = if a == base then first_two h.words else none

-- `vstart` and `vtype`
abbrev pub csr_vstart : ℕ
csr_vstart = 0x008

abbrev pub csr_vtype : ℕ
csr_vtype = 0xc21

pub data Outcome : Type 0 where
  next : Hart → Outcome
  halted : Hart → Outcome
  trapped : Outcome

unfoldable pub exec_load : Option ℕ → (ℕ → Hart) → Outcome
exec_load none g = trapped
exec_load (some w) g = next (g w)

-- One instruction, taken apart by the fields of its word. A vector instruction clears `vstart`.
unfoldable pub exec_fields : ℕ → ℕ → ℕ → ℕ → ℕ → ℕ → Hart → Outcome
unfolding exec_load
exec_fields base opcode rd funct3 rs1 imm h =
    if opcode == 0x73 && funct3 == 1
    then next (set_x rd (h.csr imm) (record h { csr = update h.csr imm (get_x h rs1) }))
    else if opcode == 0x73 && funct3 == 0 && imm == 1
    then halted h
    else if opcode == 0x03 && funct3 == 3
    then exec_load (load_double base (get_x h rs1 + imm) h) (λ w. set_x rd w h)
    else if opcode == 0x07 && funct3 == 3
    then exec_load (load_double base (get_x h rs1 + imm) h) (λ w. record h { f = update h.f rd w })
    else if opcode == 0x07 && funct3 == 0 && imm == 0x28 && get_x h rs1 == base
    then next
        (record h { v = update h.v rd (take h.vwords h.words); csr = update h.csr csr_vstart 0 })
    else if opcode == 0x13 && funct3 == 0
    then next (set_x rd (get_x h rs1 + imm) h)
    else if opcode == 0x57 && funct3 == 7 && rd == 0 && rs1 == 0 && imm / 32 == 0x40
    then next (record h { csr = update (update h.csr csr_vtype (get_x h (imm % 32))) csr_vstart 0 })
    else trapped

unfoldable pub exec_word : ℕ → ℕ → Hart → Outcome
unfolding exec_fields
exec_word base w h =
    exec_fields base (w % 128) (w / 128 % 32) (w / 2 ^ 12 % 8) (w / 2 ^ 15 % 32) (w / 2 ^ 20) h

abbrev pub after : Outcome → (Hart → Option Hart) → Option Hart
after (next h) rest = rest h
after (halted h) rest = some h
after trapped rest = none

-- The program buffer must end in `ebreak`.
unfoldable pub exec_program : ℕ → List ℕ → Hart → Option Hart
unfolding exec_word
exec_program base [] h = none
exec_program base (w ∷ ws) h = after (exec_word base w h) (exec_program base ws)

-- The data registers that a command's words replace.
abbrev pub over : List ℕ → List ℕ → List ℕ
over [] ws = ws
over (d ∷ ds) [] = d ∷ ds
over (d ∷ ds) (w ∷ ws) = d ∷ over ds ws

-- A transfer of 64 bits into the register `regno`, with or without the program buffer behind it.
unfoldable pub exec_transfer : ℕ → ℕ → Bool → List ℕ → List ℕ → Hart → Option Hart
exec_transfer base regno postexec program words h =
    let h₁ : Hart = record h { words = over words h.words } in
    elim (first_two h₁.words) [
      | none ↦ none
      | some w ↦
          if postexec then exec_program base program (set_x regno w h₁) else some (set_x regno w h₁)
    ]

-- An abstract command, by the fields of its word: `cmdtype` and `aarsize`, `transfer` and `write`,
-- and the numbers of the general registers, from 0x1000 on.
unfoldable pub exec_command : ℕ → Command → Hart → Option Hart
unfolding exec_transfer
exec_command base c h =
    if c.command / 2 ^ 23 == 0
      && c.command / 2 ^ 20 == 3
      && c.command / 2 ^ 16 % 4 == 3
      && c.command % 2 ^ 16 / 32 == 0x80
    then exec_transfer base (c.command % 32) (c.command / 2 ^ 18 % 2 == 1) c.program c.words h
    else none
