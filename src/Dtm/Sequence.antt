-- ===== src/Dtm/Sequence.antt =====
-- What a sequence of calls leaves in a hart.
use uart_tsi.Base.{
  ℕ, suc, Bool, true, ◌&&◌, if◌then◌else◌, leb, ◌==◌, Bool-cases, inl, inr, ◌+◌, ◌*◌, ◌^◌, ◌≤◌, ◌<◌,
  ◌≡◌, ◌≢◌, refl, ap, sym, ◌∙◌, Option, none, some, List, [], ◌∷◌, ◌++◌, arith, length, All, done,
  take, drop,
}
use mathlib.Core.Path.{subst}
use uart_tsi.Dtm.Encoding.{
  Command, restore_freg, restore_vreg, restore_vtype, restore_csr, restore_reg, csr_dscratch0,
}
use uart_tsi.Dtm.Restore.{Restore, command_of, run_or_abort, run_calls, reg, freg, vreg, vtype, csr}
use uart_tsi.Dtm.Hart.{Hart, update, set_x, over, exec_command, csr_vstart, csr_vtype}
use uart_tsi.Dtm.Effects.{
  holding, exec_command-transfer, restore_freg_lem, restore_vreg_lem, restore_vtype_lem,
  restore_csr_lem,
}

-- A hart that answers commands: an exception is the debug specification's error 3.
abbrev answer : Option Hart → Hart → ℕ × Hart
answer none h = (3, h)
answer (some h') h = (0, h')

-- `run_abstract_command` of the library asserts that the program and the words are no more than the
-- program buffer and the data registers hold.
abbrev pub fits_in : Command → Hart → Bool
fits_in c h = leb (length c.program) h.ram_words && leb (length c.words) (length h.words)

-- A failed assertion is put as a failed command: either aborts.
abbrev pub debug_hart : ℕ → Command → Hart → ℕ × Hart
debug_hart base c h = if fits_in c h then answer (exec_command base c h) h else (1, h)

abbrev pub IsCall : Restore → Type 0
IsCall (reg n w) = (n < 32) × (w < 2 ^ 64)
IsCall (freg n w) = (n < 32) × (w < 2 ^ 64)
IsCall (vreg n ws) = n < 32
IsCall (vtype w) = Unit
IsCall (csr n w) = (n < 4096) × (n ≢ csr_dscratch0) × (w < 2 ^ 64)

-- The second data register, and the data registers past the second.
abbrev second : List ℕ → ℕ
second (a ∷ b ∷ ws) = b
second _ = 0

-- What a call does, on a hart with at least two data registers.
abbrev pub effect : ℕ → Restore → Hart → Hart
effect base (reg n w) h = set_x n w (holding w (drop 2 h.words) h)
effect base (freg n w) h = record (holding w (drop 2 h.words) h) { f = update h.f n w }
effect base (vreg n ws) h = record h {
  x = update h.x 8 base;
  v = update h.v n (take h.vwords (over ws h.words));
  csr = update h.csr csr_vstart 0;
  words = over ws h.words;
}
effect base (vtype w) h = record h {
  x = update h.x 8 (w + 2 ^ 32 * second h.words);
  csr = update (update h.csr csr_vtype (w + 2 ^ 32 * second h.words)) csr_vstart 0;
  words = w ∷ drop 1 h.words;
}
effect base (csr n w) h = record (holding w (drop 2 h.words) h) {
  csr = update (update h.csr n w) csr_dscratch0 (h.csr n);
}

abbrev pub effects : ℕ → List Restore → Hart → Hart
effects base [] h = h
effects base (r ∷ rs) h = effects base rs (effect base r h)

exec_command-effect :
    (base : ℕ) (r : Restore) (a b : ℕ) (ws : List ℕ) (h : Hart)
    → base < 2048
    → IsCall r
    → exec_command base (command_of base r) (record h { words = a ∷ b ∷ ws })
      ≡ some (effect base r (record h { words = a ∷ b ∷ ws }))
unfolding restore_reg
exec_command-effect base (reg n w) a b ws h lt ok =
    exec_command-transfer base n w a b ws h ok.0 ok.1
exec_command-effect base (freg n w) a b ws h lt ok = restore_freg_lem base n w a b ws h lt ok.0 ok.1
exec_command-effect base (vreg n vs) a b ws h lt ok = restore_vreg_lem base n a b vs ws h lt ok
exec_command-effect base (vtype w) a b ws h lt ok = restore_vtype_lem base w a b ws h
exec_command-effect base (csr n w) a b ws h lt ok =
    restore_csr_lem base n w a b ws h lt ok.0 ok.1 ok.2

-- A call whose words `n` data registers hold
abbrev pub Holds : ℕ → Restore → Type 0
Holds n (vreg m ws) = length ws ≤ n
Holds n (reg m w) = Unit
Holds n (freg m w) = Unit
Holds n (vtype w) = Unit
Holds n (csr m w) = Unit

length-over : (vs ws : List ℕ) → length vs ≤ length ws → length (over vs ws) ≡ length ws
length-over [] ws le = refl
length-over (v ∷ vs) [] le = absurd (omega (arith, le))
length-over (v ∷ vs) (w ∷ ws) le = ap suc (length-over vs ws (omega (arith, le)))

-- The number of data registers stays, and so does the room for the program.
length-effect :
    (base : ℕ) (r : Restore) (a b : ℕ) (ws : List ℕ) (h : Hart)
    → h.words ≡ a ∷ b ∷ ws
    → Holds (length h.words) r
    → length (effect base r h).words ≡ length h.words
length-effect base (reg n w) a b ws h e fits = elim (Bool-cases (n == 0)) [
  | inl z ↦ rw (z, e) refl
  | inr z ↦ rw (z, e) refl
]
length-effect base (freg n w) a b ws h e fits = rw e refl
length-effect base (vreg n vs) a b ws h e fits = length-over vs h.words fits
length-effect base (vtype w) a b ws h e fits = rw e refl
length-effect base (csr n w) a b ws h e fits = rw e refl

ram_words-effect : (base : ℕ) (r : Restore) (h : Hart) → (effect base r h).ram_words ≡ h.ram_words
ram_words-effect base (reg n w) h = elim (Bool-cases (n == 0)) [
  | inl z ↦ rw z refl
  | inr z ↦ rw z refl
]
ram_words-effect base (freg n w) h = refl
ram_words-effect base (vreg n vs) h = refl
ram_words-effect base (vtype w) h = refl
ram_words-effect base (csr n w) h = refl

command_of-fits_in :
    (base : ℕ) (r : Restore) (h : Hart)
    → 5 ≤ h.ram_words
    → 2 ≤ length h.words
    → Holds (length h.words) r
    → fits_in (command_of base r) h ≡ true
unfolding restore_reg restore_freg restore_vreg restore_vtype restore_csr
command_of-fits_in base (reg n w) h room two fits = ground arith
command_of-fits_in base (freg n w) h room two fits = ground arith
command_of-fits_in base (vreg n vs) h room two fits = ground arith
command_of-fits_in base (vtype w) h room two fits = ground arith
command_of-fits_in base (csr n w) h room two fits = ground arith

two_more : (ws : List ℕ) → 2 ≤ length ws → (a : ℕ) × (b : ℕ) × (ds : List ℕ) × (ws ≡ a ∷ b ∷ ds)
two_more [] h = absurd (omega arith)
two_more (a ∷ []) h = absurd (omega arith)
two_more (a ∷ b ∷ ds) h = (a, b, ds, refl)

run_or_abort-effect :
    (base : ℕ) (r : Restore) (h : Hart)
    → base < 2048
    → IsCall r
    → 5 ≤ h.ram_words
    → 2 ≤ length h.words
    → Holds (length h.words) r
    → run_or_abort (debug_hart base) base (command_of base r) h ≡ done (effect base r h)
unfolding run_or_abort
run_or_abort-effect base r h lt ok room two fits =
    let (a, b, ds, e) = two_more h.words two in
    let same : h ≡ record h { words = a ∷ b ∷ ds } =
      ap (λ (ws : List ℕ). record h { words = ws }) e in
    let ran : exec_command base (command_of base r) h ≡ some (effect base r h) =
      ap (λ (g : Hart). exec_command base (command_of base r) g) same
      ∙ exec_command-effect base r a b ds h lt ok
      ∙ ap (λ (g : Hart). some (effect base r g)) (sym same) in
    rw (command_of-fits_in base r h room two fits, ran) refl

-- On a hart with at least two data registers, a data base below 2048 and room for programs of five
-- words, calls for existing registers whose words the data registers hold run to their end.
pub run_calls-effects :
    (base k : ℕ) (rs : List Restore) (h : Hart)
    → base < 2048
    → All IsCall rs
    → 5 ≤ h.ram_words
    → 2 ≤ k
    → length h.words ≡ k
    → All (Holds k) rs
    → run_calls (debug_hart base) base rs h ≡ done (effects base rs h)
unfolding run_calls
run_calls-effects base k [] h lt ok room two len fits = refl
run_calls-effects base k (r ∷ rs) h lt ok room two len fits =
    let two' : 2 ≤ length h.words = omega (arith, two, len) in
    let (a, b, ds, e) = two_more h.words two' in
    let here : Holds (length h.words) r = subst (λ (n : ℕ). Holds n r) (sym len) fits.0 in
    rw (run_or_abort-effect base r h lt ok.0 room two' here) (
      run_calls-effects base k rs (effect base r h) lt ok.1
        (omega (arith, room, ram_words-effect base r h)) two
        (length-effect base r a b ds h e here ∙ len) fits.1)

pub effects-append :
    (base : ℕ) (rs ss : List Restore) (h : Hart)
    → effects base (rs ++ ss) h ≡ effects base ss (effects base rs h)
effects-append base [] ss h = refl
effects-append base (r ∷ rs) ss h = effects-append base rs ss (effect base r h)
