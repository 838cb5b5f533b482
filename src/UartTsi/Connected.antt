-- ===== src/UartTsi/Connected.antt =====
-- What holds of the serial device when the session of uart_tsi_src/testchip_uart_tsi.cc begins.
use uart_tsi.Base.{
  ℕ, ◌≤◌, ◌≡◌, refl, ap, sym, ◌∙◌, ◌⊎◌, inl, inr, Bool, true, false, Option, none, some, List, [],
  ◌∷◌, if◌then◌else◌, arith, is_empty, Bool-cases, done, >>=-eq-done, done-injective,
}
use mathlib.Core.Path.{subst}
use uart_tsi.Base.Text.{Text}
use uart_tsi.UartTsi.Options.{
  Options, default_options, parse_options, start, start-done, check_connection,
}
use uart_tsi.UartTsi.Terminal.{Termios, Serial, cs8, settings, set_attributes, open_device, connect}

-- Raw bytes of eight bits at a speed: one stop bit, neither parity nor flow control, nothing
-- interpreted on the way in or out, and reads that do not wait.
pub record IsRaw (baud : ℕ) (t : Termios) : Type 0 where
  pub eight : t.c_cflag.csize ≡ cs8
  pub no_parity : t.c_cflag.parenb ≡ false
  pub one_stop : t.c_cflag.cstopb ≡ false
  pub no_flow :
      (t.c_cflag.crtscts ≡ false)
      × (t.c_iflag.ixon ≡ false)
      × (t.c_iflag.ixoff ≡ false)
      × (t.c_iflag.ixany ≡ false)
  pub receives : (t.c_cflag.cread ≡ true) × (t.c_cflag.clocal ≡ true)
  pub no_lines : (t.c_lflag.icanon ≡ false) × (t.c_lflag.isig ≡ false) × (t.c_lflag.echo ≡ false)
  pub as_received :
      (t.c_iflag.ignbrk ≡ false)
      × (t.c_iflag.brkint ≡ false)
      × (t.c_iflag.parmrk ≡ false)
      × (t.c_iflag.istrip ≡ false)
      × (t.c_iflag.inlcr ≡ false)
      × (t.c_iflag.igncr ≡ false)
      × (t.c_iflag.icrnl ≡ false)
  pub as_sent : (t.c_oflag.opost ≡ false) × (t.c_oflag.onlcr ≡ false)
  pub no_wait : (t.vtime ≡ 0) × (t.vmin ≡ 0)
  pub speeds : (t.ispeed ≡ baud) × (t.ospeed ≡ baud)

-- The flags that are not named
abbrev pub SameOthers : Termios → Termios → Type 0
SameOthers t t' =
    (t'.c_cflag.others ≡ t.c_cflag.others)
    × (t'.c_lflag.others ≡ t.c_lflag.others)
    × (t'.c_iflag.others ≡ t.c_iflag.others)
    × (t'.c_oflag.others ≡ t.c_oflag.others)

settings-IsRaw : (baud : ℕ) (t : Termios) → IsRaw baud (settings baud t)
unfolding settings
settings-IsRaw baud t = record {
  eight = refl;
  no_parity = refl;
  one_stop = refl;
  no_flow = (refl, refl, refl, refl);
  receives = (refl, refl);
  no_lines = (refl, refl, refl);
  as_received = (refl, refl, refl, refl, refl, refl, refl);
  as_sent = (refl, refl);
  no_wait = (refl, refl);
  speeds = (refl, refl);
}

settings-SameOthers : (baud : ℕ) (t : Termios) → SameOthers t (settings baud t)
unfolding settings
settings-SameOthers baud t = (refl, refl, refl, refl)

-- The device that is asked for raw bytes at a rate takes all that is asked for. POSIX lets
-- `tcsetattr` succeed with less.
abbrev pub Complies : ℕ → Serial → Type 0
Complies baud e = (t : Termios) → e.installed (settings baud t) ≡ settings baud t

-- How the settings of the device may end.
abbrev pub HasSettings : ℕ → Serial → Termios → Termios → Type 0
HasSettings baud e t t' =
    ((e.set_fails ≡ false) × (IsRaw baud t' × SameOthers t t')) ⊎ ((e.set_fails ≡ true) × (t' ≡ t))

set_attributes-HasSettings :
    (baud : ℕ) (e : Serial) (t : Termios)
    → Complies baud e
    → HasSettings baud e t (if e.set_fails then t else e.installed (settings baud t))
set_attributes-HasSettings baud e t takes = elim (Bool-cases e.set_fails) [
  | inl bad ↦ inr (bad, rw bad refl)
  | inr ok ↦ inl (ok, rw (ok, takes t) (settings-IsRaw baud t, settings-SameOthers baud t))
]

set_attributes-done :
    (baud fd : ℕ) (e : Serial) (a : Option Termios) {fd' : ℕ} {t' : Termios}
    → Complies baud e
    → set_attributes baud fd e a ≡ done (fd', t')
    → (t : Termios) × (a ≡ some t) × (fd ≡ fd') × HasSettings baud e t t'
unfolding set_attributes
set_attributes-done baud fd e none {fd'} {t'} takes h = cc
set_attributes-done baud fd e (some t) {fd'} {t'} takes h =
    let same : (fd, (if e.set_fails then t else e.installed (settings baud t))) ≡ (fd', t') =
      done-injective h in
    (
      t,
      refl,
      ap (λ (r : ℕ × Termios). r.0) same,
      subst (HasSettings baud e t) (ap (λ (r : ℕ × Termios). r.1) same)
          (set_attributes-HasSettings baud e t takes),
    )

open_device-done :
    (baud : ℕ) (e : Serial) (o : Option ℕ) {fd : ℕ} {t' : Termios}
    → Complies baud e
    → open_device baud e o ≡ done (fd, t')
    → (t : Termios) × (o ≡ some fd) × (e.attributes ≡ some t) × HasSettings baud e t t'
unfolding open_device
open_device-done baud e none {fd} {t'} takes h = cc
open_device-done baud e (some n) {fd} {t'} takes h =
    let (t, a, same, ends) = set_attributes-done baud n e e.attributes takes h in
    (t, ap some same, a, ends)

check_connection-done :
    (r : Option (List ℕ)) {b : Bool} → check_connection r ≡ done b → (r ≡ none) ⊎ (r ≡ some [])
unfolding check_connection
check_connection-done none {b} h = inl refl
check_connection-done (some []) {b} h = inr refl
check_connection-done (some (x ∷ xs)) {b} h = ground arith

-- With a device that takes all the settings asked of it for the rate of the options, unless
-- `tcsetattr` fails: where the session is reached, the options are those of the command line as given, and a device
-- is named and open. It has the rate asked for, at most 115200, for raw bytes both ways, and its
-- other flags are as they were; or, where `tcsetattr` failed, it has its old settings, whatever they
-- are. The first read on it has failed or given nothing.
pub connect-done :
    (argv : List Text) (e : Serial) {o : Options} {fd : ℕ} {t' : Termios}
    → Complies (parse_options argv default_options).baud_rate e
    → connect argv e ≡ done (o, (fd, t'))
    → (t : Termios) × (o ≡ parse_options argv default_options)
      × (is_empty o.tty ≡ false)
      × (o.baud_rate ≤ 115200)
      × (e.opened ≡ some fd)
      × (e.attributes ≡ some t)
      × HasSettings o.baud_rate e t t'
      × ((e.first_bytes ≡ none) ⊎ (e.first_bytes ≡ some []))
unfolding connect
connect-done argv e {o} {fd} {t'} takes h =
    let ((o₁, baud), e₀, h₀) = >>=-eq-done (start argv) _ h in
    let ((fd₁, t₁), e₁, h₁) = >>=-eq-done (open_device baud e e.opened) _ h₀ in
    let (b, e₂, h₂) = >>=-eq-done (check_connection e.first_bytes) _ h₁ in
    let same : (o₁, (fd₁, t₁)) ≡ (o, (fd, t')) = done-injective h₂ in
    let (parsed, named, rate, low) = start-done argv e₀ in
    let given : baud ≡ (parse_options argv default_options).baud_rate =
      rate ∙ ap (λ (q : Options). q.baud_rate) parsed in
    let takes' : Complies baud e = subst (λ (n : ℕ). Complies n e) (sym given) takes in
    let (t, opened_, read_, ends) = open_device-done baud e e.opened takes' e₁ in
    let so : o₁ ≡ o = ap (λ (r : Options × (ℕ × Termios)). r.0) same in
    let sf : fd₁ ≡ fd = ap (λ (r : Options × (ℕ × Termios)). r.1.0) same in
    let st : t₁ ≡ t' = ap (λ (r : Options × (ℕ × Termios)). r.1.1) same in
    let speed : baud ≡ o.baud_rate = rate ∙ ap (λ (q : Options). q.baud_rate) so in
    (
      t,
      sym so ∙ parsed,
      ap (λ (q : Options). is_empty q.tty) (sym so) ∙ named,
      subst (λ (n : ℕ). n ≤ 115200) speed low,
      opened_ ∙ ap some sf,
      read_,
      subst (λ (n : ℕ). HasSettings n e t t') speed (subst (HasSettings baud e t) st ends),
      check_connection-done e.first_bytes e₂,
    )
