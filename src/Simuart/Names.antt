-- ===== src/Simuart/Names.antt =====
-- What the ports of the simulation open: the constructor of csrc/uart.cc for several of them.
use uart_tsi.Base.{
  ℕ, ◌<◌, ◌≤◌, ◌^◌, ◌≡◌, refl, ap, sym, ◌∙◌, ◌≢◌, ◌⊎◌, inl, inr, Bool, true, false, ◌&&◌, ◌||◌, not,
  Option, none, some, List, [], ◌∷◌, ◌++◌, if◌then◌else◌, ◌==◌, arith, is_empty, All, Bool-cases,
  Option-cases, done, stop, exited, undefined, >>=-eq-done, done-injective,
}
use mathlib.Core.Path.{subst}
use uart_tsi.Base.Text.{Text, codes, text_eq}
use uart_tsi.Base.Text.Decimal.{to_string-injective}
use uart_tsi.Simuart.{Uart, uart_init, forces_pty}
use uart_tsi.Simuart.Construct.{
  Opened, Files, Effect, on_interrupt, removes, links, opens, unblocks, symlink_name, uart_log_name,
  attach_pty, attach, redirect, construct_uart, open_port,
}

-- The files that are opened, the links that are made, and whether interrupts are handled.
abbrev pub log_names : List Effect → List Text
log_names [] = []
log_names (opens p ∷ es) = p ∷ log_names es
log_names (on_interrupt ∷ es) = log_names es
log_names (removes p ∷ es) = log_names es
log_names (links t p ∷ es) = log_names es
log_names (unblocks fd ∷ es) = log_names es

abbrev pub link_names : List Effect → List Text
link_names [] = []
link_names (links t p ∷ es) = p ∷ link_names es
link_names (on_interrupt ∷ es) = link_names es
link_names (removes p ∷ es) = link_names es
link_names (opens p ∷ es) = link_names es
link_names (unblocks fd ∷ es) = link_names es

abbrev handles_interrupt : List Effect → Bool
handles_interrupt [] = false
handles_interrupt (on_interrupt ∷ es) = true
handles_interrupt (links t p ∷ es) = handles_interrupt es
handles_interrupt (removes p ∷ es) = handles_interrupt es
handles_interrupt (opens p ∷ es) = handles_interrupt es
handles_interrupt (unblocks fd ∷ es) = handles_interrupt es

abbrev is_fd : ℕ → Option ℕ → Bool
is_fd n none = false
is_fd n (some fd) = fd == n

-- The port reads the simulation's standard input, writes its standard output or error, or handles its
-- interrupts.
abbrev pub takes_terminal : Files × List Effect → Bool
takes_terminal (f, es) =
    is_fd 0 f.inputfd || is_fd 1 f.outputfd || is_fd 2 f.outputfd || handles_interrupt es

-- Descriptors that the system gives a process whose first three are in use.
abbrev IsFresh : Option ℕ → Type 0
IsFresh none = Unit
IsFresh (some fd) = 2 < fd

abbrev pub IsSystem : Opened → Type 0
IsSystem o = IsFresh o.pty × IsFresh o.log

abbrev logs_of : Option Text → ℕ → List Text
logs_of none n = []
logs_of (some p) n = uart_log_name p n ∷ []

-- What a port that is made has done.
abbrev Shown : Option Text → ℕ → Bool → Files × List Effect → Type 0
Shown prefix n own (f, es) =
    (log_names es ≡ logs_of prefix n)
    × (link_names es ≡ (if own then [] else symlink_name n ∷ []))
    × (takes_terminal (f, es) ≡ own)

abbrev Attached : ℕ → Bool → Files × List Effect → Type 0
Attached n own r =
    ((own ≡ true)
      × (r ≡ (
        record { inputfd = some 0; outputfd = some 1; print_file = false },
        on_interrupt ∷ [],
      )))
    ⊎ ((own ≡ false)
        × ((name : Text) × (fd : ℕ) × (2 < fd)
            × (r ≡ (
              record { inputfd = some fd; outputfd = some fd; print_file = false },
              removes (symlink_name n) ∷ links name (symlink_name n) ∷ [],
            ))))

attach_pty-done :
    (n : ℕ) (o : Opened) {r : Files × List Effect}
    → IsSystem o
    → attach_pty n o ≡ done r
    → Attached n false r
unfolding attach_pty
attach_pty-done n o {r} (fresh, log) h = elim (Option-cases o.pty) [
  | inl e ↦ let bad : stop undefined ≡ done r = rw e at h in cc
  | inr (fd, e) ↦ elim (Bool-cases o.symlink_fails) [
    | inl bad ↦ let h' : stop (exited 1) ≡ done r = rw (e, bad) at h in cc
    | inr ok ↦
        inr (refl, (o.pty_name, fd, subst IsFresh e fresh, sym (done-injective (rw (e, ok) at h))))
  ]
]

attach-done :
    (n : ℕ) (use_pty : Bool) (o : Opened) {r : Files × List Effect}
    → IsSystem o
    → attach n use_pty o ≡ done r
    → Attached n (n == 0 && not use_pty) r
unfolding attach
attach-done n use_pty o {r} sys h = elim (Bool-cases (n == 0 && not use_pty)) [
  | inl own ↦ inl (own, sym (done-injective (rw own at h)))
  | inr other ↦
      subst (λ (b : Bool). Attached n b r) (sym other) (attach_pty-done n o sys (rw other at h))
]

is_fd-IsFresh : (n : ℕ) (o : Option ℕ) → n ≤ 2 → IsFresh o → is_fd n o ≡ false
is_fd-IsFresh n none le fresh = refl
is_fd-IsFresh n (some fd) le fresh = ground arith

Attached-Shown :
    (prefix : Option Text) (n : ℕ) (own : Bool) (r : Files × List Effect) (o : Opened)
    (fd : Option ℕ)
    → IsFresh o.log
    → Attached n own r
    → Shown prefix n own
        ((redirect prefix n o r.0).0, r.1 ++ ((redirect prefix n o r.0).1 ++ unblocks fd ∷ []))
unfolding redirect
Attached-Shown none n own r o fd log (inl (a, e)) = rw (a, e) (refl, refl, refl)
Attached-Shown none n own r o fd log (inr (a, (name, pty, fresh, e))) =
    rw (a, e)
      (
        refl,
        refl,
        rw
            (
              is_fd-IsFresh 0 (some pty) (omega arith) fresh,
              is_fd-IsFresh 1 (some pty) (omega arith) fresh,
              is_fd-IsFresh 2 (some pty) (omega arith) fresh,
            )
            refl,
      )
Attached-Shown (some p) n own r o fd log (inl (a, e)) = rw (a, e) (refl, refl, refl)
Attached-Shown (some p) n own r o fd log (inr (a, (name, pty, fresh, e))) =
    rw (a, e)
      (
        refl,
        refl,
        rw
            (
              is_fd-IsFresh 0 (some pty) (omega arith) fresh,
              is_fd-IsFresh 1 o.log (omega arith) log,
              is_fd-IsFresh 2 o.log (omega arith) log,
            )
            refl,
      )

construct_uart-Shown :
    (prefix : Option Text) (n : ℕ) (use_pty : Bool) (o : Opened) {r : Files × List Effect}
    → IsSystem o
    → construct_uart prefix n use_pty o ≡ done r
    → Shown prefix n (n == 0 && not use_pty) r
unfolding construct_uart
construct_uart-Shown prefix n use_pty o {r} sys h =
    let own : Bool = n == 0 && not use_pty in
    let (q, e, h') = >>=-eq-done (attach n use_pty o) _ h in
    subst (Shown prefix n own) (done-injective h') (
      Attached-Shown prefix n own q o (redirect prefix n o q.0).0.inputfd sys.1
        (attach-done n use_pty o sys e))

-- Names of both lists are different.
abbrev pub Apart : List Text → List Text → Type 0
Apart xs ys = All (λ x. All (λ y. x ≢ y) ys) xs

logs-Apart :
    (prefix : Option Text) (m n : ℕ)
    → m < 10 ^ 10
    → n < 10 ^ 10
    → m ≢ n
    → Apart (logs_of prefix m) (logs_of prefix n)
unfolding uart_log_name
logs-Apart none m n hm hn other = tt
logs-Apart (some p) m n hm hn other = ((λ e. other (to_string-injective p m n hm hn e), tt), tt)

links-Apart :
    (m n : ℕ) (a b : Bool)
    → m < 10 ^ 10
    → n < 10 ^ 10
    → m ≢ n
    → Apart (if a then [] else symlink_name m ∷ []) (if b then [] else symlink_name n ∷ [])
unfolding symlink_name
links-Apart m n true b hm hn other = tt
links-Apart m n false true hm hn other = (tt, tt)
links-Apart m n false false hm hn other =
    ((λ e. other (to_string-injective (codes "uartpty") m n hm hn e), tt), tt)

one_terminal : (m n : ℕ) (a b : Bool) → m ≢ n → ((m == 0 && a) && (n == 0 && b)) ≡ false
one_terminal m n a b other = ground arith

-- Two ports with different numbers, each below 10^10, and the same name for the log, if any, in a
-- process whose first three descriptors are in use, so that the system gives new ones above 2: where
-- both constructors return, they open different logs and make different links, and at most one of
-- them takes the terminal of the simulation, that is, reads descriptor 0, writes to 1 or 2, or
-- handles the interrupt.
pub construct_uart-Apart :
    (prefix : Option Text) (m n : ℕ) (a b : Bool) (o p : Opened) {q r : Files × List Effect}
    → m < 10 ^ 10
    → n < 10 ^ 10
    → m ≢ n
    → IsSystem o
    → IsSystem p
    → construct_uart prefix m a o ≡ done q
    → construct_uart prefix n b p ≡ done r
    → Apart (log_names q.1) (log_names r.1)
      × Apart (link_names q.1) (link_names r.1)
      × ((takes_terminal q && takes_terminal r) ≡ false)
construct_uart-Apart prefix m n a b o p {q} {r} hm hn other so sp hq hr =
    let (l, k, t) = construct_uart-Shown prefix m a o so hq in
    let (l', k', t') = construct_uart-Shown prefix n b p sp hr in
    (
      rw (l, l') (logs-Apart prefix m n hm hn other),
      rw (k, k') (links-Apart m n (m == 0 && not a) (n == 0 && not b) hm hn other),
      rw (t, t') (one_terminal m n (not a) (not b) other),
    )

-- Whether an argument asks for terminals of their own
abbrev pub asks_pty : List Text → Bool
asks_pty [] = false
asks_pty (arg ∷ args) = text_eq (codes "+uart-pty") arg || asks_pty args

forces_pty-eq : (args : List Text) (b : Bool) → forces_pty args b ≡ (b || asks_pty args)
unfolding forces_pty
forces_pty-eq [] b = ground arith
forces_pty-eq (arg ∷ args) b = elim (Bool-cases (text_eq (codes "+uart-pty") arg)) [
  | inl e ↦ rw (e, forces_pty-eq args true) (ground arith)
  | inr e ↦ rw (e, forces_pty-eq args b) refl
]

-- In such a process, where `uart_init` returns, the new port takes the simulation's own terminal exactly when its
-- number is 0, the design does not force a new one, and no argument is `+uart-pty`.
pub open_port-terminal :
    (filename : Text) (args : List Text) (n : ℕ) (forcepty : Bool) (o : Opened)
    (ports : List (ℕ × Option Uart)) {ports' : List (ℕ × Option Uart)} {made : Files × List Effect}
    → IsSystem o
    → open_port filename args n forcepty o ports ≡ done (ports', made)
    → takes_terminal made ≡ (n == 0 && not (forcepty || asks_pty args))
unfolding open_port
open_port-terminal filename args n forcepty o ports {ports'} {made} sys h =
    let prefix : Option Text = if is_empty filename then none else some filename in
    let (ports₁, e, h₁) = >>=-eq-done (uart_init args n forcepty ports) _ h in
    let (made₁, e₁, h₂) = >>=-eq-done (construct_uart prefix n (forces_pty args forcepty) o) _ h₁ in
    let same : made₁ ≡ made =
      ap (λ (p : List (ℕ × Option Uart) × (Files × List Effect)). p.1) (done-injective h₂) in
    ap takes_terminal (sym same)
    ∙ (construct_uart-Shown prefix n (forces_pty args forcepty) o sys e₁).2
    ∙ ap (λ (b : Bool). n == 0 && not b) (forces_pty-eq args forcepty)
