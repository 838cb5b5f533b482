-- ===== src/Simuart.antt =====
-- csrc/uart.h, csrc/uart.cc and csrc/SimUART.cc: the serial port of the simulation. What `read` and
-- `write` do is an event; the port is what has come in and gone out so far.
pub mod Construct
pub mod Names
mod OpenTests
mod Tests
use uart_tsi.Base.{
  ℕ, zero, suc, Bool, true, false, ◌&&◌, ◌==◌, Option, none, some, List, [], ◌∷◌, ◌++◌,
  if◌then◌else◌, ◌≡◌, refl, ◌∙◌, sym, ap, append_assoc, append-nil, ◌≢◌, Run, done, stop, exited,
  aborted, ◌>>=◌, arith, inl, inr, Bool-cases, ◌⊎◌, All,
}
use uart_tsi.Base.Text.{Text, codes, text_eq}

-- What a tick of one object sees: the global `specialchar`, zero when no signal waits, and what has
-- been written to the object's `outputfd`.
pub record Port : Type 0 where
  pub specialchar : ℕ
  pub output : List ℕ

-- `SIGINT` is 2.
unfoldable pub sighand : ℕ → Port → Port
sighand s p = record p { specialchar = if s == 2 then 3 else 0 }

-- The inputs of `tick`, and what `read` and `write` do: no byte or one, and whether `write` fails.
pub record Turn : Type 0 where
  pub out_valid : Bool
  pub out_bits : ℕ
  pub in_ready : Bool
  pub readable : Option ℕ
  pub write_fails : Bool

-- What `tick` takes in, and the port then.
unfoldable pub take_input : Turn → Port → Option ℕ × Port
take_input t p =
    if t.in_ready
    then (if p.specialchar == 0
        then (t.readable, p)
        else (some p.specialchar, record p { specialchar = 0 }))
    else (none, p)

unfoldable pub put_output : Turn → Port → Run Port
put_output t p =
    if t.out_valid
    then (if t.write_fails
        then stop (exited 1)
        else done (record p { output = p.output ++ t.out_bits ∷ [] }))
    else done p

-- `*in_valid` and `*in_bits` are the first part of the result.
unfoldable pub tick : Turn → Port → Run (Option ℕ × Port)
unfolding take_input put_output
tick t p = do let (inp, p') = take_input t p; p'' ← put_output t p'; done (inp, p'')

-- `uart_t`, as `uart_init` makes it.
pub record Uart : Type 0 where
  pub use_pty : Bool
  pub output : List ℕ

-- `uarts`: a number may be there without a port, which is a null pointer.
unfoldable pub find_port : ℕ → List (ℕ × Option Uart) → Option (Option Uart)
find_port n [] = none
find_port n ((k, p) ∷ ports) = if k == n then some p else find_port n ports

unfoldable pub put_port : ℕ → Uart → List (ℕ × Option Uart) → List (ℕ × Option Uart)
put_port n q [] = []
put_port n q ((k, p) ∷ ports) = if k == n then (k, some q) ∷ ports else (k, p) ∷ put_port n q ports

unfoldable pub forces_pty : List Text → Bool → Bool
forces_pty [] use_pty = use_pty
forces_pty (arg ∷ args) use_pty =
    forces_pty args (if text_eq (codes "+uart-pty") arg then true else use_pty)

unfoldable pub add_port :
    Uart → ℕ → Option (Option Uart) → List (ℕ × Option Uart) → Run (List (ℕ × Option Uart))
add_port made n none ports = done ((n, some made) ∷ ports)
add_port made n (some p) ports = stop aborted

unfoldable pub uart_init :
    List Text → ℕ → Bool → List (ℕ × Option Uart) → Run (List (ℕ × Option Uart))
unfolding add_port
uart_init args n forcepty ports =
    add_port (record { use_pty = forces_pty args forcepty; output = [] }) n (find_port n ports)
      ports

-- `out_ready`, the byte that comes in if any, and the globals then.
pub record Answer : Type 0 where
  pub out_ready : Bool
  pub in_bits : Option ℕ
  pub specialchar : ℕ
  pub uarts : List (ℕ × Option Uart)

-- `uarts[uartno]` adds a number that is not there.
unfoldable pub tick_found :
    ℕ → Turn → ℕ → Option (Option Uart) → List (ℕ × Option Uart) → Run Answer
unfolding tick
tick_found n t special none ports =
    done (record {
      out_ready = false;
      in_bits = none;
      specialchar = special;
      uarts = (n, none) ∷ ports;
    })
tick_found n t special (some none) ports =
    done (record { out_ready = false; in_bits = none; specialchar = special; uarts = ports })
tick_found n t special (some (some u)) ports = do
  (inp, p) ← tick t (record { specialchar = special; output = u.output })
  done (record {
    out_ready = true;
    in_bits = inp;
    specialchar = p.specialchar;
    uarts = put_port n (record u { output = p.output }) ports;
  })

unfoldable pub uart_tick : ℕ → Turn → ℕ → List (ℕ × Option Uart) → Run Answer
unfolding tick_found
uart_tick n t special ports = tick_found n t special (find_port n ports) ports

-- A tick of a number that has no port yet returns, gives nothing in and takes nothing out, and
-- makes any later `uart_init` of that number abort, as one that is given twice.
pub uart_init-uart_tick :
    (args : List Text) (n : ℕ) (forcepty : Bool) (t : Turn) (special : ℕ)
    (ports : List (ℕ × Option Uart))
    → find_port n ports ≡ none
    → (a : Answer) × (uart_tick n t special ports ≡ done a)
      × (a.out_ready ≡ false)
      × (a.in_bits ≡ none)
      × (a.specialchar ≡ special)
      × (uart_init args n forcepty a.uarts ≡ stop aborted)
unfolding uart_tick uart_init find_port
uart_init-uart_tick args n forcepty t special ports e =
    let here : (n == n) ≡ true = ground arith in
    (
      record {
        out_ready = false;
        in_bits = none;
        specialchar = special;
        uarts = (n, none) ∷ ports;
      },
      rw e refl,
      refl,
      refl,
      refl,
      rw here refl,
    )

-- What the turns accept on the way in, and put out.
abbrev pub offered : List Turn → List ℕ
offered [] = []
offered (t ∷ ts) = if t.out_valid then t.out_bits ∷ offered ts else offered ts

unfoldable pub ticks : List Turn → Port → Run Port
unfolding tick
ticks [] p = done p
ticks (t ∷ ts) p = do (inp, p') ← tick t p; ticks ts p'

take_input-output : (t : Turn) (p : Port) → (take_input t p).1.output ≡ p.output
unfolding take_input
take_input-output t p = ground arith

put_output-output :
    (t : Turn) (p : Port)
    → t.write_fails ≡ false
    → (p' : Port) × (put_output t p ≡ done p') × (p'.output ≡ p.output ++ offered (t ∷ []))
unfolding put_output
put_output-output t p ok = elim (Bool-cases t.out_valid) [
  | inl on ↦ (record p { output = p.output ++ t.out_bits ∷ [] }, rw (on, ok) refl, rw on refl)
  | inr off ↦ (p, rw off refl, rw off (sym (append-nil p.output)))
]

offered-cons : (t : Turn) (ts : List Turn) → offered (t ∷ []) ++ offered ts ≡ offered (t ∷ ts)
offered-cons t ts = elim (Bool-cases t.out_valid) [ inl on ↦ rw on refl | inr off ↦ rw off refl ]

-- Over ticks in none of which `write` fails, whatever comes in meanwhile: the ticks return, and
-- exactly the bytes offered with `out_valid` are put out, in order, each of them once.
pub ticks-output :
    (ts : List Turn) (p : Port)
    → All (λ t. t.write_fails ≡ false) ts
    → (p' : Port) × (ticks ts p ≡ done p') × (p'.output ≡ p.output ++ offered ts)
unfolding ticks tick
ticks-output [] p ok = (p, refl, sym (append-nil p.output))
ticks-output (t ∷ ts) p ok =
    let (p₁, put, out) = put_output-output t (take_input t p).1 ok.0 in
    let (p₂, rest, out') = ticks-output ts p₁ ok.1 in
    (
      p₂,
      rw put rest,
      out'
          ∙ ap (λ (o : List ℕ). o ++ offered ts)
              (out ∙ ap (λ (o : List ℕ). o ++ offered (t ∷ [])) (take_input-output t p))
          ∙ append_assoc p.output (offered (t ∷ [])) (offered ts)
          ∙ ap (λ (o : List ℕ). p.output ++ o) (offered-cons t ts),
    )
