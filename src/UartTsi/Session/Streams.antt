-- ===== src/UartTsi/Session/Streams.antt =====
-- Over a whole session the line carries exactly the words that the library gave and got.
use uart_tsi.Base.{
  ℕ, ◌*◌, ◌^◌, ◌≤◌, ◌<◌, ◌≡◌, refl, ap, ◌∙◌, Bool, Option, none, some, List, [], ◌∷◌, ◌++◌, arith,
  length, take, append_assoc, append-nil, Run, done, All, All-append, All-append_right, sym,
  >>=-eq-done, done-injective, drop-sub_self, Bool-cases, inl, inr,
}
use mathlib.Core.Path.{subst}
use native.Mathlib.Decide.{dec_lt}
use uart_tsi.Fesvr.{Tsi, TsiLaws}
use uart_tsi.UartTsi.Link.{Poll, Link, half_bytes, send_all, receive, drain, deliver, handle_uart}
use uart_tsi.UartTsi.Link.Send.{HasNotFailed, send_all-done}
use uart_tsi.UartTsi.Link.Stream.{
  IsByte, words_bytes, words_halves, half_bytes-words_halves, words_bytes-append, deliver_lem,
  drain-in_data, drain-starved,
}
use uart_tsi.UartTsi.Link.Call.{length-words_bytes}
use uart_tsi.UartTsi.Session.{serve, flush, switched}

-- What one `read` gives.
abbrev pub read_of : Option (List ℕ) → List ℕ
read_of none = []
read_of (some bytes) = take 256 bytes

abbrev pub received : List Poll → List ℕ
received [] = []
received (p ∷ ps) = read_of p.input ++ received ps

-- No `write` fails, and `read` gives bytes.
abbrev pub IsSound : Poll → Type 0
IsSound p = All HasNotFailed p.writes × All IsByte (read_of p.input)

sends_words :
    (p : Poll) (ws wire : List ℕ) {out : List ℕ}
    → All HasNotFailed p.writes
    → 4 * length ws < 2 ^ 64
    → (let buf = half_bytes (words_halves ws) in send_all p.writes buf (length buf) wire) ≡ done out
    → out ≡ wire ++ words_bytes ws
sends_words p ws wire {out} ok small run =
    let buf : List ℕ = words_bytes ws in
    send_all-done p.writes buf (length buf) wire ok (omega arith)
      (omega (arith, length-words_bytes ws)) (rw half_bytes-words_halves at run)
    ∙ ap (λ (l : List ℕ). wire ++ l) (drop-sub_self (length buf) buf)

pub received-append : (ps qs : List Poll) → received (ps ++ qs) ≡ received ps ++ received qs
received-append [] qs = refl
received-append (p ∷ ps) qs =
    rw (received-append ps qs) (sym (append_assoc (read_of p.input) (received ps) (received qs)))

module _ (t : Tsi) (laws : TsiLaws t) where
  open laws use {taken, accepted}

  -- The line has carried out the words taken from the library, and every byte read, `rx`, is in a
  -- word that the library was handed or still waits.
  pub record IsFaithful (rx : List ℕ) (l : Link t) : Type 0 where
    pub sent : l.wire ≡ words_bytes (taken l.host)
    pub got : words_bytes (accepted l.host) ++ l.read_bytes ≡ rx
    pub bytes : All IsByte l.read_bytes

  -- What a loop leaves behind that used up `used` of its polls.
  abbrev pub Consumed : List ℕ → List Poll → List Poll → Link t → Type 0
  Consumed rx ps rest l' =
      (used : List Poll) × (ps ≡ used ++ rest) × IsFaithful (rx ++ received used) l'

module _ (t : Tsi) (laws : TsiLaws t) (fuel : ℕ) (small : 4 * fuel ≤ 2 ^ 64) where
  open t use {Host, is_done}
  open laws use {in_data, taken, accepted, available, switch}

  drain-done :
      (h : Host) {out : List ℕ} {h' : Host}
      → drain t fuel h [] ≡ done (out, h')
      → (length (in_data h) < fuel)
        × (out ≡ words_halves (in_data h))
        × (taken h' ≡ taken h ++ in_data h)
        × (accepted h' ≡ accepted h)
  drain-done h run = elim (dec_lt (length (in_data h)) fuel) [
    | yes lt ↦
        let (h'', run'', empty, all_taken, same) =
          drain-in_data t laws fuel (in_data h) h [] refl lt in
        (lt, cc, cc, cc)
    | no ge ↦ cc (drain-starved t laws fuel (in_data h) h [] refl (omega arith))
  ]

  receive-done :
      (input : Option (List ℕ)) {bytes : List ℕ}
      → receive input ≡ done bytes
      → bytes ≡ read_of input
  unfolding receive
  receive-done none e = cc
  receive-done (some bytes) e = cc

  -- A call that returns, in its parts.
  handle_uart-parts :
      (p : Poll) (l : Link t) {more : Bool} {l' : Link t}
      → handle_uart t fuel p l ≡ done (more, l')
      → (out : List ℕ) × (h : Host) × (wire : List ℕ) × (drain t fuel l.host [] ≡ done (out, h))
        × (send_all p.writes (half_bytes out) (length (half_bytes out)) l.wire ≡ done wire)
        × (l'.wire ≡ wire)
        × (let d = deliver t (l.read_bytes ++ read_of p.input) h in
            (l'.read_bytes ≡ d.0) × (l'.host ≡ d.1))
  unfolding handle_uart receive
  handle_uart-parts p l {more} {l'} run =
      let a = >>=-eq-done (drain t fuel l.host []) _ run in
      let out : List ℕ = a.0.0 in
      let b =
        >>=-eq-done (send_all p.writes (half_bytes out) (length (half_bytes out)) l.wire) _ a.2 in
      let c = >>=-eq-done (receive p.input) _ b.2 in
      let e = ap (λ (r : Bool × Link t). r.1) (done-injective c.2) in
      let r = receive-done p.input c.1 in
      (
        out,
        a.0.1,
        b.0,
        a.1,
        b.1,
        ap (λ (m : Link t). m.wire) (sym e),
        rw (← r) (ap (λ (m : Link t). m.read_bytes) (sym e), ap (λ (m : Link t). m.host) (sym e)),
      )

  -- A call that returns keeps both streams whole.
  pub handle_uart-IsFaithful :
      (rx : List ℕ) (p : Poll) (l : Link t) {more : Bool} {l' : Link t}
      → IsSound p
      → IsFaithful t laws rx l
      → handle_uart t fuel p l ≡ done (more, l')
      → IsFaithful t laws (rx ++ read_of p.input) l'
  handle_uart-IsFaithful rx p l {more} {l'} ok f run =
      let (out, h, wire, drained, sending, w, rest) = handle_uart-parts p l run in
      let d = drain-done l.host drained in
      let all : List ℕ = l.read_bytes ++ read_of p.input in
      let all_bytes = All-append IsByte l.read_bytes (read_of p.input) f.bytes ok.1 in
      let (ws, d0, d1, d2, d3, d4) = deliver_lem t laws all h all_bytes in
      record {
        sent =
            w
            ∙ sends_words p (in_data l.host) l.wire ok.0 (omega (arith, d.0)) (rw d.1 at sending)
            ∙ rw (rest.1, d1, d.2, words_bytes-append)
                (ap (λ (o : List ℕ). o ++ words_bytes (in_data l.host)) f.sent);
        got =
            rw (
              rest.0,
              rest.1,
              d2,
              d.3,
              words_bytes-append,
              append_assoc,
              d3,
              ← append_assoc,
              f.got,
            );
        bytes = rw rest.0 (
            All-append_right IsByte (words_bytes ws) (deliver t all h).0
              (subst (All IsByte) (sym d3) all_bytes));
      }

  switched-IsFaithful :
      {rx : List ℕ} {l : Link t} → IsFaithful t laws rx l → IsFaithful t laws rx (switched t fuel l)
  switched-IsFaithful {rx} {l} f = record {
    sent = rw (switch l.host).0 f.sent;
    got = rw (switch l.host).1 f.got;
    bytes = f.bytes;
  }

  -- One more poll before a loop that consumes `rest` of the others.
  Consumed-cons :
      (rx : List ℕ) (p : Poll) (ps rest : List Poll) (l' : Link t)
      → Consumed t laws (rx ++ read_of p.input) ps rest l'
      → Consumed t laws rx (p ∷ ps) rest l'
  Consumed-cons rx p ps rest l' (used, e, f) = (
    p ∷ used,
    ap (λ (q : List Poll). p ∷ q) e,
    subst (λ (r : List ℕ). IsFaithful t laws r l')
        (append_assoc rx (read_of p.input) (received used)) f,
  )

  Consumed-nil :
      (rx : List ℕ) (ps : List Poll) (l : Link t)
      → IsFaithful t laws rx l
      → Consumed t laws rx ps ps l
  Consumed-nil rx ps l f =
      ([], refl, subst (λ (r : List ℕ). IsFaithful t laws r l) (sym (append-nil rx)) f)

  Consumed-done :
      (rx : List ℕ) (ps : List Poll) (l : Link t) {rest : List Poll} {l' : Link t}
      → IsFaithful t laws rx l
      → ◌≡◌ {A = Run (Link t × List Poll)} (done (l, ps)) (done (l', rest))
      → Consumed t laws rx ps rest l'
  Consumed-done rx ps l f e =
      subst (λ (r : Link t × List Poll). Consumed t laws rx ps r.1 r.0) (done-injective e)
        (Consumed-nil rx ps l f)

  pub serve-IsFaithful :
      (ps : List Poll) (rx : List ℕ) (l : Link t) {rest : List Poll} {l' : Link t}
      → All IsSound ps
      → IsFaithful t laws rx l
      → serve t fuel ps l ≡ done (l', rest)
      → Consumed t laws rx ps rest l'
  unfolding serve
  serve-IsFaithful [] rx l {rest} {l'} ok f run = elim (Bool-cases (is_done l.host)) [
    | inl e ↦ Consumed-done rx [] l f (rw e at run)
    | inr e ↦ cc
  ]
  serve-IsFaithful (p ∷ ps) rx l {rest} {l'} ok f run = elim (Bool-cases (is_done l.host)) [
    | inl e ↦ Consumed-done rx (p ∷ ps) l f (rw e at run)
    | inr e ↦
        let m = switched t fuel l in
        let ((more, l''), called, r) = >>=-eq-done (handle_uart t fuel p m) _ (rw e at run) in
        Consumed-cons rx p ps rest l' (
          serve-IsFaithful ps (rx ++ read_of p.input) l'' ok.1
            (handle_uart-IsFaithful rx p m ok.0 (switched-IsFaithful f) called) r)
  ]

  pub flush-IsFaithful :
      (ps : List Poll) (rx : List ℕ) (l : Link t) {rest : List Poll} {l' : Link t}
      → All IsSound ps
      → IsFaithful t laws rx l
      → flush t fuel ps l ≡ done (l', rest)
      → Consumed t laws rx ps rest l'
  unfolding flush
  flush-IsFaithful [] rx l ok f run = cc
  flush-IsFaithful (p ∷ ps) rx l {rest} {l'} ok f run =
      let ((more, l''), called, r) = >>=-eq-done (handle_uart t fuel p l) _ run in
      let f' = handle_uart-IsFaithful rx p l ok.0 f called in
      Consumed-cons rx p ps rest l' (elim (Bool-cases more) [
        | inl e ↦
            flush-IsFaithful ps (rx ++ read_of p.input) (switched t fuel l'') ok.1
              (switched-IsFaithful f') (rw e at r)
        | inr e ↦ Consumed-done (rx ++ read_of p.input) ps l'' f' (rw e at r)
      ])
