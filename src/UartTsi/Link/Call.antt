-- ===== src/UartTsi/Link/Call.antt =====
-- One whole call of `handle_uart`: it ends when the line makes progress, and what it moves.
use uart_tsi.Base.{
  ℕ, ◌+◌, ◌*◌, ◌^◌, ◌≤◌, ◌<◌, ◌≡◌, refl, ap, ◌∙◌, some, List, [], ◌∷◌, ◌++◌, arith, length, done,
  All, All-append, ltb, leb, if◌then◌else◌, take-ge, length-append, drop-sub_self,
}
use uart_tsi.Fesvr.{Tsi, TsiLaws}
use uart_tsi.UartTsi.Link.{Poll, Link, half_bytes, send_all, receive, deliver, handle_uart}
use uart_tsi.UartTsi.Link.Send.{HasRoom, send_all-HasRoom}
use uart_tsi.UartTsi.Link.Stream.{
  IsByte, words_bytes, words_halves, half_bytes-words_halves, drain-in_data, deliver_lem,
}

pub length-words_bytes : (ws : List ℕ) → length (words_bytes ws) ≡ 4 * length ws
length-words_bytes [] = refl
length-words_bytes (w ∷ ws) = omega (arith, length-words_bytes ws)

-- The line answers a call of `handle_uart` on a queue of `n` words: no `write` fails, there are
-- enough of them even for a byte at a time, and `read` gives at most 256 bytes.
pub record IsAnswered (p : Poll) (n : ℕ) (input : List ℕ) : Type 0 where
  pub room : All HasRoom p.writes
  pub enough : 4 * n ≤ length p.writes
  pub size : 4 * n < 2 ^ 64
  pub reads : p.input ≡ some input
  pub bytes : All IsByte input
  pub fits : length input ≤ 256

-- The whole queue goes out.
send_words :
    (p : Poll) (ws wire input : List ℕ)
    → IsAnswered p (length ws) input
    → (let buf = half_bytes (words_halves ws) in send_all p.writes buf (length buf) wire)
      ≡ done (wire ++ words_bytes ws)
send_words p ws wire input a = rw (half_bytes-words_halves ws) (
    rw
      (send_all-HasRoom p.writes buf (length buf) wire a.room (omega arith) (omega (arith, n))
        (omega (arith, n)))
      (ap (λ (l : List ℕ). done (wire ++ l)) (drop-sub_self (length buf) buf)))
  where
    buf : List ℕ
    buf = words_bytes ws

    n : length buf ≡ 4 * length ws
    n = length-words_bytes ws

module _ (t : Tsi) (laws : TsiLaws t) where
  open t use {Host}
  open laws use {in_data, taken, accepted, available}

  -- What a call moves: `ws` are the words that it hands to the library.
  pub record Moves (l l' : Link t) (input ws : List ℕ) : Type 0 where
    pub emptied : in_data l'.host ≡ []
    pub all_taken : taken l'.host ≡ taken l.host ++ in_data l.host
    pub sent : l'.wire ≡ l.wire ++ words_bytes (in_data l.host)
    pub handed : accepted l'.host ≡ accepted l.host ++ ws
    pub kept : words_bytes ws ++ l'.read_bytes ≡ l.read_bytes ++ input
    pub count : length ws ≡ (if leb 4 (length l.read_bytes + length input) then 1 else 0)

  -- Where the line answers with `input` (no `write` fails, each takes at least a byte, and there
  -- are as many as bytes to send, which are below 2^64, and `input` is at most 256 bytes), the
  -- buffer holds bytes, and the queue fits the fuel, a call of `handle_uart` returns, with
  -- whether anything was read. It takes the whole queue and sends it in order, hands over one
  -- word if the buffer and `input` make four bytes and none otherwise, and keeps the other
  -- bytes.
  pub handle_uart_lem :
      (fuel : ℕ) (p : Poll) (l : Link t) (input : List ℕ)
      → length (in_data l.host) < fuel
      → IsAnswered p (length (in_data l.host)) input
      → All IsByte l.read_bytes
      → (l' : Link t) × (ws : List ℕ) × (handle_uart t fuel p l ≡ done (ltb 0 (length input), l'))
        × Moves l l' input ws
  unfolding handle_uart receive
  handle_uart_lem fuel p l input lt a ok =
      let (h, drained, empty, all_taken, same) =
        drain-in_data t laws fuel (in_data l.host) l.host [] refl lt in
      let all : List ℕ = l.read_bytes ++ input in
      let (ws, d0, d1, d2, d3, d4) =
        deliver_lem t laws all h (All-append IsByte l.read_bytes input ok a.bytes) in
      let (left, h') = deliver t all h in
      let buf : List ℕ = words_bytes (in_data l.host) in
      (
        record { host = h'; read_bytes = left; wire = l.wire ++ buf },
        ws,
        rw (
          drained,
          send_words p (in_data l.host) l.wire input a,
          a.reads,
          take-ge 256 input a.fits,
          available h',
          d0,
          empty,
        ),
        record {
          emptied = d0 ∙ empty;
          all_taken = d1 ∙ all_taken;
          sent = refl;
          handed = d2 ∙ ap (λ (o : List ℕ). o ++ ws) same;
          kept = d3;
          count = d4 ∙ ap (λ (n : ℕ). if leb 4 n then 1 else 0) (length-append l.read_bytes input);
        },
      )
