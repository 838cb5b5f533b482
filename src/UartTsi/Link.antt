-- ===== src/UartTsi/Link.antt =====
-- `handle_uart` of uart_tsi_src/testchip_uart_tsi.cc. What the serial line does is an event: how
-- many bytes each `write` has room for (`none` is its -1), and what one `read` returns.
pub mod Send
pub mod Stream
pub mod Call
use mathlib.Core.List.{flat_map}
use uart_tsi.Base.{
  ℕ, zero, suc, ◌-◌, ◌/◌, ◌%◌, ◌^◌, Bool, ◌||◌, Option, none, some, List, [], ◌∷◌, ◌++◌, ltb, ◌==◌,
  if◌then◌else◌, length, take, drop, sub64, bytes_word, Run, done, stop, exited, undefined, starved,
  ◌>>=◌,
}
use uart_tsi.Fesvr.{Tsi}

-- One call of `handle_uart`, as the serial line answers it.
pub record Poll : Type 0 where
  pub writes : List (Option ℕ)
  pub input : Option (List ℕ)

-- `to_write.push_back(d); to_write.push_back(d >> 16)` into a vector of `uint16_t`
unfoldable pub word_halves : ℕ → List ℕ
word_halves d = d % 2 ^ 16 ∷ d / 2 ^ 16 % 2 ^ 16 ∷ []

-- `(uint8_t*) to_write.data()` on a little-endian host
unfoldable pub half_bytes : List ℕ → List ℕ
half_bytes [] = []
half_bytes (x ∷ xs) = x % 256 ∷ x / 256 ∷ half_bytes xs

-- What `write` returns, as the `size_t` that it is stored in, and what it puts on the line.
unfoldable pub written : Option ℕ → ℕ → ℕ
written none n = 2 ^ 64 - 1
written (some room) n = if ltb room n then room else n

unfoldable pub sent : Option ℕ → ℕ → List ℕ → List ℕ
sent none n bytes = []
sent (some room) n bytes = take n bytes

-- The loop over `remaining`. A pointer before the buffer's start is undefined behaviour.
unfoldable pub send_all : List (Option ℕ) → List ℕ → ℕ → List ℕ → Run (List ℕ)
unfolding written sent
send_all [] buf remaining wire = if remaining == 0 then done wire else stop starved
send_all (r ∷ rs) buf remaining wire =
    let offered = drop (length buf - remaining) buf in
    let n = written r remaining in
    let rest = send_all rs buf (sub64 remaining n) (wire ++ sent r n offered) in
    if remaining == 0
    then done wire
    else if ltb (length buf) remaining
    then stop undefined
    else rest

-- `read(ttyfd, read_buf, 256)`, with the exit on an error
unfoldable pub receive : Option (List ℕ) → Run (List ℕ)
receive none = stop (exited 1)
receive (some bytes) = done (take 256 bytes)

module _ (t : Tsi) where
  open t use {Host, data_available, recv_word, send_word}

  -- The object: the library's part, `read_bytes`, and what has gone out on the line so far.
  pub record Link : Type 0 where
    pub host : Host
    pub read_bytes : List ℕ
    pub wire : List ℕ

  -- `while (data_available())`, with the words left to take as fuel
  unfoldable pub drain : ℕ → Host → List ℕ → Run (List ℕ × Host)
  unfolding word_halves
  drain zero h to_write = stop starved
  drain (suc fuel) h to_write =
      let rest = drain fuel (recv_word h).1 (to_write ++ word_halves (recv_word h).0) in
      if data_available h then rest else done (to_write, h)

  -- `if (read_bytes.size() >= 4)`: one word goes to the library.
  unfoldable pub deliver : List ℕ → Host → List ℕ × Host
  deliver (a ∷ b ∷ c ∷ d ∷ rest) h = (rest, send_word (bytes_word a b c d) h)
  deliver bytes h = (bytes, h)

  unfoldable pub handle_uart : ℕ → Poll → Link → Run (Bool × Link)
  handle_uart fuel p l = do
    (to_write, h) ← drain fuel l.host []
    let buf = half_bytes to_write
    wire ← send_all p.writes buf (length buf) l.wire
    bytes ← receive p.input
    let (left, h') = deliver (l.read_bytes ++ bytes) h
    done (
      data_available h' || ltb 0 (length bytes),
      record { host = h'; read_bytes = left; wire = wire },
    )
