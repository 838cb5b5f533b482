-- ===== src/UartTsi/Link/Send.antt =====
-- The loop that writes a buffer to the serial line: it sends every byte, in order, however the
-- line splits the buffer, and a failed `write` makes it run out of the buffer.
use uart_tsi.Base.{
  ℕ, ◌+◌, ◌-◌, ◌^◌, ◌≤◌, ◌<◌, ◌≡◌, ap, Option, none, some, List, [], ◌∷◌, ◌++◌, ◌∙◌, arith, length,
  take, drop, drop-length, ◌==◌, ltb, if◌then◌else◌, take-append-drop_from, append_assoc,
  append-nil, done, stop, undefined, All,
}
use uart_tsi.UartTsi.Link.{send_all}
use native.Mathlib.Decide.{ℕ_discrete}

-- The line takes at least a byte at each `write`.
abbrev pub HasRoom : Option ℕ → Type 0
HasRoom none = ⊥
HasRoom (some room) = 0 < room

-- One `write` of `k` bytes.
send_step :
    (buf wire : List ℕ) (remaining k : ℕ)
    → k ≤ remaining
    → remaining ≤ length buf
    → (wire ++ take k (drop (length buf - remaining) buf))
        ++ drop (length buf - (remaining - k)) buf
      ≡ wire ++ drop (length buf - remaining) buf
send_step buf wire remaining k hk hr =
    append_assoc wire _ _
    ∙ ap (λ (l : List ℕ). wire ++ l)
        (ap (λ (j : ℕ). take k (drop (length buf - remaining) buf) ++ drop j buf) (omega arith)
          ∙ take-append-drop_from k (length buf - remaining) buf)

-- For a buffer of less than 2^64 bytes of which at most all are left: where each `write` takes
-- at least a byte and there are as many as bytes to send, the loop ends and has sent the last
-- `remaining` bytes of the buffer in order, however the line splits them.
pub send_all-HasRoom :
    (rs : List (Option ℕ)) (buf : List ℕ) (remaining : ℕ) (wire : List ℕ)
    → All HasRoom rs
    → remaining ≤ length buf
    → remaining ≤ length rs
    → length buf < 2 ^ 64
    → send_all rs buf remaining wire ≡ done (wire ++ drop (length buf - remaining) buf)
unfolding send_all
send_all-HasRoom [] buf remaining wire ok le en lt =
    ground (arith, append-nil wire, drop-length buf)
send_all-HasRoom (none ∷ rs) buf remaining wire ok le en lt = absurd ok.0
send_all-HasRoom (some room ∷ rs) buf remaining wire ok le en lt =
    let k : ℕ = if ltb room remaining then room else remaining in
    ground (
      arith,
      send_all-HasRoom rs buf (remaining - k) (wire ++ take k (drop (length buf - remaining) buf))
          ok.1,
      send_step buf wire remaining k,
      append-nil wire,
      drop-length buf,
    )

abbrev pub HasNotFailed : Option ℕ → Type 0
HasNotFailed none = ⊥
HasNotFailed (some room) = Unit

-- If no `write` fails, the loop ends only when all of the buffer is sent.
pub send_all-done :
    (rs : List (Option ℕ)) (buf : List ℕ) (remaining : ℕ) (wire : List ℕ) {out : List ℕ}
    → All HasNotFailed rs
    → remaining ≤ length buf
    → length buf < 2 ^ 64
    → send_all rs buf remaining wire ≡ done out
    → out ≡ wire ++ drop (length buf - remaining) buf
unfolding send_all
send_all-done [] buf remaining wire {out} ok le lt run =
    ground (arith, append-nil wire, drop-length buf)
send_all-done (none ∷ rs) buf remaining wire {out} ok le lt run = absurd ok.0
send_all-done (some room ∷ rs) buf remaining wire {out} ok le lt run =
    let k : ℕ = if ltb room remaining then room else remaining in
    ground (
      arith,
      send_all-done rs buf (remaining - k) (wire ++ take k (drop (length buf - remaining) buf))
          {out = out} ok.1,
      send_step buf wire remaining k,
      append-nil wire,
      drop-length buf,
    )

-- For a buffer of less than 2^64 - 1 bytes, some of which are left: where the first `write` of
-- the loop fails, and each later one takes at least a byte and there are more of them than bytes
-- left: the failure is counted as 2^64 - 1 bytes, so the loop steps back by one byte. With the
-- whole buffer left that is a pointer before it, which is undefined behaviour; later, the byte
-- before the failure is sent once more, and then the rest.
pub send_all-failed :
    (rs : List (Option ℕ)) (buf : List ℕ) (remaining : ℕ) (wire : List ℕ)
    → All HasRoom rs
    → 0 < remaining
    → remaining ≤ length buf
    → remaining < length rs
    → length buf + 1 < 2 ^ 64
    → send_all (none ∷ rs) buf remaining wire ≡ (
        if remaining == length buf
        then stop undefined
        else done (wire ++ drop (length buf - (remaining + 1)) buf))
unfolding send_all
send_all-failed [] buf remaining wire ok pos le en lt = absurd (omega arith)
send_all-failed (r ∷ rs) buf remaining wire ok pos le en lt =
    elim (ℕ_discrete remaining (length buf)) [
      | yes e ↦ ground arith
      | no ne ↦
          ground (arith, append-nil wire, send_all-HasRoom (r ∷ rs) buf (remaining + 1) wire ok)
    ]
