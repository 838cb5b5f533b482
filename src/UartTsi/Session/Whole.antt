-- ===== src/UartTsi/Session/Whole.antt =====
-- What the two loops of `main` do together, and what the second one can leave undone.
use uart_tsi.Base.{
  ℕ, ◌*◌, ◌^◌, ◌≤◌, ◌<◌, ◌≡◌, refl, ap, sym, ◌∙◌, List, [], ◌∷◌, ◌++◌, arith, length, append_assoc,
  done, All, length-append, >>=-eq-done, done-injective,
}
use mathlib.Core.Path.{subst}
use uart_tsi.Fesvr.{Tsi, TsiLaws}
use uart_tsi.UartTsi.Link.{Poll, Link}
use uart_tsi.UartTsi.Link.Stream.{IsByte, words_bytes}
use uart_tsi.UartTsi.Link.Call.{IsAnswered, handle_uart_lem, length-words_bytes}
use uart_tsi.UartTsi.Session.{serve, flush, run_link}
use uart_tsi.UartTsi.Session.Streams.{
  IsSound, IsFaithful, Consumed, received, received-append, serve-IsFaithful, flush-IsFaithful,
}

All-append_tail : (xs ys : List Poll) → All IsSound (xs ++ ys) → All IsSound ys
All-append_tail [] ys h = h
All-append_tail (x ∷ xs) ys h = All-append_tail xs ys h.1

module _ (t : Tsi) (laws : TsiLaws t) (fuel : ℕ) (small : 4 * fuel ≤ 2 ^ 64) where
  open t use {Host, exit_code}
  open laws use {in_data}

  -- With a fuel of at most 2^62 for the words of a call, over polls in which no `write` fails
  -- and every byte read is a byte, from a link on which the line has carried exactly the words
  -- taken from the library and the words handed to it and the buffer together are the bytes
  -- read: a session that returns does so with the library's exit code, and has used up a first
  -- part of the polls, after which the line has still carried exactly the words taken, low byte
  -- first and in order, and the words handed over followed by the buffer are still exactly the
  -- bytes read. So no word and no byte is lost, repeated or reordered.
  pub run_link-IsFaithful :
      (ps : List Poll) (rx : List ℕ) (l : Link t) {code : ℕ} {l' : Link t}
      → All IsSound ps
      → IsFaithful t laws rx l
      → run_link t fuel ps l ≡ done (code, l')
      → (code ≡ exit_code l'.host) × ((rest : List Poll) × Consumed t laws rx ps rest l')
  unfolding run_link
  run_link-IsFaithful ps rx l {code} {l'} ok f run =
      let ((l₁, ps₁), served, r) = >>=-eq-done (serve t fuel ps l) _ run in
      let (used₁, e₁, f₁) = serve-IsFaithful t laws fuel small ps rx l ok f served in
      let ((l₂, ps₂), flushed, q) = >>=-eq-done (flush t fuel ps₁ l₁) _ r in
      let ok₁ = All-append_tail used₁ ps₁ (subst (All IsSound) e₁ ok) in
      let (used₂, e₂, f₂) =
        flush-IsFaithful t laws fuel small ps₁ (rx ++ received used₁) l₁ ok₁ f₁ flushed in
      let ended : IsFaithful t laws (rx ++ received (used₁ ++ used₂)) l₂ =
        subst (λ (b : List ℕ). IsFaithful t laws b l₂)
          (append_assoc rx (received used₁) (received used₂)
            ∙ ap (λ (b : List ℕ). rx ++ b) (sym (received-append used₁ used₂)))
          f₂ in
      let all : ps ≡ (used₁ ++ used₂) ++ ps₂ =
        e₁ ∙ ap (λ (q : List Poll). used₁ ++ q) e₂ ∙ sym (append_assoc used₁ used₂ ps₂) in
      subst
        (λ (x : ℕ × Link t).
          (x.0 ≡ exit_code x.1.host) × ((rest : List Poll) × Consumed t laws rx ps rest x.1))
        (done-injective q) (refl, (ps₂, (used₁ ++ used₂, all, ended)))

  -- Where eight bytes or more are in `read_bytes`, all of them bytes, the queue fits the fuel,
  -- which is at most 2^62, and the line answers and reads nothing: the loop that flushes ends
  -- after that one poll, with at least four bytes, a whole word, still in the buffer.
  pub flush_strands :
      (p : Poll) (ps : List Poll) (l : Link t)
      → length (in_data l.host) < fuel
      → IsAnswered p (length (in_data l.host)) []
      → All IsByte l.read_bytes
      → 8 ≤ length l.read_bytes
      → (l' : Link t) × (flush t fuel (p ∷ ps) l ≡ done (l', ps)) × (4 ≤ length l'.read_bytes)
  unfolding flush
  flush_strands p ps l lt a ok long =
      let (l', ws, run, m) = handle_uart_lem t laws fuel p l [] lt a ok in
      (
        l',
        rw run,
        ground (
          arith,
          m.count,
          ap (λ (b : List ℕ). length b) m.kept,
          length-append (words_bytes ws) l'.read_bytes,
          length-append l.read_bytes [],
          length-words_bytes ws,
        ),
      )
