-- ===== src/UartTsi/Link/Stream.antt =====
-- What one call of `handle_uart` does with the two directions of the serial line.
use uart_tsi.Base.{
  ℕ, zero, suc, ◌≤◌, ◌<◌, ◌≡◌, refl, ◌∙◌, List, [], ◌∷◌, ◌++◌, arith, length, append_assoc,
  append-nil, done, stop, starved, All, word_bytes, bytes_word, leb, sym, if◌then◌else◌,
}
use uart_tsi.Fesvr.{Tsi, TsiLaws}
use uart_tsi.UartTsi.Link.{word_halves, half_bytes, drain, deliver}

abbrev pub IsByte : ℕ → Type 0
IsByte b = b < 256

-- The bytes of a list of words, low byte first.
abbrev pub words_bytes : List ℕ → List ℕ
words_bytes [] = []
words_bytes (w ∷ ws) = word_bytes w ++ words_bytes ws

abbrev pub words_halves : List ℕ → List ℕ
words_halves [] = []
words_halves (w ∷ ws) = word_halves w ++ words_halves ws

pub half_bytes-words_halves : (ws : List ℕ) → half_bytes (words_halves ws) ≡ words_bytes ws
unfolding half_bytes word_halves
half_bytes-words_halves [] = refl
half_bytes-words_halves (w ∷ ws) = ground (arith, half_bytes-words_halves ws)

pub words_bytes-append :
    (xs ys : List ℕ) → words_bytes (xs ++ ys) ≡ words_bytes xs ++ words_bytes ys
words_bytes-append [] ys = refl
words_bytes-append (x ∷ xs) ys = ground (arith, words_bytes-append xs ys)

module _ (t : Tsi) (laws : TsiLaws t) where
  open t use {Host, data_available, recv_word, send_word}
  open laws use {in_data, taken, accepted, available, recv, send}

  -- With more fuel than words the drain takes them all, and sends nothing.
  pub drain-in_data :
      (fuel : ℕ) (ws : List ℕ) (h : Host) (acc : List ℕ)
      → in_data h ≡ ws
      → length ws < fuel
      → (h' : Host) × (drain t fuel h acc ≡ done (acc ++ words_halves ws, h'))
        × (in_data h' ≡ [])
        × (taken h' ≡ taken h ++ ws)
        × (accepted h' ≡ accepted h)
  unfolding drain
  drain-in_data zero ws h acc e lt = absurd (omega arith)
  drain-in_data (suc fuel) [] h acc e lt =
      (h, ground (arith, available h, append-nil acc), e, sym (append-nil (taken h)), refl)
  drain-in_data (suc fuel) (w ∷ ws) h acc e lt =
      let r = recv h w ws e in
      let (h', run, none_left, all_taken, same) =
        drain-in_data fuel ws (recv_word h).1 (acc ++ word_halves w) r.1 (omega arith) in
      (
        h',
        ground (arith, available h, r.0, run, append_assoc acc (word_halves w) (words_halves ws)),
        none_left,
        ground (arith, all_taken, r.2, append_assoc (taken h) (w ∷ []) ws),
        same ∙ r.3,
      )

  -- With less it takes some, and asks for more.
  pub drain-starved :
      (fuel : ℕ) (ws : List ℕ) (h : Host) (acc : List ℕ)
      → in_data h ≡ ws
      → fuel ≤ length ws
      → drain t fuel h acc ≡ stop starved
  unfolding drain
  drain-starved zero ws h acc e le = refl
  drain-starved (suc fuel) [] h acc e le = absurd (omega arith)
  drain-starved (suc fuel) (w ∷ ws) h acc e le =
      let r = recv h w ws e in
      ground (
        arith,
        available h,
        r.0,
        drain-starved fuel ws (recv_word h).1 (acc ++ word_halves (recv_word h).0) r.1,
      )

  -- At most one word goes to the library; no byte is lost, none is made.
  pub deliver_lem :
      (bytes : List ℕ) (h : Host)
      → All IsByte bytes
      → (ws : List ℕ) × (in_data (deliver t bytes h).1 ≡ in_data h)
        × (taken (deliver t bytes h).1 ≡ taken h)
        × (accepted (deliver t bytes h).1 ≡ accepted h ++ ws)
        × (words_bytes ws ++ (deliver t bytes h).0 ≡ bytes)
        × (length ws ≡ (if leb 4 (length bytes) then 1 else 0))
  unfolding deliver
  deliver_lem (a ∷ b ∷ c ∷ d ∷ rest) h ok =
      let s = send h (bytes_word a b c d) in
      (bytes_word a b c d ∷ [], s.0, s.1, s.2, ground arith, ground arith)
  deliver_lem [] h ok = ([], refl, refl, sym (append-nil _), refl, refl)
  deliver_lem (a ∷ []) h ok = ([], refl, refl, sym (append-nil _), refl, refl)
  deliver_lem (a ∷ b ∷ []) h ok = ([], refl, refl, sym (append-nil _), refl, refl)
  deliver_lem (a ∷ b ∷ c ∷ []) h ok = ([], refl, refl, sym (append-nil _), refl, refl)
