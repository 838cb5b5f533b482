-- ===== src/Fesvr.antt =====
-- The front-end server library, which the host tool links with. It is not part of the model: the
-- operations that the tool calls are a record, and what their documentation promises is another.
use uart_tsi.Base.{ℕ, ◌≡◌, Bool, not, List, [], ◌∷◌, ◌++◌, is_empty}

-- The operations of `tsi_t` that the UART adapter calls, over the library's state.
pub record Tsi : Type 1 where
  pub Host : Type 0
  pub data_available : Host → Bool
  pub recv_word : Host → ℕ × Host
  pub send_word : ℕ → Host → Host
  pub switch_to_host : Host → Host
  pub is_done : Host → Bool
  pub exit_code : Host → ℕ

-- `tsi_t` keeps the words for the target in a first-in first-out queue, and what it is sent in
-- another. `taken` and `accepted` are the histories of `recv_word` and `send_word`. The library's
-- own thread, which `switch_to_host` lets run, neither takes a word nor sends one.
pub record TsiLaws (t : Tsi) : Type 1 where
  pub in_data : t.Host → List ℕ
  pub taken : t.Host → List ℕ
  pub accepted : t.Host → List ℕ
  pub available : (h : t.Host) → t.data_available h ≡ not (is_empty (in_data h))
  pub recv :
      (h : t.Host) (w : ℕ) (ws : List ℕ)
      → in_data h ≡ w ∷ ws
      → ((t.recv_word h).0 ≡ w)
        × (in_data (t.recv_word h).1 ≡ ws)
        × (taken (t.recv_word h).1 ≡ taken h ++ w ∷ [])
        × (accepted (t.recv_word h).1 ≡ accepted h)
  pub send :
      (h : t.Host) (w : ℕ)
      → (in_data (t.send_word w h) ≡ in_data h)
        × (taken (t.send_word w h) ≡ taken h)
        × (accepted (t.send_word w h) ≡ accepted h ++ w ∷ [])
  pub switch :
      (h : t.Host)
      → (taken (t.switch_to_host h) ≡ taken h) × (accepted (t.switch_to_host h) ≡ accepted h)
