-- ===== src/Dramsim/Queues.antt =====
-- The queues of csrc/mm_dramsim2.h: requests by address, and the identifiers that have one in flight.
use uart_tsi.Base.{
  ℕ, Bool, Option, none, some, List, [], ◌∷◌, ◌++◌, if◌then◌else◌, ◌==◌, get_elem?, Run, done, stop,
  undefined, ◌>>=◌,
}

-- `mm_req_t`
pub record Req : Type 0 where
  pub id : ℕ
  pub size : ℕ
  pub len : ℕ
  pub addr : ℕ

-- `std::map` from addresses to queues; an address without an entry has an empty queue.
abbrev pub Queues {ℓ} : Type ℓ → Type ℓ
Queues A = List (ℕ × List A)

module _ {ℓ} {A : Type ℓ} where
  -- `m[address]`
  unfoldable pub queue_at : ℕ → Queues A → List A
  queue_at a [] = []
  queue_at a ((b, q) ∷ m) = if b == a then q else queue_at a m

  -- `m[address].push(x)`
  unfoldable pub push_at : ℕ → A → Queues A → Queues A
  push_at a x [] = (a, x ∷ []) ∷ []
  push_at a x ((b, q) ∷ m) = if b == a then (b, q ++ x ∷ []) ∷ m else (b, q) ∷ push_at a x m

  abbrev pub tail : List A → List A
  tail [] = []
  tail (x ∷ xs) = xs

  -- `m[address].pop()`
  unfoldable pub pop_at : ℕ → Queues A → Queues A
  pop_at a [] = []
  pop_at a ((b, q) ∷ m) = if b == a then (b, tail q) ∷ m else (b, q) ∷ pop_at a m

  -- All that is queued.
  abbrev pub flat : Queues A → List A
  flat [] = []
  flat ((b, q) ∷ m) = q ++ flat m

-- `read_id_busy[id]`, which is undefined past the end.
unfoldable pub busy_at : List Bool → ℕ → Run Bool
busy_at busy id = elim (get_elem? busy id) [ none ↦ stop undefined | some b ↦ done b ]

-- With `r` put in front of what stays queued.
unfoldable pub keep : Req → Option (Req × List Req) → Option (Req × List Req)
keep r none = none
keep r (some (p, rest)) = some (p, r ∷ rest)

-- The loop over `rreq_queue`: the first request whose identifier is not busy, and the queue without it.
unfoldable pub pick : List Bool → List Req → Run (Option (Req × List Req))
unfolding busy_at keep
pick busy [] = done none
pick busy (r ∷ rs) = do
  b ← busy_at busy r.id
  let found = done (some (r, rs))
  let later = (do o ← pick busy rs; done (keep r o))
  if b then later else found
