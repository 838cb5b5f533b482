-- ===== src/Cospike/Configure/Matching.antt =====
-- The loop of `cospike_cosim` over `backing_mem_data[0]`, by which the simulator starts with the
-- contents of the target's memories.
use uart_tsi.Base.{
  ℕ, zero, suc, ◌+◌, ◌≤◌, ◌<◌, ◌≡◌, refl, ap, ◌∙◌, Bool, true, false, some, List, [], ◌∷◌, ◌==◌,
  arith, length, done, All, ◌⊎◌, inl, inr,
}
use mathlib.Core.Path.{ap₂}
use uart_tsi.Base.Memory.{bytes_at, overlay, overlay-before, overlay-past, length-bytes_at}
use uart_tsi.Simdram.{Backing}
use uart_tsi.Cospike.Configure.{Spike, match_memories, store_or_abort}

-- What the library documents of `store`: in a range that the memories hold it puts the bytes at
-- their addresses, and it changes nothing else.
pub record MemsLaws {S : Type 0} (spike : Spike S) : Type 0 where
  pub memory : S → ℕ → ℕ
  pub holds : ℕ → ℕ → S → Bool
  pub stored :
      (base : ℕ) (bytes : List ℕ) (s : S)
      → holds base (length bytes) s ≡ true
      → (s' : S) × (spike.mems_store base bytes s ≡ some s')
        × ((x : ℕ) → memory s' x ≡ overlay base bytes (memory s) x)
        × ((b n : ℕ) → holds b n s' ≡ holds b n s)

abbrev pub IsApart : ℕ × Backing → ℕ × Backing → Type 0
IsApart (a, b) (c, d) = (a + b.size ≤ c) ⊎ (c + d.size ≤ a)

-- No two regions overlap.
abbrev pub Disjoint : List (ℕ × Backing) → Type 0
Disjoint [] = Unit
Disjoint (r ∷ rs) = All (IsApart r) rs × Disjoint rs

-- An address outside of a region
abbrev pub IsOutside : ℕ → ℕ × Backing → Type 0
IsOutside x (a, b) = (x < a) ⊎ (a + b.size ≤ x)

overlay-bytes_at :
    (mem src : ℕ → ℕ) (a o n x : ℕ) → x < n → overlay a (bytes_at src o n) mem (a + x) ≡ src (o + x)
overlay-bytes_at mem src a o zero x h = absurd (omega arith)
overlay-bytes_at mem src a o (suc n) zero h =
    let here : (a + 0 == a) ≡ true = ground arith in rw here (ap src (omega arith))
overlay-bytes_at mem src a o (suc n) (suc x) h =
    let later : (a + suc x == a) ≡ false = ground arith in
    let moved : a + suc x ≡ a + 1 + x = omega arith in
    rw (later, moved)
      (overlay-bytes_at mem src (a + 1) (o + 1) n x (omega arith) ∙ ap src (omega arith))

overlay-IsOutside :
    (r : ℕ × Backing) (mem : ℕ → ℕ) (x : ℕ)
    → IsOutside x r
    → overlay r.0 (bytes_at r.1.bytes 0 r.1.size) mem x ≡ mem x
overlay-IsOutside (a, b) mem x (inl h) = overlay-before (bytes_at b.bytes 0 b.size) a x mem h
overlay-IsOutside (a, b) mem x (inr h) =
    overlay-past (bytes_at b.bytes 0 b.size) a x mem
      (omega (arith, length-bytes_at b.bytes 0 b.size))

inside-IsOutside : (r q : ℕ × Backing) (x : ℕ) → IsApart r q → x < r.1.size → IsOutside (r.0 + x) q
inside-IsOutside (a, b) (c, d) x (inl h) lt = inl (omega arith)
inside-IsOutside (a, b) (c, d) x (inr h) lt = inr (omega arith)

inside-IsOutside_each :
    (r : ℕ × Backing) (rs : List (ℕ × Backing)) (x : ℕ)
    → All (IsApart r) rs
    → x < r.1.size
    → All (IsOutside (r.0 + x)) rs
inside-IsOutside_each r [] x h lt = tt
inside-IsOutside_each r (q ∷ rs) x h lt =
    (inside-IsOutside r q x h.0 lt, inside-IsOutside_each r rs x h.1 lt)

pub held-kept :
    {S : Type 0} {spike : Spike S} (laws : MemsLaws spike) (s s' : S)
    → ((b n : ℕ) → laws.holds b n s' ≡ laws.holds b n s)
    → (rs : List (ℕ × Backing)) → All (λ r. laws.holds r.0 r.1.size s ≡ true) rs
    → All (λ r. laws.holds r.0 r.1.size s' ≡ true) rs
held-kept laws s s' kept [] h = tt
held-kept laws s s' kept (r ∷ rs) h = (kept r.0 r.1.size ∙ h.0, held-kept laws s s' kept rs h.1)

-- The loop with the contents address by address.
match_memories-bytes :
    {S : Type 0} (spike : Spike S) (laws : MemsLaws spike) (regions : List (ℕ × Backing)) (s : S)
    → All (λ r. laws.holds r.0 r.1.size s ≡ true) regions
    → Disjoint regions
    → (s' : S) × (match_memories spike regions s ≡ done s')
      × All (λ r. (x : ℕ) → x < r.1.size → laws.memory s' (r.0 + x) ≡ r.1.bytes x) regions
      × ((x : ℕ) → All (IsOutside x) regions → laws.memory s' x ≡ laws.memory s x)
unfolding match_memories store_or_abort
match_memories-bytes spike laws [] s held apart_ = (s, refl, tt, λ x h. refl)
match_memories-bytes spike laws ((base, b) ∷ regions) s held apart_ =
    let bytes : List ℕ = bytes_at b.bytes 0 b.size in
    let size_ : length bytes ≡ b.size = length-bytes_at b.bytes 0 b.size in
    let (s₁, e₁, wrote, kept) =
      laws.stored base bytes s (ap (λ n. laws.holds base n s) size_ ∙ held.0) in
    let (s', e', contents, outside) =
      match_memories-bytes spike laws regions s₁ (held-kept laws s s₁ kept regions held.1)
        apart_.1 in
    (
      s',
      rw e₁ e',
      (
        (λ x lt.
            outside (base + x) (inside-IsOutside_each (base, b) regions x apart_.0 lt)
            ∙ wrote (base + x)
            ∙ overlay-bytes_at (laws.memory s) b.bytes base 0 b.size x lt
            ∙ ap b.bytes (omega arith)),
        contents,
      ),
      λ x h. outside x h.1 ∙ wrote x ∙ overlay-IsOutside (base, b) (laws.memory s) x h.0,
    )

bytes_at-shift :
    (f g : ℕ → ℕ) (n a o : ℕ)
    → ((x : ℕ) → x < n → f (a + x) ≡ g (o + x))
    → bytes_at f a n ≡ bytes_at g o n
bytes_at-shift f g zero a o h = refl
bytes_at-shift f g (suc n) a o h =
    ap₂ ◌∷◌ (ap f (omega arith) ∙ h 0 (omega arith) ∙ ap g (omega arith)) (
      bytes_at-shift f g n (a + 1) (o + 1)
        (λ x lt. ap f (omega arith) ∙ h (suc x) (omega arith) ∙ ap g (omega arith)))

contents_at :
    (mem : ℕ → ℕ) (rs : List (ℕ × Backing))
    → All (λ r. (x : ℕ) → x < r.1.size → mem (r.0 + x) ≡ r.1.bytes x) rs
    → All (λ r. bytes_at mem r.0 r.1.size ≡ bytes_at r.1.bytes 0 r.1.size) rs
contents_at mem [] h = tt
contents_at mem ((a, b) ∷ rs) h = (
  bytes_at-shift mem b.bytes b.size a 0 (λ x lt. h.0 x lt ∙ ap b.bytes (omega arith)),
  contents_at mem rs h.1,
)

-- Where the target's regions do not overlap and the simulator's memories hold them, the loop
-- returns; the simulator's memory then has the bytes of every region at its place, and an address
-- outside of all regions is as before.
pub match_memories-contents :
    {S : Type 0} (spike : Spike S) (laws : MemsLaws spike) (regions : List (ℕ × Backing)) (s : S)
    (x : ℕ)
    → All (λ r. laws.holds r.0 r.1.size s ≡ true) regions
    → Disjoint regions
    → All (IsOutside x) regions
    → (s' : S) × (match_memories spike regions s ≡ done s')
      × All (λ r. bytes_at (laws.memory s') r.0 r.1.size ≡ bytes_at r.1.bytes 0 r.1.size) regions
      × (laws.memory s' x ≡ laws.memory s x)
match_memories-contents spike laws regions s x held apart_ out =
    let (s', e, contents, outside) = match_memories-bytes spike laws regions s held apart_ in
    (s', e, contents_at (laws.memory s') regions contents, outside x out)
