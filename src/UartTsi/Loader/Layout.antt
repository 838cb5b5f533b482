-- ===== src/UartTsi/Loader/Layout.antt =====
-- The recorded chunks never overlap.
use uart_tsi.Base.{
  ℕ, ◌+◌, ◌^◌, ◌≤◌, ◌<◌, ◌≡◌, ◌↔◌, refl, ap, sym, Bool, true, false, List, [], ◌∷◌, length, arith,
  done, stop, exited, done-injective, >>=-eq-done, All, Bool-cases, inl, inr, ◌⊎◌, ◌||◌, lt→ltb,
  ltb-of_gt, ==-of_gt,
}
use native.Mathlib.Decide.{dec_lt}
use uart_tsi.Htif.{Bus}
use uart_tsi.Tsi.{tsi_write_chunk}
use uart_tsi.UartTsi.Loader.{
  Chunk, Loader, conflict, any_conflict, insert, record_chunk, write_chunk,
}

-- A chunk of at least a byte that does not pass the end of the address space.
abbrev pub IsExtent : Chunk → Type 0
IsExtent c = (0 < length c.bytes) × (c.addr + length c.bytes < 2 ^ 64)

abbrev pub chunk_end : Chunk → ℕ
chunk_end c = c.addr + length c.bytes

-- For a write and a recorded chunk, both of at least a byte and inside the address space, the
-- three tests of the code find a conflict exactly when the two ranges share an address.
pub conflict_iff :
    (taddr nbytes : ℕ) (c : Chunk)
    → 0 < nbytes
    → taddr + nbytes < 2 ^ 64
    → IsExtent c
    → (conflict taddr nbytes c ≡ true) ↔ ((taddr < chunk_end c) × (c.addr < taddr + nbytes))
unfolding conflict
conflict_iff taddr nbytes c pos fits ext = (λ h. ground arith, λ h. ground arith)

-- The chunks in the order of their addresses, each past the end of the one before.
abbrev pub IsLayout : List Chunk → Type 0
IsLayout [] = Unit
IsLayout (c ∷ cs) = IsExtent c × All (λ d. chunk_end c ≤ d.addr) cs × IsLayout cs

insert-All :
    (b : ℕ) (c : Chunk) (cs : List Chunk)
    → b ≤ c.addr
    → All (λ d. b ≤ d.addr) cs
    → All (λ d. b ≤ d.addr) (insert c cs)
unfolding insert
insert-All b c [] h k = (h, tt)
insert-All b c (d ∷ ds) h k = ground (arith, insert-All b c ds h k.1)

All-mono : (a b : ℕ) (cs : List Chunk) → a ≤ b → All (λ d. b ≤ d.addr) cs → All (λ d. a ≤ d.addr) cs
All-mono a b [] h k = tt
All-mono a b (c ∷ cs) h k = (omega arith, All-mono a b cs h k.1)

-- A write that the test lets through lies before a recorded chunk or past it.
apart :
    (c d : Chunk)
    → IsExtent c
    → IsExtent d
    → conflict c.addr (length c.bytes) d ≡ false
    → ((c.addr < d.addr) × (chunk_end c ≤ d.addr)) ⊎ ((d.addr < c.addr) × (chunk_end d ≤ c.addr))
unfolding conflict
apart c d ec ed free = elim (dec_lt c.addr d.addr) [
  | yes lt ↦ inl (lt, ground arith)
  | no ge ↦ inr (ground arith, ground arith)
]

or_false : (a b : Bool) → (a || b) ≡ false → (a ≡ false) × (b ≡ false)
or_false true b h = cc
or_false false b h = (refl, h)

pub insert-IsLayout :
    (c : Chunk) (cs : List Chunk)
    → IsExtent c
    → IsLayout cs
    → any_conflict c.addr (length c.bytes) cs ≡ false
    → IsLayout (insert c cs)
unfolding insert any_conflict
insert-IsLayout c [] ext l free = (ext, tt, tt)
insert-IsLayout c (d ∷ ds) ext l free =
    let f =
      or_false (conflict c.addr (length c.bytes) d) (any_conflict c.addr (length c.bytes) ds)
        free in
    elim (apart c d ext l.0 f.0) [
      | inl before ↦
          rw (lt→ltb c.addr d.addr before.0)
            (ext, (before.1, All-mono (chunk_end c) (chunk_end d) ds (omega arith) l.1), l)
      | inr past ↦
          rw (ltb-of_gt c.addr d.addr past.0, ==-of_gt c.addr d.addr past.0)
            (l.0, insert-All (chunk_end d) c ds past.1 l.1, insert-IsLayout c ds ext l.2 f.1)
    ]

-- What a write that returns does to the record.
pub write_chunk-recorded :
    {S : Type 0} (bus : Bus S) (taddr : ℕ) (src : List ℕ) (o : Loader S) {o' : Loader S}
    → write_chunk bus taddr src o ≡ done o'
    → ((o.in_load_program ≡ false) × (o'.loaded_program ≡ o.loaded_program))
      ⊎ ((o.in_load_program ≡ true)
          × (any_conflict taddr (length src) o.loaded_program ≡ false)
          × (o'.loaded_program ≡ insert (record { addr = taddr; bytes = src }) o.loaded_program))
unfolding write_chunk
write_chunk-recorded bus taddr src o {o'} run =
    let (t, wrote, r) = >>=-eq-done (tsi_write_chunk bus taddr src o.tsi) _ run in
    elim (Bool-cases o.in_load_program) [
      | inl on ↦ elim (Bool-cases (any_conflict taddr (length src) o.loaded_program)) [
        | inl hit ↦ cc (rw (on, hit) at r)
        | inr free ↦ inr (
          on,
          free,
          sym (ap (λ (q : Loader _). q.loaded_program) (done-injective (rw (on, free) at r))),
        )
      ]
      | inr off ↦
          inl (off, sym (ap (λ (q : Loader _). q.loaded_program) (done-injective (rw off at r))))
    ]

-- Where a write of at least a byte inside the address space returns, recorded chunks that were
-- in order and apart still are.
pub write_chunk-IsLayout :
    {S : Type 0} (bus : Bus S) (taddr : ℕ) (src : List ℕ) (o : Loader S) {o' : Loader S}
    → 0 < length src
    → taddr + length src < 2 ^ 64
    → IsLayout o.loaded_program
    → write_chunk bus taddr src o ≡ done o'
    → IsLayout o'.loaded_program
write_chunk-IsLayout bus taddr src o {o'} pos fits l run =
    elim (write_chunk-recorded bus taddr src o run) [
      | inl same ↦ rw same.1 l
      | inr r ↦ rw r.2 (
          insert-IsLayout (record { addr = taddr; bytes = src }) o.loaded_program (pos, fits) l r.1)
    ]

-- `c` and `d` share no address.
abbrev pub IsApart : Chunk → Chunk → Type 0
IsApart c d = (chunk_end d ≤ c.addr) ⊎ (chunk_end c ≤ d.addr)

pub any_conflict-IsApart :
    (c : Chunk) (cs : List Chunk)
    → IsExtent c
    → IsLayout cs
    → All (IsApart c) cs
    → any_conflict c.addr (length c.bytes) cs ≡ false
unfolding any_conflict conflict
any_conflict-IsApart c [] ext k h = refl
any_conflict-IsApart c (d ∷ ds) ext k h = ground (arith, any_conflict-IsApart c ds ext k.2 h.1)

IsApart-any_conflict :
    (c : Chunk) (cs : List Chunk)
    → IsExtent c
    → IsLayout cs
    → any_conflict c.addr (length c.bytes) cs ≡ false
    → All (IsApart c) cs
unfolding any_conflict
IsApart-any_conflict c [] ext k h = tt
IsApart-any_conflict c (d ∷ ds) ext k h =
    let f =
      or_false (conflict c.addr (length c.bytes) d) (any_conflict c.addr (length c.bytes) ds) h in
    (
      elim (apart c d ext k.0 f.0) [ inl before ↦ inr before.1 | inr past ↦ inl past.1 ],
      IsApart-any_conflict c ds ext k.2 f.1,
    )

-- With the recorded chunks in order and apart, a chunk of at least a byte that ends inside the
-- address space either shares no address with a recorded chunk and is recorded, or shares one
-- and ends the program with status 1.
pub record_chunk-conflict :
    {S : Type 0} (bus : Bus S) (c : Chunk) (o : Loader S)
    → IsExtent c
    → IsLayout o.loaded_program
    → (All (IsApart c) o.loaded_program
        × (record_chunk bus c.addr c.bytes o
            ≡ done (record o { loaded_program = insert c o.loaded_program })))
      ⊎ ((¬ All (IsApart c) o.loaded_program)
          × (record_chunk bus c.addr c.bytes o ≡ stop (exited 1)))
unfolding record_chunk
record_chunk-conflict bus c o ext l =
    elim (Bool-cases (any_conflict c.addr (length c.bytes) o.loaded_program)) [
      | inl hit ↦
          inr (λ h. (cc (hit, any_conflict-IsApart c o.loaded_program ext l h)), rw hit refl)
      | inr free ↦ inl (IsApart-any_conflict c o.loaded_program ext l free, rw free refl)
    ]
