-- ===== src/Mm/Burst.antt =====
-- A read burst, and a write burst from its address to its response.
use uart_tsi.Base.{
  ℕ, zero, suc, ◌+◌, ◌-◌, ◌*◌, ◌/◌, ◌^◌, ◌≤◌, ◌<◌, ◌≡◌, refl, ap, ◌∙◌, Bool, true, false, ◌&&◌, not,
  List, [], ◌∷◌, ◌++◌, if◌then◌else◌, ltb, ◌==◌, arith, add64, sub64, Bool-cases, inl, inr, Run,
  done, stop, undefined, aborted, ◌>>=◌, ◌⊎◌,
}
use uart_tsi.Base.Memory.{bytes_at}
use mathlib.Core.Path.{subst}
use uart_tsi.Mm.{
  Mm, Rresp, Magic, Axi, read, read_beats, tick, ar_step, aw_step, w_step, finish, end_step, write,
}

-- The beats of a read of `n` words from the offset `off` on: consecutive words, the last one marked.
abbrev pub words_at : ℕ → ℕ → ℕ → Mm → List Rresp
words_at zero off id m =
    record { id = id; word = bytes_at m.bytes off m.word_size; last = true } ∷ []
words_at (suc n) off id m =
    record { id = id; word = bytes_at m.bytes off m.word_size; last = false }
    ∷ words_at n (off + m.word_size) id m

read_lem :
    (addr : ℕ) (m : Mm)
    → m.mem_base ≤ addr
    → addr - m.mem_base < m.mem_size
    → addr - m.mem_base + m.word_size ≤ m.mem_size
    → m.mem_base + m.mem_size < 2 ^ 64
    → read addr m ≡ done (bytes_at m.bytes (addr - m.mem_base) m.word_size)
unfolding read
read_lem addr m lo lt fits room = ground arith

-- On a memory with words of at least a byte that ends below 2^64: a read of `n + 1` words, all
-- of them in the memory, from `addr` on returns them in order, under the identifier of the
-- request and with only the last of them marked so.
pub read_beats_lem :
    (n addr id : ℕ) (m : Mm)
    → m.mem_base ≤ addr
    → 0 < m.word_size
    → addr - m.mem_base + (n + 1) * m.word_size ≤ m.mem_size
    → m.mem_base + m.mem_size < 2 ^ 64
    → read_beats n addr id m ≡ done (words_at n (addr - m.mem_base) id m)
unfolding read_beats
read_beats_lem zero addr id m lo pos fits room =
    rw (read_lem addr m lo (grind arith) (grind arith) room) refl
read_beats_lem (suc n) addr id m lo pos fits room =
    let next : add64 addr m.word_size ≡ addr + m.word_size = grind arith in
    let moved : addr + m.word_size - m.mem_base ≡ addr - m.mem_base + m.word_size = omega arith in
    let rest : read_beats n (addr + m.word_size) id m
        ≡ done (words_at n (addr - m.mem_base + m.word_size) id m) =
      read_beats_lem n (addr + m.word_size) id m (omega arith) pos (grind arith) room
      ∙ ap (λ (o : ℕ). done (words_at n o id m)) moved in
    rw (read_lem addr m lo (grind arith) (grind arith) room, next, rest) refl

-- No beat is wanted but while a store is in flight.
abbrev pub IsCounting : Magic → Type 0
IsCounting g = (g.store_inflight ≡ false) ⊎ ((0 < g.store_count) × (g.store_count < 2 ^ 64))

abbrev Counting : Run Magic → Type 0
Counting (done g) = IsCounting g
Counting (stop s) = Unit

Counting->>= :
    (m : Run Magic) (f : Magic → Run Magic)
    → Counting m
    → ((g : Magic) → IsCounting g → Counting (f g))
    → Counting (m >>= f)
Counting->>= (done g) f h k = k g h
Counting->>= (stop s) f h k = tt

Counting-after :
    {A : Type 0} (m : Run A) (f : A → Run Magic) → ((a : A) → Counting (f a)) → Counting (m >>= f)
Counting-after (done a) f k = k a
Counting-after (stop s) f k = tt

Counting-if :
    (c : Bool) (m m' : Run Magic) → Counting m → Counting m' → Counting (if c then m else m')
Counting-if true m m' h k = h
Counting-if false m m' h k = k

ar_step-Counting : (i : Axi) (g : Magic) → IsCounting g → Counting (ar_step i g)
unfolding ar_step
ar_step-Counting i g c =
    Counting-after (read_beats i.ar_len (i.ar_addr / g.mm.word_size * g.mm.word_size) i.ar_id g.mm)
      (λ beats. done (record g { rresp = g.rresp ++ beats })) (λ beats. c)

aw_step-Counting : (i : Axi) (g : Magic) → i.aw_len + 1 < 2 ^ 64 → Counting (aw_step i g)
unfolding aw_step
aw_step-Counting i g len =
    Counting-if (ltb 30 i.aw_size) (stop undefined) (done _) tt (inr (omega arith))

finish-Counting :
    (last : Bool) (g : Magic) (count : ℕ)
    → (g.store_inflight ≡ false) ⊎ ((0 < count) × (count < 2 ^ 64))
    → g.store_count ≡ sub64 count 1
    → Counting (finish last g)
unfolding finish
finish-Counting true g count (inl c) e =
    Counting-if (g.store_count == 0) (done _) (done g) (inl refl) (inl c)
finish-Counting false g count (inl c) e =
    Counting-if (g.store_count == 0) (stop aborted) (done g) tt (inl c)
finish-Counting last g count (inr c) e = elim (Bool-cases (g.store_count == 0)) [
  | inl zero_ ↦ rw zero_ (Counting-if last (done _) (stop aborted) (inl refl) tt)
  | inr more ↦ rw more (inr (ground (arith, c, e)))
]

w_step-Counting : (i : Axi) (g : Magic) → IsCounting g → Counting (w_step i g)
unfolding w_step
w_step-Counting i g c =
    Counting-after (write g.store_addr i.w_data i.w_strb g.store_size g.mm) _
      (λ m. finish-Counting i.w_last _ g.store_count c refl)

end_step-IsCounting : (r b q : Bool) (g : Magic) → IsCounting g → IsCounting (end_step r b q g)
unfolding end_step
end_step-IsCounting true b q g c = c
end_step-IsCounting false b q g c = c

tick-Counting : (i : Axi) (g : Magic) → i.aw_len + 1 < 2 ^ 64 → IsCounting g → Counting (tick i g)
unfolding tick
tick-Counting i g len c =
    Counting->>= _ _ (Counting-if (not i.reset && i.ar_valid) _ (done g) (ar_step-Counting i g c) c)
      (λ g₁ c₁.
        Counting->>= _ _
          (Counting-if (not i.reset && i.aw_valid && not g.store_inflight) _ (done g₁)
            (aw_step-Counting i g₁ len) c₁)
          (λ g₂ c₂.
            Counting->>= _ _
              (Counting-if (not i.reset && i.w_valid && g.store_inflight) _ (done g₂)
                (w_step-Counting i g₂ c₂) c₂)
              (λ g₃ c₃. end_step-IsCounting i.reset _ _ g₃ c₃)))

-- From a state with a beat wanted whenever a store is in flight, a tick that returns leads to
-- such a state, where a store's length that it takes, if any, is below 2^64 - 1. So the count of
-- a store's beats never goes below zero.
pub tick-IsCounting :
    (i : Axi) (g : Magic) {g' : Magic}
    → i.aw_len + 1 < 2 ^ 64
    → IsCounting g
    → tick i g ≡ done g'
    → IsCounting g'
tick-IsCounting i g {g'} len c run = subst Counting run (tick-Counting i g len c)
