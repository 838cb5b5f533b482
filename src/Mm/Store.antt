-- ===== src/Mm/Store.antt =====
-- A write burst of csrc/mm.cc, from its address to its response.
use uart_tsi.Base.{
  ℕ, suc, ◌+◌, ◌*◌, ◌/◌, ◌%◌, ◌^◌, ◌≤◌, ◌<◌, ◌≡◌, refl, ap, ◌∙◌, Bool, true, false, ◌&&◌, not, List,
  [], ◌∷◌, ◌++◌, ltb, ◌==◌, arith, add64, sub64, length, is_empty, Run, done, ◌>>=◌,
}
use uart_tsi.Mm.{Mm, Magic, Axi, lane, store_lanes, write, tick, aw_step, w_step, finish, end_step}

-- One tick after the other.
abbrev pub run_ticks : List Axi → Magic → Run Magic
run_ticks [] g = done g
run_ticks (i ∷ is) g = tick i g >>= run_ticks is

abbrev quiet_bus : Axi
quiet_bus = record {
  reset = false;
  ar_valid = false;
  ar_addr = 0;
  ar_id = 0;
  ar_len = 0;
  aw_valid = false;
  aw_addr = 0;
  aw_id = 0;
  aw_size = 0;
  aw_len = 0;
  w_valid = false;
  w_strb = 0;
  w_data = λ i. 0;
  w_last = false;
  r_ready = false;
  b_ready = false;
}

-- The inputs of a burst with eight bytes a beat: the request, and a beat for each piece of data.
abbrev pub request : ℕ → ℕ → ℕ → Axi
request addr id len = record quiet_bus {
  aw_valid = true;
  aw_addr = addr;
  aw_id = id;
  aw_size = 3;
  aw_len = len;
}

abbrev pub beat : ℕ → (ℕ → ℕ) → Bool → Axi
beat strb data_ last = record quiet_bus {
  w_valid = true;
  w_strb = strb;
  w_data = data_;
  w_last = last;
}

abbrev pub beats : ℕ → List (ℕ → ℕ) → List Axi
beats strb [] = []
beats strb (d ∷ ds) = beat strb d (is_empty ds) ∷ beats strb ds

and_false : (b : Bool) → (b && false) ≡ false
and_false true = refl
and_false false = refl

-- A whole word in the memory can be written.
write-done :
    (faddr : ℕ) (src : ℕ → ℕ) (strb : ℕ) (m : Mm) (o : ℕ)
    → m.word_size ≡ 8
    → faddr ≡ m.mem_base + o
    → o % 8 ≡ 0
    → o + 8 ≤ m.mem_size
    → m.mem_base + m.mem_size < 2 ^ 64
    → (bytes : ℕ → ℕ) × (write faddr src strb 8 m ≡ done (record m { bytes = bytes }))
unfolding write
write-done faddr src strb m o ws at_ aligned fits room =
    let e : sub64 faddr m.mem_base ≡ o = omega arith in
    let in_mem : ltb o m.mem_size ≡ true = ground arith in
    let k : o % 8 ≡ 0 = aligned in
    let whole : ltb m.mem_size (o / 8 * 8 + 8) ≡ false = ground arith in
    (
      store_lanes (lane strb 8 (o % 8)) src (o / 8 * 8) 8 0 m.bytes,
      rw (e, ws, in_mem, aligned, whole) refl,
    )

-- A store of `n` beats of eight bytes that goes on at the offset `o`.
abbrev pub IsStoring : Magic → ℕ → ℕ → Type 0
IsStoring g o n =
    (g.store_inflight ≡ true)
    × (g.store_count ≡ n)
    × (g.store_size ≡ 8)
    × (g.store_addr ≡ g.mm.mem_base + o)
    × (g.mm.word_size ≡ 8)
    × (o % 8 ≡ 0)
    × (o + 8 * n ≤ g.mm.mem_size)
    × (g.mm.mem_base + g.mm.mem_size < 2 ^ 64)
    × (n < 2 ^ 64)

-- Where a store has ended, with its response behind those of before.
abbrev pub IsStored : Magic → Magic → Type 0
IsStored g g' = (g'.store_inflight ≡ false) × (g'.bresp ≡ g.bresp ++ g.store_id ∷ [])

tick-beat_more :
    (strb : ℕ) (d : ℕ → ℕ) (g : Magic) (o k : ℕ)
    → IsStoring g o (suc (suc k))
    → (g' : Magic) × (tick (beat strb d false) g ≡ done g')
      × IsStoring g' (o + 8) (suc k)
      × (g'.bresp ≡ g.bresp)
      × (g'.store_id ≡ g.store_id)
unfolding tick w_step finish end_step
tick-beat_more strb d g o k (fly, count, size, at_, ws, aligned, fits, room, small) =
    let (bytes, wrote) = write-done g.store_addr d strb g.mm o ws at_ aligned (omega arith) room in
    let next : sub64 (suc (suc k)) 1 ≡ suc k = omega arith in
    let past : add64 g.store_addr 8 ≡ g.mm.mem_base + (o + 8) = omega arith in
    let more : (suc k == 0) ≡ false = ground arith in
    (
      record g {
        mm = record (g.mm) { bytes = bytes };
        store_addr = add64 g.store_addr 8;
        store_count = suc k;
        cycle = add64 g.cycle 1;
      },
      rw
          (
            fly,
            size,
            wrote,
            count,
            next,
            more,
            and_false (not (is_empty g.bresp)),
            and_false (not (is_empty g.rresp)),
          )
          refl,
      (fly, refl, size, past, ws, omega arith, omega arith, room, omega arith),
      refl,
      refl,
    )

tick-beat_last :
    (strb : ℕ) (d : ℕ → ℕ) (g : Magic) (o : ℕ)
    → IsStoring g o 1
    → (g' : Magic) × (tick (beat strb d true) g ≡ done g') × IsStored g g'
unfolding tick w_step finish end_step
tick-beat_last strb d g o (fly, count, size, at_, ws, aligned, fits, room, small) =
    let (bytes, wrote) = write-done g.store_addr d strb g.mm o ws at_ aligned (omega arith) room in
    (
      record g {
        mm = record (g.mm) { bytes = bytes };
        store_addr = add64 g.store_addr 8;
        store_count = 0;
        store_inflight = false;
        bresp = g.bresp ++ g.store_id ∷ [];
        cycle = add64 g.cycle 1;
      },
      rw
          (
            fly,
            size,
            wrote,
            count,
            and_false (not (is_empty g.bresp)),
            and_false (not (is_empty g.rresp)),
          )
          refl,
      (refl, refl),
    )

run_ticks-beats :
    (strb : ℕ) (d : ℕ → ℕ) (ds : List (ℕ → ℕ)) (g : Magic) (o : ℕ)
    → IsStoring g o (suc (length ds))
    → (g' : Magic) × (run_ticks (beats strb (d ∷ ds)) g ≡ done g') × IsStored g g'
run_ticks-beats strb d [] g o storing =
    let (g', e, stored) = tick-beat_last strb d g o storing in (g', rw e refl, stored)
run_ticks-beats strb d (d' ∷ ds) g o storing =
    let (g₁, e, storing₁, b, i) = tick-beat_more strb d g o (length ds) storing in
    let (g', e', (off, answered)) = run_ticks-beats strb d' ds g₁ (o + 8) storing₁ in
    (
      g',
      rw e e',
      (
        off,
        answered
            ∙ ap (λ (l : List ℕ). l ++ g₁.store_id ∷ []) b
            ∙ ap (λ (n : ℕ). g.bresp ++ n ∷ []) i,
      ),
    )

-- A write burst is answered: on a memory with words of eight bytes that ends below 2^64 and takes
-- no store at the time, a request for whole words of the memory and then a beat for each of them,
-- the last one marked, lead in as many ticks to a state with the response of the request behind
-- the earlier ones, in which the next store can be taken.
pub run_ticks-burst :
    (addr id strb : ℕ) (d : ℕ → ℕ) (ds : List (ℕ → ℕ)) (g : Magic) (o : ℕ)
    → g.store_inflight ≡ false
    → g.mm.word_size ≡ 8
    → addr ≡ g.mm.mem_base + o
    → o % 8 ≡ 0
    → o + 8 * suc (length ds) ≤ g.mm.mem_size
    → g.mm.mem_base + g.mm.mem_size < 2 ^ 64
    → (g' : Magic) × (run_ticks (request addr id (length ds) ∷ beats strb (d ∷ ds)) g ≡ done g')
      × (g'.bresp ≡ g.bresp ++ id ∷ [])
      × (g'.store_inflight ≡ false)
unfolding tick aw_step end_step
run_ticks-burst addr id strb d ds g o off ws at_ aligned fits room =
    let count : add64 (length ds) 1 ≡ suc (length ds) = omega arith in
    let g₁ : Magic = record g {
      store_addr = addr;
      store_id = id;
      store_count = add64 (length ds) 1;
      store_size = 8;
      store_inflight = true;
      cycle = add64 g.cycle 1;
    } in
    let asked : tick (request addr id (length ds)) g ≡ done g₁ =
      rw (off, and_false (not (is_empty g.bresp)), and_false (not (is_empty g.rresp))) refl in
    let (g', e, (stored, answered)) =
      run_ticks-beats strb d ds g₁ o
        (refl, count, refl, at_, ws, aligned, fits, room, omega arith) in
    (g', rw asked e, answered, stored)
