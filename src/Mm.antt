-- ===== src/Mm.antt =====
-- csrc/mm.h and csrc/mm.cc: a memory behind an AXI port that answers in the next cycle.
pub mod Lanes
pub mod Burst
pub mod Store
mod Tests
use uart_tsi.Base.{
  ℕ, zero, suc, ◌+◌, ◌-◌, ◌*◌, ◌/◌, ◌%◌, ◌^◌, Bool, true, false, ◌&&◌, ◌||◌, not, List, [], ◌∷◌,
  ◌++◌, if◌then◌else◌, ltb, leb, ◌==◌, add64, sub64, is_empty, Run, done, stop, aborted, undefined,
  ◌>>=◌,
}
use uart_tsi.Base.Memory.{bytes_at}

-- `mm_t`: `bytes`, its `data`, is a function from offsets to bytes.
pub record Mm : Type 0 where
  pub bytes : ℕ → ℕ
  pub mem_base : ℕ
  pub mem_size : ℕ
  pub word_size : ℕ

unfoldable pub bit : ℕ → ℕ → Bool
bit w zero = w % 2 == 1
bit w (suc i) = bit (w / 2) i

-- Bit `i` of `strb & (((1 << size) - 1) << k)`, or of `strb` itself where `size` is 64.
unfoldable pub lane : ℕ → ℕ → ℕ → ℕ → Bool
lane strb size k i = (size == 64 || (leb k i && ltb i (k + size))) && bit strb i

-- The loop over the bytes of a word, from byte `i` on with `n` to go.
unfoldable pub store_lanes : (ℕ → Bool) → (ℕ → ℕ) → ℕ → ℕ → ℕ → (ℕ → ℕ) → ℕ → ℕ
store_lanes enabled src base zero i mem = mem
store_lanes enabled src base (suc n) i mem =
    store_lanes enabled src base n (i + 1)
      (λ x. if enabled i && (x == base + i) then src i else mem x)

-- The mask is an `int`, and undefined where its highest bit would be past bit 30. So is a store
-- past the end.
unfoldable pub write : ℕ → (ℕ → ℕ) → ℕ → ℕ → Mm → Run Mm
write faddr src strb size m =
    let addr : ℕ = sub64 faddr m.mem_base in
    let k : ℕ = addr % m.word_size in
    let base : ℕ = addr / m.word_size * m.word_size in
    let mem = store_lanes (lane strb size k) src base m.word_size 0 m.bytes in
    if not (ltb addr m.mem_size) || not (leb size 64)
    then stop aborted
    else if not (size == 64) && ltb 31 (size + k)
    then stop undefined
    else if ltb m.mem_size (base + m.word_size)
    then stop undefined
    else done (record m { bytes = mem })

unfoldable pub read : ℕ → Mm → Run (List ℕ)
read faddr m =
    let addr : ℕ = sub64 faddr m.mem_base in
    if not (ltb addr m.mem_size)
    then stop aborted
    else if ltb m.mem_size (addr + m.word_size)
    then stop undefined
    else done (bytes_at m.bytes addr m.word_size)

-- `mm_rresp_t`
pub record Rresp : Type 0 where
  pub id : ℕ
  pub word : List ℕ
  pub last : Bool

-- `mm_magic_t`
pub record Magic : Type 0 where
  pub mm : Mm
  pub store_inflight : Bool
  pub store_addr : ℕ
  pub store_id : ℕ
  pub store_size : ℕ
  pub store_count : ℕ
  pub bresp : List ℕ
  pub rresp : List Rresp
  pub cycle : ℕ

-- The inputs of `tick`.
pub record Axi : Type 0 where
  pub reset : Bool
  pub ar_valid : Bool
  pub ar_addr : ℕ
  pub ar_id : ℕ
  pub ar_len : ℕ
  pub aw_valid : Bool
  pub aw_addr : ℕ
  pub aw_id : ℕ
  pub aw_size : ℕ
  pub aw_len : ℕ
  pub w_valid : Bool
  pub w_strb : ℕ
  pub w_data : ℕ → ℕ
  pub w_last : Bool
  pub r_ready : Bool
  pub b_ready : Bool

abbrev pub aw_ready : Magic → Bool
aw_ready g = not g.store_inflight

abbrev pub w_ready : Magic → Bool
w_ready g = g.store_inflight

abbrev pub b_valid : Magic → Bool
b_valid g = not (is_empty g.bresp)

abbrev pub r_valid : Magic → Bool
r_valid g = not (is_empty g.rresp)

-- The loop over the beats of a read, from `addr` on with `n` more after the next.
unfoldable pub read_beats : ℕ → ℕ → ℕ → Mm → Run (List Rresp)
read_beats zero addr id m = do
  dat ← read addr m
  done (record { id = id; word = dat; last = true } ∷ [])
read_beats (suc n) addr id m = do
  dat ← read addr m
  beats ← read_beats n (add64 addr m.word_size) id m
  done (record { id = id; word = dat; last = false } ∷ beats)

unfoldable pub ar_step : Axi → Magic → Run Magic
unfolding read_beats
ar_step i g = do
  beats ← read_beats i.ar_len (i.ar_addr / g.mm.word_size * g.mm.word_size) i.ar_id g.mm
  done (record g { rresp = g.rresp ++ beats })

unfoldable pub aw_step : Axi → Magic → Run Magic
aw_step i g =
    if ltb 30 i.aw_size
    then stop undefined
    else done (record g {
      store_addr = i.aw_addr;
      store_id = i.aw_id;
      store_count = add64 i.aw_len 1;
      store_size = 2 ^ i.aw_size;
      store_inflight = true;
    })

-- `if (store_count == 0)`
unfoldable pub finish : Bool → Magic → Run Magic
finish last g =
    let over =
      (if last
        then done (record g { store_inflight = false; bresp = g.bresp ++ g.store_id ∷ [] })
        else stop aborted) in
    if g.store_count == 0 then over else done g

unfoldable pub w_step : Axi → Magic → Run Magic
unfolding finish
w_step i g = do
  m ← write g.store_addr i.w_data i.w_strb g.store_size g.mm
  finish i.w_last (record g {
    mm = m;
    store_addr = add64 g.store_addr g.store_size;
    store_count = sub64 g.store_count 1;
  })

unfoldable pub pop {ℓ} : {A : Type ℓ} → List A → List A
pop [] = []
pop (x ∷ xs) = xs

unfoldable pub end_step : Bool → Bool → Bool → Magic → Magic
unfolding pop
end_step reset b_fire r_fire g =
    let b = if b_fire then pop g.bresp else g.bresp in
    let r = if r_fire then pop g.rresp else g.rresp in
    if reset
    then record g { bresp = []; rresp = []; cycle = 0 }
    else record g { bresp = b; rresp = r; cycle = add64 g.cycle 1 }

-- All the handshakes are of the state before the tick.
unfoldable pub tick : Axi → Magic → Run Magic
unfolding end_step
tick i g = do
  g₁ ← (if not i.reset && i.ar_valid then ar_step i g else done g)
  g₂ ← (if not i.reset && i.aw_valid && aw_ready g then aw_step i g₁ else done g₁)
  g₃ ← (if not i.reset && i.w_valid && w_ready g then w_step i g₂ else done g₂)
  let b_fire = not i.reset && b_valid g && i.b_ready
  let r_fire = not i.reset && r_valid g && i.r_ready
  done (end_step i.reset b_fire r_fire g₃)
