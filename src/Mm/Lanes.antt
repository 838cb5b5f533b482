-- ===== src/Mm/Lanes.antt =====
-- A write changes exactly the bytes of its word that its size and strobe select.
use uart_tsi.Base.{
  ℕ, zero, suc, ◌+◌, ◌-◌, ◌*◌, ◌/◌, ◌%◌, ◌≤◌, ◌<◌, ◌≡◌, ap, ◌∙◌, Bool, true, false, ◌&&◌,
  if◌then◌else◌, ltb, leb, ◌==◌, arith, sub64, done,
}
use native.Mathlib.Decide.{ℕ_discrete}
use uart_tsi.Mm.{Mm, lane, store_lanes, write}

-- `x` is one of the `n` bytes from `a` on.
abbrev pub within : ℕ → ℕ → ℕ → Bool
within a n x = leb a x && ltb x (a + n)

store_lanes_lem :
    (enabled : ℕ → Bool) (src : ℕ → ℕ) (base n i : ℕ) (mem : ℕ → ℕ) (x : ℕ)
    → store_lanes enabled src base n i mem x
      ≡ (if within (base + i) n x && enabled (x - base) then src (x - base) else mem x)
unfolding store_lanes
store_lanes_lem enabled src base zero i mem x = ground arith
store_lanes_lem enabled src base (suc n) i mem x = elim (ℕ_discrete x (base + i)) [
  | yes e ↦
      let at_ : x - base ≡ i = omega arith in
      rw at_ (
        ground (
          arith,
          e,
          store_lanes_lem enabled src base n (i + 1)
              (λ y. if enabled i && (y == base + i) then src i else mem y) x,
        ))
  | no ne ↦ ground (
    arith,
    store_lanes_lem enabled src base n (i + 1)
        (λ y. if enabled i && (y == base + i) then src i else mem y) x,
  )
]

-- A write to an address of the memory, whose word lies wholly in it and whose mask, of `size`
-- bytes from the address's place in the word on, ends below bit 31, returns: the bytes of the
-- word that lie in the mask and have their strobe bit set are those of the data, and every other
-- byte is as it was.
pub write-bytes :
    (faddr : ℕ) (src : ℕ → ℕ) (strb size : ℕ) (m : Mm)
    → sub64 faddr m.mem_base < m.mem_size
    → sub64 faddr m.mem_base / m.word_size * m.word_size + m.word_size ≤ m.mem_size
    → size + sub64 faddr m.mem_base % m.word_size ≤ 31
    → let base : ℕ = sub64 faddr m.mem_base / m.word_size * m.word_size in
      let k : ℕ = sub64 faddr m.mem_base % m.word_size in
      (m' : Mm) × (write faddr src strb size m ≡ done m')
      × ((x : ℕ)
          → m'.bytes x ≡ (
              if within base m.word_size x && lane strb size k (x - base)
              then src (x - base)
              else m.bytes x))
unfolding write
write-bytes faddr src strb size m lt room mask =
    let addr : ℕ = sub64 faddr m.mem_base in
    let k : ℕ = addr % m.word_size in
    let base : ℕ = addr / m.word_size * m.word_size in
    let in_mem : ltb addr m.mem_size ≡ true = ground arith in
    let narrow : leb size 64 ≡ true = ground arith in
    let not_all : (size == 64) ≡ false = ground arith in
    let fits : ltb 31 (size + k) ≡ false = ground arith in
    let whole : ltb m.mem_size (base + m.word_size) ≡ false = ground arith in
    (
      record m { bytes = store_lanes (lane strb size k) src base m.word_size 0 m.bytes },
      rw (in_mem, narrow, not_all, fits, whole),
      λ x.
          store_lanes_lem (lane strb size k) src base m.word_size 0 m.bytes x
          ∙ ap
              (λ (b : ℕ).
                if within b m.word_size x && lane strb size k (x - base)
                then src (x - base)
                else m.bytes x)
              (omega arith),
    )
