-- ===== src/Uio/Access.antt =====
-- Reads, writes and clears through the mapping.
use uart_tsi.Base.{
  ℕ, zero, suc, ◌+◌, ◌-◌, ◌≤◌, ◌<◌, ◌≡◌, refl, ap, ◌∙◌, ◌⊎◌, inl, inr, true, List, [], ◌∷◌, arith,
  if◌then◌else◌, length, replicate, done, stop, threw, Bool-cases, le→leb,
}
use uart_tsi.Base.Memory.{bytes_at, overlay, bytes_at-overlay, overlay-before, overlay-past}
use uart_tsi.Uio.{
  Uio, uio_bootrom_offset, rocket_addr_to_uio_offset, is_valid_address, read_chunk, write_chunk,
  clear_chunk,
}
use uart_tsi.Uio.Translate.{
  IsSmall, Window, bootrom, clint, dram, Lies, base_of, offset_of, is_valid_address-Lies,
}

is_valid_address-le :
    (u : Uio) (a len : ℕ)
    → IsSmall a len
    → is_valid_address u a len ≡ true
    → rocket_addr_to_uio_offset a + len ≤ u.uio_size
is_valid_address-le u a len small valid =
    let (w, l, e) = is_valid_address-Lies u a len small valid in omega (arith, l.mapped, e)

length-replicate : (n : ℕ) → length (replicate {A = ℕ} n 0) ≡ n
length-replicate zero = refl
length-replicate (suc n) = ap suc (length-replicate n)

-- On a mapped device an access of at least a byte and less than 2^31 either is refused, and
-- throws, or is accepted, and is made wholly inside the mapping.
pub access_total :
    (u : Uio) (a len : ℕ) (src : List ℕ)
    → u.uio_base ≡ true
    → IsSmall a len
    → length src ≡ len
    → (read_chunk a len u ≡ (
        if is_valid_address u a len
        then done (bytes_at u.mem (rocket_addr_to_uio_offset a) len)
        else stop threw))
      × (write_chunk a src u ≡ (
          if is_valid_address u a len
          then done (record u { mem = overlay (rocket_addr_to_uio_offset a) src u.mem })
          else stop threw))
      × (clear_chunk a len u ≡ (
          if is_valid_address u a len
          then done
              (record u { mem = overlay (rocket_addr_to_uio_offset a) (replicate len 0) u.mem })
          else stop threw))
unfolding read_chunk write_chunk clear_chunk
access_total u a len src on small e = elim (Bool-cases (is_valid_address u a len)) [
  | inl valid ↦
      let fits =
        le→leb (rocket_addr_to_uio_offset a + len) u.uio_size
          (is_valid_address-le u a len small valid) in
      (rw (valid, on, fits), rw (e, valid, on, fits), rw (valid, on, length-replicate len, fits))
  | inr refused ↦ (rw refused, rw (e, refused), rw refused)
]

-- The images of two windows do not meet, and neither do those of bytes apart in one window.
Lies-apart :
    (u : Uio) (a len b : ℕ) (v w : Window)
    → Lies u a len v
    → Lies u b 1 w
    → u.dram_size ≤ uio_bootrom_offset
    → (b < a) ⊎ (a + len ≤ b)
    → (offset_of w + (b - base_of w) < offset_of v + (a - base_of v))
      ⊎ (offset_of v + (a - base_of v) + len ≤ offset_of w + (b - base_of w))
Lies-apart u a len b bootrom bootrom l k le (inl h) = inl (omega arith)
Lies-apart u a len b bootrom bootrom l k le (inr h) = inr (omega arith)
Lies-apart u a len b clint clint l k le (inl h) = inl (omega arith)
Lies-apart u a len b clint clint l k le (inr h) = inr (omega arith)
Lies-apart u a len b dram dram l k le (inl h) = inl (omega arith)
Lies-apart u a len b dram dram l k le (inr h) = inr (omega arith)
Lies-apart u a len b bootrom clint l k le h = inr (omega arith)
Lies-apart u a len b bootrom dram l k le h = inl (omega arith)
Lies-apart u a len b clint bootrom l k le h = inl (omega arith)
Lies-apart u a len b clint dram l k le h = inl (omega arith)
Lies-apart u a len b dram bootrom l k le h = inr (omega arith)
Lies-apart u a len b dram clint l k le h = inr (omega arith)

-- Bytes apart in the target's address space are apart in the mapping.
offset_apart :
    (u : Uio) (a len b : ℕ)
    → IsSmall a len
    → IsSmall b 1
    → u.dram_size ≤ uio_bootrom_offset
    → is_valid_address u a len ≡ true
    → is_valid_address u b 1 ≡ true
    → (b < a) ⊎ (a + len ≤ b)
    → (rocket_addr_to_uio_offset b < rocket_addr_to_uio_offset a)
      ⊎ (rocket_addr_to_uio_offset a + len ≤ rocket_addr_to_uio_offset b)
offset_apart u a len b sa sb le va vb away =
    let (v, l, e) = is_valid_address-Lies u a len sa va in
    let (w, k, f) = is_valid_address-Lies u b 1 sb vb in
    rw (e, f) (Lies-apart u a len b v w l k le away)

overlay-apart :
    (off : ℕ) (src : List ℕ) (mem : ℕ → ℕ) (x : ℕ)
    → (x < off) ⊎ (off + length src ≤ x)
    → overlay off src mem x ≡ mem x
overlay-apart off src mem x (inl h) = overlay-before src off x mem h
overlay-apart off src mem x (inr h) = overlay-past src off x mem h

-- On a mapped device whose DRAM ends below the boot ROM's image, an accepted write of at least a
-- byte and less than 2^31 returns, a read of the same range then gives what was written, and a
-- read of any other byte `b` that is accepted gives what it gave before.
pub write_chunk-read_chunk :
    (u : Uio) (a b : ℕ) (src : List ℕ)
    → u.uio_base ≡ true
    → u.dram_size ≤ uio_bootrom_offset
    → IsSmall a (length src)
    → is_valid_address u a (length src) ≡ true
    → IsSmall b 1
    → is_valid_address u b 1 ≡ true
    → (b < a) ⊎ (a + length src ≤ b)
    → (u' : Uio) × (write_chunk a src u ≡ done u')
      × (read_chunk a (length src) u' ≡ done src)
      × (read_chunk b 1 u' ≡ read_chunk b 1 u)
unfolding is_valid_address
write_chunk-read_chunk u a b src on le small valid sb vb away =
    let off : ℕ = rocket_addr_to_uio_offset a in
    let u' : Uio = record u { mem = overlay off src u.mem } in
    (
      u',
      (access_total u a (length src) src on small refl).1 ∙ rw valid refl,
      (access_total u' a (length src) src on small refl).0
          ∙ rw valid (ap done (bytes_at-overlay src off u.mem)),
      rw
          (
            (access_total u' b 1 (0 ∷ []) on sb refl).0,
            (access_total u b 1 (0 ∷ []) on sb refl).0,
            vb,
          )
          (ap (λ (x : ℕ). done (x ∷ []))
            (overlay-apart off src u.mem (rocket_addr_to_uio_offset b)
              (offset_apart u a (length src) b small sb le valid vb away))),
    )
