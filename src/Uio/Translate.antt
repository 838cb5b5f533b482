-- ===== src/Uio/Translate.antt =====
-- Which addresses are accepted, and where they lead.
use uart_tsi.Base.{ℕ, ◌+◌, ◌-◌, ◌^◌, ◌≤◌, ◌<◌, ◌≡◌, ◌↔◌, inl, inr, Bool-cases, true, arith}
use uart_tsi.Uio.{
  Uio, in_bootrom, in_clint, uio_bootrom_offset, uio_clint_offset, rocket_bootrom_base,
  rocket_clint_base, rocket_dram_base, rocket_addr_to_uio_offset, is_valid_address,
}

-- The three windows of the target, each with where it starts in the device and how far it goes.
pub data Window : Type 0 where
  bootrom clint dram : Window

abbrev pub base_of : Window → ℕ
base_of bootrom = rocket_bootrom_base
base_of clint = rocket_clint_base
base_of dram = rocket_dram_base

abbrev pub offset_of : Window → ℕ
offset_of bootrom = uio_bootrom_offset
offset_of clint = uio_clint_offset
offset_of dram = 0

abbrev pub size_of : Uio → Window → ℕ
size_of u bootrom = 0x2000
size_of u clint = 0x10000
size_of u dram = u.dram_size

-- The access lies in one window, and its image in the mapping.
pub record Lies (u : Uio) (a len : ℕ) (w : Window) : Type 0 where
  pub above : base_of w ≤ a
  pub within : a + len ≤ base_of w + size_of u w
  pub mapped : offset_of w + (a - base_of w) + len ≤ u.uio_size

-- An access of at least a byte and less than 2^31.
abbrev pub IsSmall : ℕ → ℕ → Type 0
IsSmall a len = (a < 2 ^ 64) × (len < 2 ^ 31) × (0 < len)

pub is_valid_address-Lies :
    (u : Uio) (a len : ℕ)
    → IsSmall a len
    → is_valid_address u a len ≡ true
    → (w : Window) × Lies u a len w × (rocket_addr_to_uio_offset a ≡ offset_of w + (a - base_of w))
unfolding is_valid_address rocket_addr_to_uio_offset
is_valid_address-Lies u a len small valid = elim (Bool-cases (in_bootrom a)) [
  | inl rom ↦ (bootrom, ground arith, ground arith)
  | inr not_rom ↦ elim (Bool-cases (in_clint a)) [
    | inl int ↦ (clint, ground arith, ground arith)
    | inr not_int ↦ (dram, ground arith, ground arith)
  ]
]

pub Lies-is_valid_address :
    (u : Uio) (a len : ℕ) (w : Window)
    → IsSmall a len
    → Lies u a len w
    → is_valid_address u a len ≡ true
unfolding is_valid_address rocket_addr_to_uio_offset
Lies-is_valid_address u a len bootrom small l = ground arith
Lies-is_valid_address u a len clint small l = ground arith
Lies-is_valid_address u a len dram small l = ground arith

-- An access of at least a byte and less than 2^31 is accepted exactly when it lies in the boot
-- ROM's, the CLINT's or DRAM's window and its image is inside the mapping.
pub is_valid_address_iff :
    (u : Uio) (a len : ℕ)
    → IsSmall a len
    → (is_valid_address u a len ≡ true) ↔ ((w : Window) × Lies u a len w)
is_valid_address_iff u a len small = (
  λ h. let (w, l, e) = is_valid_address-Lies u a len small h in (w, l),
  λ h. Lies-is_valid_address u a len h.0 small h.1,
)

-- Two accepted addresses that lead to the same byte of the mapping are the same address, where
-- DRAM is no larger than the space below the boot ROM's image.
pub rocket_addr_to_uio_offset-injective :
    (u : Uio) (a b : ℕ)
    → IsSmall a 1
    → IsSmall b 1
    → u.dram_size ≤ uio_bootrom_offset
    → is_valid_address u a 1 ≡ true
    → is_valid_address u b 1 ≡ true
    → rocket_addr_to_uio_offset a ≡ rocket_addr_to_uio_offset b
    → a ≡ b
unfolding is_valid_address rocket_addr_to_uio_offset
rocket_addr_to_uio_offset-injective u a b sa sb small va vb same = ground arith

-- With the default mapping of 1 GB, an access of at least a byte and less than 2^31 that begins
-- in the 64 KB of the CLINT is accepted exactly when it ends within their first 8 KB.
pub clint_reach :
    (u : Uio) (a len : ℕ)
    → u.uio_size ≡ 0x40000000
    → 0 < len
    → len < 2 ^ 31
    → rocket_clint_base ≤ a
    → a < rocket_clint_base + 0x10000
    → (is_valid_address u a len ≡ true) ↔ (a + len ≤ rocket_clint_base + 0x2000)
unfolding is_valid_address rocket_addr_to_uio_offset
clint_reach u a len size pos small lo hi = (λ h. ground arith, λ h. ground arith)
