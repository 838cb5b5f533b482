-- ===== src/Simdram/Shared.antt =====
-- Channels of the same chip and base share their memory.
use uart_tsi.Base.{
  ℕ, ◌+◌, ◌-◌, ◌<◌, ◌≡◌, refl, ap, sym, ◌∙◌, true, Option, none, some, List, [], ◌∷◌, ◌++◌,
  if◌then◌else◌, ◌==◌, length, length-append, length-replicate, length-set, get_elem?,
  get_elem?-set_self, set, replicate, arith, append-nil, set-set_self, Bool-cases, inl, inr,
  is_empty, done, stop, aborted, check, check-done, >>=-eq-done, done-injective,
}
use mathlib.Core.Path.{subst}
use uart_tsi.Base.Text.{Text}
use uart_tsi.Simdram.{
  Backing, Memories, parse_memory_args, grow, parse_memory_arg, find_backing, load_segments,
  backing_for, chip_at, memory_init,
}

find_backing-append :
    (base : ℕ) (b : Backing) (m : List (ℕ × Backing))
    → find_backing base m ≡ none
    → find_backing base (m ++ (base, b) ∷ []) ≡ some b
find_backing-append base b [] h = let e : (base == base) ≡ true = ground arith in rw e refl
find_backing-append base b ((k, d) ∷ m) h = elim (Bool-cases (k == base)) [
  | inl e ↦ let no_ : some d ≡ none = rw e at h in cc
  | inr e ↦ rw e (find_backing-append base b m (rw e at h))
]

-- After a memory is found or made, it is in the chip's map.
backing_for-found :
    (elf : Text → List (ℕ × List ℕ)) (file : Text) (base size : ℕ) (chip : List (ℕ × Backing))
    (o : Option Backing) {b : Backing} {chip' : List (ℕ × Backing)}
    → find_backing base chip ≡ o
    → backing_for elf file base size chip o ≡ done (b, chip')
    → (find_backing base chip' ≡ some b) × (b.size ≡ size)
unfolding backing_for
backing_for-found elf file base size chip (some d) e h =
    let (u, e₀, h₀) = >>=-eq-done (check (d.size == size) aborted) _ h in
    subst (λ r. (find_backing base r.1 ≡ some r.0) × (r.0.size ≡ size)) (done-injective h₀)
      (e, ground (arith, check-done (d.size == size) aborted e₀))
backing_for-found elf file base size chip none e h =
    let (bytes, e₀, h₀) =
      >>=-eq-done (load_segments base size (if is_empty file then [] else elf file) (λ x. 0)) _ h in
    subst (λ r. (find_backing base r.1 ≡ some r.0) × (r.0.size ≡ size)) (done-injective h₀)
      (find_backing-append base _ chip e, refl)

parse_memory_args-backing :
    (args : List Text) (m : Memories) → (parse_memory_args args m).backing ≡ m.backing
unfolding parse_memory_args parse_memory_arg
parse_memory_args-backing [] m = refl
parse_memory_args-backing (arg ∷ args) m = parse_memory_args-backing args (parse_memory_arg arg m)

grow-ge :
    (chip_id : ℕ) (backing : List (List (ℕ × Backing)))
    → chip_id < length backing
    → grow chip_id backing ≡ backing
unfolding grow
grow-ge chip_id backing lt =
    let none_ : chip_id + 1 - length backing ≡ 0 = omega arith in
    ap (λ (n : ℕ). backing ++ replicate n []) none_ ∙ append-nil backing

length-grow :
    (chip_id : ℕ) (backing : List (List (ℕ × Backing))) → chip_id < length (grow chip_id backing)
unfolding grow
length-grow chip_id backing = omega (
  arith,
  length-append backing (replicate (chip_id + 1 - length backing) []),
  length-replicate {A = List (ℕ × Backing)} (chip_id + 1 - length backing) [],
)

-- What a call leaves for the next one of the same chip and base.
abbrev IsShared : ℕ → ℕ → Backing → Memories → Type 0
IsShared chip_id base b m =
    (c : List (ℕ × Backing)) × (chip_id < length m.backing)
    × (get_elem? m.backing chip_id ≡ some c)
    × (find_backing base c ≡ some b)
    × (set m.backing chip_id c ≡ m.backing)

memory_init-IsShared :
    (elf : Text → List (ℕ × List ℕ)) (args : List Text) (chip_id size base : ℕ) (m : Memories)
    {b : Backing} {m' : Memories}
    → memory_init elf args chip_id size base m ≡ done (b, m')
    → IsShared chip_id base b m' × (b.size ≡ size)
unfolding memory_init
memory_init-IsShared elf args chip_id size base m h =
    let m₁ = parse_memory_args args m in
    let backing = grow chip_id m₁.backing in
    let chip = chip_at chip_id backing in
    let ((b, chip'), e, h₀) =
      >>=-eq-done (backing_for elf m₁.loadmem_file base size chip (find_backing base chip)) _ h in
    let (found, same) =
      backing_for-found elf m₁.loadmem_file base size chip (find_backing base chip) refl e in
    let lt : chip_id < length backing = length-grow chip_id m₁.backing in
    subst (λ r. IsShared chip_id base r.0 r.1 × (r.0.size ≡ size)) (done-injective h₀)
      (
        (
          chip',
          omega (arith, length-set backing chip_id chip', lt),
          get_elem?-set_self backing chip_id chip' lt,
          found,
          set-set_self backing chip_id chip' chip',
        ),
        same,
      )

chip_at-some :
    (chip_id : ℕ) (backing : List (List (ℕ × Backing))) {c : List (ℕ × Backing)}
    → get_elem? backing chip_id ≡ some c
    → chip_at chip_id backing ≡ c
unfolding chip_at
chip_at-some chip_id backing e = rw (chip_at, e) refl

-- Once a memory has been made, a call for the same chip and base, with whatever arguments, gives
-- the same memory and loads nothing if it asks for the same size, and aborts otherwise.
pub memory_init-again :
    (elf : Text → List (ℕ × List ℕ)) (args args' : List Text) (chip_id size size' base : ℕ)
    (m : Memories) {b : Backing} {m' : Memories}
    → memory_init elf args chip_id size base m ≡ done (b, m')
    → memory_init elf args' chip_id size' base m'
      ≡ (if size == size' then done (b, parse_memory_args args' m') else stop aborted)
unfolding memory_init backing_for
memory_init-again elf args args' chip_id size size' base m {b} {m'} h =
    let ((c, lt, at_, found, kept), same) = memory_init-IsShared elf args chip_id size base m h in
    let parsed : (parse_memory_args args' m').backing ≡ m'.backing =
      parse_memory_args-backing args' m' in
    let grown : grow chip_id m'.backing ≡ m'.backing = grow-ge chip_id m'.backing lt in
    let here : chip_at chip_id m'.backing ≡ c = chip_at-some chip_id m'.backing at_ in
    let p : Memories = parse_memory_args args' m' in
    let whole : done (b, record p { backing = m'.backing }) ≡ done (b, p) =
      ap (λ (l : List (List (ℕ × Backing))). done (b, record p { backing = l })) (sym parsed) in
    elim (Bool-cases (size == size')) [
      | inl e ↦ rw (e, parsed, grown, here, found, ap (λ (n : ℕ). n == size') same ∙ e, kept) whole
      | inr e ↦ rw (e, parsed, grown, here, found, ap (λ (n : ℕ). n == size') same ∙ e) refl
    ]
