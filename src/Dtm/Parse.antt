-- ===== src/Dtm/Parse.antt =====
-- The file of architectural state that `testchip_dtm_t::reset` of csrc/testchip_dtm.cc reads.
use uart_tsi.Base.{
  ℕ, zero, suc, ◌+◌, ◌/◌, ◌^◌, Bool, true, false, ◌&&◌, ◌||◌, not, Option, none, some, List, [],
  ◌∷◌, ◌++◌, if◌then◌else◌, leb, ◌==◌, length, drop, replicate, get_elem?, le_bytes, Run, done,
  stop, threw, undefined, aborted, check, ◌>>=◌, ◌>>◌,
}
use uart_tsi.Base.Text.{Text, codes, text_eq, find?, skip_space, digit_in, magnitude, strtoull}
use uart_tsi.Dtm.State.{LoadarchState}

-- `lines[id]`
unfoldable pub line_at : List Text → ℕ → Run Text
line_at lines id = elim (get_elem? lines id) [ none ↦ stop undefined | some s ↦ done s ]

abbrev pub is_digit : ℕ → Text → Bool
is_digit base [] = false
is_digit base (c ∷ s) = elim (digit_in base c) [ none ↦ false | some _ ↦ true ]

-- The text behind the sign, if any.
abbrev pub unsigned : Text → Text
unsigned [] = []
unsigned (c ∷ s) = if c == b'-' || c == b'+' then s else c ∷ s

-- `std::stoull` throws where `strtoull` finds no digit or a value past the range.
unfoldable pub stoull : ℕ → Text → Run ℕ
unfolding magnitude digit_in skip_space strtoull
stoull base s =
    let digits : Text = unsigned (skip_space s) in
    if not (is_digit (if base == 0 then 10 else base) digits)
    then stop threw
    else if leb (2 ^ 64) (magnitude base digits)
    then stop threw
    else done (strtoull base s)

unfoldable pub read_priv : Text → Run ℕ
unfolding text_eq
read_priv s =
    if text_eq (codes "U") s
    then done 0
    else if text_eq (codes "S") s
    then done 1
    else if text_eq (codes "M") s
    then done 3
    else stop aborted

-- `std::stoull(lines[id++], nullptr, 0)`, `n` times
unfoldable pub numbers : ℕ → List Text → ℕ → Run (List ℕ)
unfolding stoull line_at
numbers zero lines id = done []
numbers (suc n) lines id = do
  s ← line_at lines id
  w ← stoull 0 s
  ws ← numbers n lines (id + 1)
  done (w ∷ ws)

-- `std::stoull(lines[id++].substr(18), nullptr, 16)`, `n` times
unfoldable pub floats : ℕ → List Text → ℕ → Run (List ℕ)
unfolding stoull line_at
floats zero lines id = done []
floats (suc n) lines id = do
  s ← line_at lines id
  check (leb 18 (length s)) threw
  w ← stoull 16 (drop 18 s)
  ws ← floats n lines (id + 1)
  done (w ∷ ws)

-- `s.substr(s.find(p))`
unfoldable pub from_find : Text → Text → Run Text
unfolding find?
from_find p s = elim (find? p s) [ none ↦ stop threw | some i ↦ done (drop i s) ]

-- `s.substr(0, s.find(" "))`
unfoldable pub until_space : Text → Text
until_space [] = []
until_space (c ∷ s) = if c == 32 then [] else c ∷ until_space s

-- The loop over the elements of a vector register, the highest first, of `size` bytes each.
unfoldable pub elements : ℕ → ℕ → Text → Run (List ℕ)
unfolding stoull until_space from_find
elements zero size s = done []
elements (suc j) size s = do
  elem ← stoull 0 (until_space s)
  s' ← (if j == 0 then done s else from_find (codes "0x") (drop 2 s))
  lower ← elements j size s'
  done (lower ++ le_bytes size elem)

-- Division by an `ELEN` of zero is undefined, as are copies of more than the eight bytes of
-- `elem`. The bytes are those that the elements fill; where these are fewer than `VLEN / 8`, the
-- others are what `malloc` has left there and not listed.
unfoldable pub vector_reg : ℕ → ℕ → Text → Run (List ℕ)
unfolding elements from_find
vector_reg vlen elen s = do
  s' ← from_find (codes "0x") s
  check (not (elen == 0) && leb (elen / 8) 8) undefined
  elements (vlen / elen) (elen / 8) s'

unfoldable pub vector_regs : ℕ → ℕ → ℕ → List Text → ℕ → Run (List (List ℕ))
unfolding vector_reg line_at
vector_regs zero vlen elen lines id = done []
vector_regs (suc n) vlen elen lines id = do
  s ← line_at lines id
  bytes ← vector_reg vlen elen s
  rest ← vector_regs n vlen elen lines (id + 1)
  done (bytes ∷ rest)

-- `VLEN=` and `ELEN=` have five bytes.
unfoldable pub setting : Text → Text → Run ℕ
unfolding from_find until_space stoull
setting p s = do s' ← from_find p s; stoull 0 (drop 5 (until_space s'))

abbrev pub number_at : List ℕ → ℕ → ℕ
number_at ws k = elim (get_elem? ws k) [ none ↦ 0 | some w ↦ w ]

-- The members in the order of the file's lines, from `fcsr` on. The arrays and the vector part are
-- filled in by what follows.
unfoldable pub scalars : ℕ → ℕ → List ℕ → LoadarchState
scalars pc prv ws = record {
  pc = pc;
  prv = prv;
  fcsr = number_at ws 0;
  vstart = number_at ws 1;
  vxsat = number_at ws 2;
  vxrm = number_at ws 3;
  vcsr = number_at ws 4;
  vtype = number_at ws 5;
  stvec = number_at ws 6;
  sscratch = number_at ws 7;
  sepc = number_at ws 8;
  scause = number_at ws 9;
  stval = number_at ws 10;
  satp = number_at ws 11;
  mstatus = number_at ws 12;
  medeleg = number_at ws 13;
  mideleg = number_at ws 14;
  mie = number_at ws 15;
  mtvec = number_at ws 16;
  mscratch = number_at ws 17;
  mepc = number_at ws 18;
  mcause = number_at ws 19;
  mtval = number_at ws 20;
  mip = number_at ws 21;
  mcycle = number_at ws 22;
  minstret = number_at ws 23;
  mtime = number_at ws 24;
  mtimecmp = number_at ws 25;
  xpr = [];
  fpr = [];
  vlen = 0;
  elen = 0;
  vpr = replicate 32 [];
  has_vector = false;
}

-- The line `s` behind the registers, in which `VLEN` is found or not, and the vector registers
-- behind it.
unfoldable pub vector_part :
    List Text → ℕ → LoadarchState → Text → Option ℕ → Run (LoadarchState × ℕ)
unfolding setting vector_regs
vector_part lines id st s none = done (st, id + 1)
vector_part lines id st s (some _) = do
  vlen ← setting (codes "VLEN=") s
  elen ← setting (codes "ELEN=") s
  check (leb vlen 256) aborted
  vpr ← vector_regs 32 vlen elen lines (id + 1)
  done (record st { vlen = vlen; elen = elen; vpr = vpr; has_vector = true }, id + 33)

unfoldable pub parse_vector : List Text → ℕ → LoadarchState → Run (LoadarchState × ℕ)
unfolding line_at vector_part find?
parse_vector lines id st = do
  s ← line_at lines id
  vector_part lines id st s (find? (codes "VLEN") s)

unfoldable pub parse_scalars : List Text → ℕ → Run LoadarchState
unfolding line_at stoull read_priv numbers scalars
parse_scalars lines id = do
  s₀ ← line_at lines id
  pc ← stoull 0 s₀
  s₁ ← line_at lines (id + 1)
  prv ← read_priv s₁
  ws ← numbers 26 lines (id + 2)
  done (scalars pc prv ws)

unfoldable pub parse_arrays : List Text → ℕ → LoadarchState → Run LoadarchState
unfolding floats numbers
parse_arrays lines id st = do
  fpr ← floats 32 lines id
  xpr ← numbers 32 lines (id + 32)
  done (record st { fpr = fpr; xpr = xpr })

-- One round of the loop over the harts, as far as it reads the file.
unfoldable pub parse_hart : List Text → ℕ → Run (LoadarchState × ℕ)
unfolding parse_scalars parse_arrays parse_vector
parse_hart lines id = do
  st ← parse_scalars lines id
  st' ← parse_arrays lines (id + 28) st
  parse_vector lines (id + 92) st'
