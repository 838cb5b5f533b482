-- ===== src/Tsi/Lines.antt =====
-- The cache lines that a range of addresses touches.
use uart_tsi.Base.{
  ℕ, zero, suc, ◌+◌, ◌-◌, ◌*◌, ◌/◌, ◌%◌, ◌≤◌, ◌<◌, ◌≡◌, ap, ◌∙◌, List, [], ◌∷◌, some, get_elem?,
  arith,
}
use uart_tsi.Tsi.{line_of}

-- `n` lines from `base`
abbrev pub lines_from : ℕ → ℕ → List ℕ
lines_from zero base = []
lines_from (suc n) base = base ∷ lines_from n (base + 64)

abbrev pub line_count : ℕ → ℕ → ℕ
line_count taddr nbytes = (taddr % 64 + nbytes + 63) / 64

abbrev pub cache_lines : ℕ → ℕ → List ℕ
cache_lines taddr nbytes = lines_from (line_count taddr nbytes) (line_of taddr)

pub get_elem?-lines_from :
    (n i base : ℕ) → i < n → get_elem? (lines_from n base) i ≡ some (base + 64 * i)
get_elem?-lines_from zero i base h = absurd (omega arith)
get_elem?-lines_from (suc n) zero base h = ap some (omega arith)
get_elem?-lines_from (suc n) (suc i) base h =
    get_elem?-lines_from n i (base + 64) (omega arith) ∙ ap some (omega arith)

-- For an address in a range, the line that `base & ~63` gives for it is among the lines flushed
-- for the range, at the place of its distance from the first.
pub cache_lines_cover :
    (taddr nbytes a : ℕ)
    → taddr ≤ a
    → a < taddr + nbytes
    → get_elem? (cache_lines taddr nbytes) ((a - line_of taddr) / 64) ≡ some (line_of a)
cache_lines_cover taddr nbytes a lo hi =
    get_elem?-lines_from (line_count taddr nbytes) ((a - line_of taddr) / 64) (line_of taddr)
      (omega arith)
    ∙ ap some (omega arith)
