-- ===== src/Base/Words.antt =====
-- Machine words as numbers, with their wrap-around, and little-endian bytes.
use Prim.Native.Nat.{ℕ, zero, suc, ◌+◌, ◌-◌, ◌*◌, ◌/◌, ◌%◌, ◌^◌, ◌<◌}
use mathlib.Core.Path.{◌≡◌}
use mathlib.Core.List.{List, [], ◌∷◌}
use native.Mathlib.Omega.{arith}

-- `uint64_t` addition and subtraction
abbrev pub add64 : ℕ → ℕ → ℕ
add64 a b = (a + b) % 2 ^ 64

abbrev pub sub64 : ℕ → ℕ → ℕ
sub64 a b = (a + 2 ^ 64 - b) % 2 ^ 64

abbrev pub add32 : ℕ → ℕ → ℕ
add32 a b = (a + b) % 2 ^ 32

-- The four bytes of a `uint32_t` as a little-endian host stores them.
abbrev pub word_bytes : ℕ → List ℕ
word_bytes w = w % 256 ∷ w / 256 % 256 ∷ w / 65536 % 256 ∷ w / 16777216 % 256 ∷ []

-- The `uint32_t` that four such bytes store.
abbrev pub bytes_word : ℕ → ℕ → ℕ → ℕ → ℕ
bytes_word a b c d = a + 256 * b + 65536 * c + 16777216 * d

-- The first `n` bytes of a `uint64_t` in memory.
abbrev pub le_bytes : ℕ → ℕ → List ℕ
le_bytes zero v = []
le_bytes (suc n) v = v % 256 ∷ le_bytes n (v / 256)

pub bytes_word-word_bytes :
    (w : ℕ)
    → w < 2 ^ 32
    → bytes_word (w % 256) (w / 256 % 256) (w / 65536 % 256) (w / 16777216 % 256) ≡ w
bytes_word-word_bytes w h = omega arith
