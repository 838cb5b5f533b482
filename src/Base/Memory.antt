-- ===== src/Base/Memory.antt =====
-- Memory as a function from addresses to bytes: `memcpy` out of it and into it.
use Prim.Native.Nat.{ℕ, zero, suc, ◌+◌, ◌≤◌, ◌<◌}
use mathlib.Core.Path.{◌≡◌, refl, ap, ap₂, ◌∙◌}
use mathlib.Core.Logic.{◌⊎◌, inl, inr}
use mathlib.Core.List.{List, [], ◌∷◌, ◌++◌}
use native.Mathlib.Omega.{arith}
use uart_tsi.Base.Tests.{◌==◌, if◌then◌else◌}
use uart_tsi.Base.Lists.{length}

abbrev pub bytes_at : (ℕ → ℕ) → ℕ → ℕ → List ℕ
bytes_at mem a zero = []
bytes_at mem a (suc n) = mem a ∷ bytes_at mem (a + 1) n

-- Memory with `src` written at `a`.
abbrev pub overlay : ℕ → List ℕ → (ℕ → ℕ) → ℕ → ℕ
overlay a [] mem x = mem x
overlay a (b ∷ src) mem x = if x == a then b else overlay (a + 1) src mem x

pub overlay-before : (src : List ℕ) (a x : ℕ) (mem : ℕ → ℕ) → x < a → overlay a src mem x ≡ mem x
overlay-before [] a x mem h = refl
overlay-before (b ∷ src) a x mem h = ground (arith, overlay-before src (a + 1) x mem)

pub overlay-past :
    (src : List ℕ) (a x : ℕ) (mem : ℕ → ℕ) → a + length src ≤ x → overlay a src mem x ≡ mem x
overlay-past [] a x mem h = refl
overlay-past (b ∷ src) a x mem h = ground (arith, overlay-past src (a + 1) x mem)

pub bytes_at-congr :
    (n a : ℕ) (f g : ℕ → ℕ)
    → ((x : ℕ) → a ≤ x → x < a + n → f x ≡ g x)
    → bytes_at f a n ≡ bytes_at g a n
bytes_at-congr zero a f g h = refl
bytes_at-congr (suc n) a f g h =
    ap₂ ◌∷◌ (h a (omega arith) (omega arith))
      (bytes_at-congr n (a + 1) f g (λ x lo hi. h x (omega arith) (omega arith)))

-- What is written is read back.
pub bytes_at-overlay :
    (src : List ℕ) (a : ℕ) (mem : ℕ → ℕ) → bytes_at (overlay a src mem) a (length src) ≡ src
bytes_at-overlay [] a mem = refl
bytes_at-overlay (b ∷ src) a mem = ap₂ ◌∷◌ (ground arith) (
    bytes_at-congr (length src) (a + 1) (overlay a (b ∷ src) mem) (overlay (a + 1) src mem)
      (λ x lo hi. ground arith)
    ∙ bytes_at-overlay src (a + 1) mem)

-- What lies elsewhere stays.
pub bytes_at-overlay_apart :
    (src : List ℕ) (a b n : ℕ) (mem : ℕ → ℕ)
    → (b + n ≤ a) ⊎ (a + length src ≤ b)
    → bytes_at (overlay a src mem) b n ≡ bytes_at mem b n
bytes_at-overlay_apart src a b n mem (inl h) =
    bytes_at-congr n b (overlay a src mem) mem (λ x lo hi. overlay-before src a x mem (omega arith))
bytes_at-overlay_apart src a b n mem (inr h) =
    bytes_at-congr n b (overlay a src mem) mem (λ x lo hi. overlay-past src a x mem (omega arith))

pub length-bytes_at : (mem : ℕ → ℕ) (a n : ℕ) → length (bytes_at mem a n) ≡ n
length-bytes_at mem a zero = refl
length-bytes_at mem a (suc n) = ap suc (length-bytes_at mem (a + 1) n)

pub bytes_at-suc :
    (n a : ℕ) (mem : ℕ → ℕ) → bytes_at mem a (suc n) ≡ bytes_at mem a n ++ mem (a + n) ∷ []
bytes_at-suc zero a mem = ap (λ (x : ℕ). mem x ∷ []) (omega arith)
bytes_at-suc (suc n) a mem =
    ap (λ (l : List ℕ). mem a ∷ l)
      (bytes_at-suc n (a + 1) mem
        ∙ ap (λ (x : ℕ). bytes_at mem (a + 1) n ++ mem x ∷ []) (omega arith))
