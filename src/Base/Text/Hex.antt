-- ===== src/Base/Text/Hex.antt =====
-- A number written in hexadecimal digits is read back by `strtoull`.
use Prim.Native.Nat.{ℕ, zero, suc, ◌+◌, ◌*◌, ◌/◌, ◌%◌, ◌^◌, ◌<◌}
use mathlib.Core.Path.{◌≡◌, refl, ap, sym, ◌∙◌}
use mathlib.Core.Bool.{false}
use mathlib.Core.Option.{none, some}
use mathlib.Core.List.{[], ◌∷◌, ◌++◌, append_assoc, append-nil}
use native.Mathlib.Omega.{arith}
use native.Mathlib.Nat.{pow-suc}
use uart_tsi.Base.Tests.{ltb, ◌==◌, if◌then◌else◌}
use mathlib.Core.Logic.{◌≢◌}
use uart_tsi.Base.Lists.{All, All-append}
use uart_tsi.Base.Text.{
  Text, strtoull, read_digits, is_space, signed_value, skip_space, after_sign, digit_in,
  has_hex_prefix, magnitude,
}

abbrev pub hex_digit : ℕ → ℕ
hex_digit d = if ltb d 10 then d + b'0' else d + 87

-- `%0*lx`: the last `w` digits
abbrev pub hex : ℕ → ℕ → Text
hex zero n = []
hex (suc w) n = hex w (n / 16) ++ hex_digit (n % 16) ∷ []

digit_in-hex_digit : (d : ℕ) → d < 16 → digit_in 16 (hex_digit d) ≡ some d
unfolding digit_in
digit_in-hex_digit d h = ground arith

pub read_digits-cons :
    (base acc c d : ℕ) (s : Text)
    → digit_in base c ≡ some d
    → read_digits base acc (c ∷ s) ≡ read_digits base (acc * base + d) s
unfolding read_digits
read_digits-cons base acc c d s e = rw (e, read_digits) refl

pub read_digits-hex :
    (w n acc : ℕ) (rest : Text)
    → n < 16 ^ w
    → read_digits 16 acc (hex w n ++ rest) ≡ read_digits 16 (acc * 16 ^ w + n) rest
read_digits-hex zero n acc rest h = ap (λ (a : ℕ). read_digits 16 a rest) (omega arith)
read_digits-hex (suc w) n acc rest h =
    rw (append_assoc (hex w (n / 16)) (hex_digit (n % 16) ∷ []) rest) (
      read_digits-hex w (n / 16) acc (hex_digit (n % 16) ∷ rest) (omega (arith, pow-suc 16 w))
      ∙ read_digits-cons 16 (acc * 16 ^ w + n / 16) (hex_digit (n % 16)) (n % 16) rest
          (digit_in-hex_digit (n % 16) (omega arith))
      ∙ ap (λ (a : ℕ). read_digits 16 a rest)
          (omega (arith, pow-suc 16 w, ap (λ (p : ℕ). acc * p) (pow-suc 16 w))))

abbrev pub IsHexDigit : ℕ → Type 0
IsHexDigit c = digit_in 16 c ≢ none

pub hex-IsHexDigit : (w n : ℕ) → All IsHexDigit (hex w n)
hex-IsHexDigit zero n = tt
hex-IsHexDigit (suc w) n =
    All-append IsHexDigit (hex w (n / 16)) (hex_digit (n % 16) ∷ []) (hex-IsHexDigit w (n / 16))
      (λ e. cc (digit_in-hex_digit (n % 16) (omega arith)), tt)

-- A digit is no space, no sign and no `x`.
IsHexDigit-plain :
    (c : ℕ)
    → IsHexDigit c
    → (is_space c ≡ false)
      × ((c == b'-') ≡ false)
      × ((c == b'+') ≡ false)
      × ((c == b'x') ≡ false)
      × ((c == b'X') ≡ false)
unfolding is_space digit_in
IsHexDigit-plain c h = ground arith

-- So there is no `0x` in digits alone.
has_hex_prefix-IsHexDigit : (s : Text) → All IsHexDigit s → has_hex_prefix s ≡ false
unfolding has_hex_prefix
has_hex_prefix-IsHexDigit [] h = refl
has_hex_prefix-IsHexDigit (a ∷ []) h = refl
has_hex_prefix-IsHexDigit (a ∷ b ∷ []) h = refl
has_hex_prefix-IsHexDigit (a ∷ b ∷ c ∷ s) h = ground (arith, IsHexDigit-plain b h.1.0)

strtoull-IsHexDigit :
    (s : Text) → All IsHexDigit s → strtoull 16 s ≡ signed_value false (read_digits 16 0 s)
unfolding strtoull skip_space after_sign magnitude signed_value read_digits
strtoull-IsHexDigit [] h = refl
strtoull-IsHexDigit (c ∷ s) h =
    ground (arith, IsHexDigit-plain c h.0, has_hex_prefix-IsHexDigit (c ∷ s) h)

read_digits-hex_all : (w n : ℕ) → n < 16 ^ w → read_digits 16 0 (hex w n) ≡ n
unfolding read_digits
read_digits-hex_all w n fits =
    ap (λ (s : Text). read_digits 16 0 s) (sym (append-nil (hex w n)))
    ∙ read_digits-hex w n 0 [] fits
    ∙ omega arith

-- `strtoull(…, 16)` reads back what was printed in hexadecimal.
pub strtoull-hex : (w n : ℕ) → n < 16 ^ w → n < 2 ^ 64 → strtoull 16 (hex w n) ≡ n
unfolding signed_value
strtoull-hex w n fits small =
    ground (arith, strtoull-IsHexDigit (hex w n) (hex-IsHexDigit w n), read_digits-hex_all w n fits)
