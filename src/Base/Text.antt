-- ===== src/Base/Text.antt =====
-- Byte strings, and what the program uses of `std::string` and of `strtoull`.
pub mod Hex
pub mod Decimal
use Prim.Native.Nat.{ℕ, zero, suc, ◌+◌, ◌-◌, ◌*◌, ◌%◌, ◌^◌}
use Prim.Native.Char.{code}
use Prim.Native.String.{String}
use mathlib.Core.Bool.{Bool, true, false, ◌&&◌, ◌||◌}
use mathlib.Core.Option.{Option, none, some}
use mathlib.Core.Option
use mathlib.Core.List.{List, [], ◌∷◌}
use uart_tsi.Base.Tests.{ltb, leb, ◌==◌, if◌then◌else◌}

abbrev pub Text : Type 0
Text = List ℕ

-- A literal of the source: its bytes.
abbrev pub codes : String → Text
codes String.[] = []
codes (String.◌∷◌ c s) = code c ∷ codes s

-- `s.find(p) == 0`
unfoldable pub starts_with : Text → Text → Bool
starts_with [] s = true
starts_with (c ∷ p) [] = false
starts_with (c ∷ p) (d ∷ s) = (c == d) && starts_with p s

-- `s == p`
unfoldable pub text_eq : Text → Text → Bool
text_eq [] [] = true
text_eq [] (d ∷ s) = false
text_eq (c ∷ p) [] = false
text_eq (c ∷ p) (d ∷ s) = (c == d) && text_eq p s

-- `s.find(p)`, `none` for `npos`
unfoldable pub find? : Text → Text → Option ℕ
unfolding starts_with
find? p [] = if starts_with p [] then some 0 else none
find? p (c ∷ s) = if starts_with p (c ∷ s) then some 0 else Option.map suc (find? p s)

unfoldable pub is_space : ℕ → Bool
is_space c = (c == 32) || (leb 9 c && leb c 13)

unfoldable pub skip_space : Text → Text
unfolding is_space
skip_space [] = []
skip_space (c ∷ s) = if is_space c then skip_space s else c ∷ s

unfoldable pub digit_value : ℕ → Option ℕ
digit_value c =
    if leb b'0' c && leb c b'9'
    then some (c - b'0')
    else if leb b'a' c && leb c b'z'
    then some (c - b'a' + 10)
    else if leb b'A' c && leb c b'Z'
    then some (c - b'A' + 10)
    else none

unfoldable pub digit_in : ℕ → ℕ → Option ℕ
unfolding digit_value
digit_in base c = elim (digit_value c) [
  | none ↦ none
  | some d ↦ if ltb d base then some d else none
]

-- The digits up to the first character that is none.
unfoldable pub read_digits : ℕ → ℕ → Text → ℕ
read_digits base acc [] = acc
read_digits base acc (c ∷ s) = elim (digit_in base c) [
  | none ↦ acc
  | some d ↦ read_digits base (acc * base + d) s
]

-- `0x` counts as a prefix only before a hexadecimal digit.
unfoldable pub has_hex_prefix : Text → Bool
unfolding digit_in
has_hex_prefix (z ∷ x ∷ d ∷ s) =
    (z == b'0')
    && ((x == b'x') || (x == b'X'))
    && elim (digit_in 16 d) [ none ↦ false | some _ ↦ true ]
has_hex_prefix _ = false

unfoldable pub after_prefix : Text → Text
after_prefix (z ∷ x ∷ s) = s
after_prefix s = s

-- The value of the digits behind the sign, before it is cut to 64 bits.
unfoldable pub magnitude : ℕ → Text → ℕ
unfolding has_hex_prefix after_prefix read_digits digit_in
magnitude base s =
    if (base == 16 || base == 0) && has_hex_prefix s
    then read_digits 16 0 (after_prefix s)
    else if base == 0
    then read_digits (if starts_with (b'0' ∷ []) s then 8 else 10) 0 s
    else read_digits base 0 s

-- Past the range the result is `ULLONG_MAX`; a minus sign negates modulo 2^64.
unfoldable pub signed_value : Bool → ℕ → ℕ
signed_value minus v =
    if leb (2 ^ 64) v then 2 ^ 64 - 1 else if minus then (2 ^ 64 - v) % 2 ^ 64 else v

unfoldable pub after_sign : ℕ → Text → ℕ
unfolding magnitude signed_value
after_sign base [] = 0
after_sign base (c ∷ s) =
    if c == b'-'
    then signed_value true (magnitude base s)
    else if c == b'+'
    then signed_value false (magnitude base s)
    else signed_value false (magnitude base (c ∷ s))

-- `strtoull(s, 0, base)`
unfoldable pub strtoull : ℕ → Text → ℕ
unfolding skip_space after_sign
strtoull base s = after_sign base (skip_space s)
