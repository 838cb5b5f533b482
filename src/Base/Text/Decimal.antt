-- ===== src/Base/Text/Decimal.antt =====
-- `std::to_string` of an `int` that is not negative, which `strtoull` reads back.
use Prim.Native.Nat.{ℕ, zero, suc, ◌+◌, ◌*◌, ◌/◌, ◌%◌, ◌^◌, ◌<◌}
use mathlib.Core.Path.{◌≡◌, ap, sym, ◌∙◌}
use mathlib.Core.Logic.{inl, inr}
use mathlib.Core.Option.{some}
use mathlib.Core.List.{[], ◌∷◌, ◌++◌, append_assoc, append-nil}
use native.Mathlib.Omega.{arith}
use native.Mathlib.Nat.{pow-suc}
use uart_tsi.Base.Tests.{ltb, if◌then◌else◌, Bool-cases, lt→ltb}
use uart_tsi.Base.Lists.{drop, length, drop-append_length}
use uart_tsi.Base.Text.{Text, read_digits, digit_in}
use uart_tsi.Base.Text.Hex.{read_digits-cons}

-- At most `k` digits
unfoldable pub to_digits : ℕ → ℕ → Text
to_digits zero n = []
to_digits (suc k) n =
    let more = to_digits k (n / 10) in
    if ltb n 10 then (n + b'0') ∷ [] else more ++ (n % 10 + b'0') ∷ []

-- An `int` has at most ten digits.
unfoldable pub to_string : ℕ → Text
unfolding to_digits
to_string n = to_digits 10 n

digit_in-digit : (d : ℕ) → d < 10 → digit_in 10 (d + b'0') ≡ some d
unfolding digit_in
digit_in-digit d h = ground arith

read_digit :
    (acc d : ℕ) (rest : Text) (n : ℕ)
    → d < 10
    → acc * 10 + d ≡ n
    → read_digits 10 acc ((d + b'0') ∷ rest) ≡ read_digits 10 n rest
read_digit acc d rest n h e =
    read_digits-cons 10 acc (d + b'0') d rest (digit_in-digit d h)
    ∙ ap (λ (a : ℕ). read_digits 10 a rest) e

read_digits-to_digits :
    (k n : ℕ) (rest : Text)
    → n < 10 ^ k
    → 0 < k
    → read_digits 10 0 (to_digits k n ++ rest) ≡ read_digits 10 n rest
unfolding to_digits
read_digits-to_digits zero n rest h pos = absurd (omega arith)
read_digits-to_digits (suc zero) n rest h pos =
    let one : n < 10 = omega (arith, pow-suc 10 0) in
    rw (lt→ltb n 10 one) (read_digit 0 n rest n one (omega arith))
read_digits-to_digits (suc (suc k)) n rest h pos = elim (Bool-cases (ltb n 10)) [
  | inl one ↦ rw one (read_digit 0 n rest n (ground arith) (omega arith))
  | inr more ↦
      rw (more, append_assoc (to_digits (suc k) (n / 10)) ((n % 10 + b'0') ∷ []) rest)
        (read_digits-to_digits (suc k) (n / 10) ((n % 10 + b'0') ∷ rest)
            (omega (arith, pow-suc 10 (suc k))) (omega arith)
          ∙ read_digit (n / 10) (n % 10) rest n (omega arith) (omega arith))
]

-- The number is read back.
read_digits-to_string : (n : ℕ) → n < 10 ^ 10 → read_digits 10 0 (to_string n) ≡ n
unfolding to_string read_digits
read_digits-to_string n h =
    ap (read_digits 10 0) (sym (append-nil (to_digits 10 n)))
    ∙ read_digits-to_digits 10 n [] h (omega arith)

-- So names that differ in the number only are of the same number.
pub to_string-injective :
    (prefix : Text) (m n : ℕ)
    → m < 10 ^ 10
    → n < 10 ^ 10
    → prefix ++ to_string m ≡ prefix ++ to_string n
    → m ≡ n
to_string-injective prefix m n hm hn e =
    let same : to_string m ≡ to_string n =
      sym (drop-append_length prefix (to_string m))
      ∙ ap (drop (length prefix)) e
      ∙ drop-append_length prefix (to_string n) in
    sym (read_digits-to_string m hm) ∙ ap (read_digits 10 0) same ∙ read_digits-to_string n hn
