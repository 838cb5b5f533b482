-- ===== src/Htif/Parse.antt =====
-- The options `+init_write=0x<address>:0x<value>` and `+init_read=0x<address>`, parsed back.
use uart_tsi.Base.{
  ◌%◌, ◌>>=◌, ℕ, ◌+◌, ◌-◌, ◌^◌, ◌<◌, ◌≡◌, refl, ap, sym, ◌∙◌, Bool, true, false, Option, none, some,
  List, [], ◌∷◌, ◌++◌, take, drop, length, map, take-append_length, drop-append_length, drop-drop,
  append-nil, append_assoc, Run, done, arith, All,
}
use mathlib.Core.Path.{ap₂}
use uart_tsi.Base.Text.{Text, codes, find?, strtoull, digit_in}
use uart_tsi.Base.Text.Hex.{hex, strtoull-hex, IsHexDigit, hex-IsHexDigit}
use uart_tsi.Htif.{
  InitAccess, HtifArgs, push_access, init_write_at, parse_init_read, parse_no_msip, parse_htif_arg,
  parse_htif_args,
}

abbrev write_text : Text → Text → Text
write_text a v = codes "+init_write=0x" ++ (a ++ (codes ":0x" ++ v))

abbrev read_text : Text → Text
read_text a = codes "+init_read=0x" ++ a

abbrev pub show_fields : ℕ → ℕ → ℕ → Bool → Text
show_fields w a v true = write_text (hex w a) (hex w v)
show_fields w a v false = read_text (hex w a)

-- A command line's spelling of an access, with `w` digits for each number.
abbrev pub show_access : ℕ → InitAccess → Text
show_access w a = show_fields w a.address a.stdata a.store

-- The digits of the address hold no colon, so the first `:0x` is the one behind them.
add-sub_left : (n m : ℕ) → n + m - n ≡ m
add-sub_left n m = omega arith

find?-digits :
    (s rest : Text)
    → All IsHexDigit s
    → find? (codes ":0x") (s ++ (codes ":0x" ++ rest)) ≡ some (length s)
unfolding find? digit_in
find?-digits [] rest h = refl
find?-digits (c ∷ s) rest h = ground (arith, find?-digits s rest h.1, h.0)

find?-write_text :
    (a v : Text) → All IsHexDigit a → find? (codes ":0x") (write_text a v) ≡ some (14 + length a)
unfolding find?
find?-write_text a v h = ground (arith, find?-digits a v h)

value_of-write_text : (a v : Text) → drop (14 + length a + 3) (write_text a v) ≡ v
value_of-write_text a v =
    sym (drop-drop 3 (14 + length a) (write_text a v))
    ∙ ap (λ (s : Text). drop 3 s) (sym (drop-drop (length a) 14 (write_text a v)))
    ∙ ap (λ (s : Text). drop 3 s) (drop-append_length a (codes ":0x" ++ v))

address_of-write_text : (a v : Text) → take (14 + length a - 14) (drop 14 (write_text a v)) ≡ a
address_of-write_text a v =
    ap (λ (n : ℕ). take n (a ++ (codes ":0x" ++ v))) (add-sub_left 14 (length a))
    ∙ take-append_length a (codes ":0x" ++ v)

init_write_at-write_text :
    (a v : Text)
    → init_write_at (write_text a v) (some (14 + length a))
      ≡ done (record { address = strtoull 16 a; stdata = strtoull 16 v % 2 ^ 32; store = true })
unfolding init_write_at
init_write_at-write_text a v =
    ap₂
      (λ (s r : Text).
        done (record { address = strtoull 16 s; stdata = strtoull 16 r % 2 ^ 32; store = true }))
      (address_of-write_text a v) (value_of-write_text a v)

-- The other two options do not match this one.
others-write_text :
    (a v : Text) (h : HtifArgs) (o : Option ℕ)
    → (do
      h' ← (do x ← init_write_at (write_text a v) o; done (push_access h x))
      done (parse_no_msip (write_text a v) (parse_init_read (write_text a v) h')))
      ≡ (do x ← init_write_at (write_text a v) o; done (push_access h x))
unfolding init_write_at parse_no_msip parse_init_read
others-write_text a v h none = refl
others-write_text a v h (some d) = refl

parse_htif_arg-write_text :
    (a v : Text) (h : HtifArgs) {d : ℕ}
    → find? (codes ":0x") (write_text a v) ≡ some d
    → parse_htif_arg (write_text a v) h
      ≡ (do x ← init_write_at (write_text a v) (some d); done (push_access h x))
unfolding parse_htif_arg
parse_htif_arg-write_text a v h e =
    others-write_text a v h (find? (codes ":0x") (write_text a v))
    ∙ ap (λ (o : Option ℕ). do x ← init_write_at (write_text a v) o; done (push_access h x)) e

parse_htif_arg-read_text :
    (a : Text) (h : HtifArgs)
    → parse_htif_arg (read_text a) h
      ≡ done (push_access h (record { address = strtoull 16 a; stdata = 0; store = false }))
unfolding parse_htif_arg
parse_htif_arg-read_text a h = refl

-- An access within the width of its fields and of the digits printed.
abbrev pub Fits : ℕ → InitAccess → Type 0
Fits w a =
    (a.address < 16 ^ w)
    × (a.address < 2 ^ 64)
    × (a.stdata < 16 ^ w)
    × (a.stdata < 2 ^ 32)
    × (a.store ≡ false → a.stdata ≡ 0)

parse_htif_arg-show_fields :
    (w a v : ℕ) (store : Bool) (h : HtifArgs)
    → Fits w (record { address = a; stdata = v; store = store })
    → parse_htif_arg (show_fields w a v store) h
      ≡ done (push_access h (record { address = a; stdata = v; store = store }))
parse_htif_arg-show_fields w a v true h fits =
    parse_htif_arg-write_text (hex w a) (hex w v) h
      (find?-write_text (hex w a) (hex w v) (hex-IsHexDigit w a))
    ∙ ap (λ (r : Run InitAccess). do x ← r; done (push_access h x))
        (init_write_at-write_text (hex w a) (hex w v))
    ∙ ap₂ (λ (s r : ℕ). done (push_access h (record { address = s; stdata = r; store = true })))
        (strtoull-hex w a fits.0 fits.1)
        (ap (λ (n : ℕ). n % 2 ^ 32) (strtoull-hex w v fits.2 (omega arith)) ∙ omega arith)
parse_htif_arg-show_fields w a v false h fits =
    parse_htif_arg-read_text (hex w a) h
    ∙ ap₂ (λ (s r : ℕ). done (push_access h (record { address = s; stdata = r; store = false })))
        (strtoull-hex w a fits.0 fits.1) (sym (fits.4 refl))

-- Options printed with `w` hexadecimal digits a number, for accesses whose numbers fit the
-- digits and their own fields, are parsed back to the same accesses, in order and after those
-- already there, and nothing else changes.
pub parse_htif_args-show_access :
    (w : ℕ) (accesses : List InitAccess) (h : HtifArgs)
    → All (Fits w) accesses
    → parse_htif_args (map (show_access w) accesses) h
      ≡ done (record h { init_accesses = h.init_accesses ++ accesses })
unfolding parse_htif_args push_access
parse_htif_args-show_access w [] h fits = ground (arith, append-nil h.init_accesses)
parse_htif_args-show_access w (a ∷ accesses) h fits =
    let h' = push_access h a in
    ap (λ (r : Run HtifArgs). do x ← r; parse_htif_args (map (show_access w) accesses) x)
      (parse_htif_arg-show_fields w a.address a.stdata a.store h fits.0)
    ∙ parse_htif_args-show_access w accesses h' fits.1
    ∙ ap (λ (l : List InitAccess). done (record h { init_accesses = l }))
        (append_assoc h.init_accesses (a ∷ []) accesses)
