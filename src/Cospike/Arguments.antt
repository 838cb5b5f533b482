-- ===== src/Cospike/Arguments.antt =====
-- Which arguments the simulator's host interface gets.
use uart_tsi.Base.{
  ◌≡◌, refl, ap, sym, ◌∙◌, Bool, true, false, ◌||◌, List, [], ◌∷◌, ◌++◌, if◌then◌else◌, not, drop,
  ◌==◌, All, append_assoc, append-nil,
}
use mathlib.Core.Path.{subst}
use uart_tsi.Base.Text.{Text, codes, text_eq, starts_with, strtoull}
use uart_tsi.Permissive.{permissive, permissive_off}
use uart_tsi.Cospike.Sysinfo.{
  CospikeOptions, pass_on, set_enable, set_printf, set_timeout, set_debug, set_option, set_options,
  is_flag, is_cospike,
}

neither_of : (a b : Bool) → (a || b) ≡ false → (a ≡ false) × (b ≡ false)
neither_of false false h = (refl, refl)
neither_of false true h = cc
neither_of true b h = cc

set_options-append :
    (xs ys : List Text) (o : CospikeOptions)
    → set_options (xs ++ ys) o ≡ set_options ys (set_options xs o)
unfolding set_options
set_options-append [] ys o = refl
set_options-append (x ∷ xs) ys o = set_options-append xs ys (set_option x o)

-- Outside a permissive section, other arguments are passed on.
set_option-passed :
    (arg : Text) (o : CospikeOptions)
    → o.in_permissive ≡ false
    → (is_flag arg || is_cospike arg) ≡ false
    → set_option arg o ≡ record o { htif_args = o.htif_args ++ arg ∷ [] }
unfolding set_option
set_option-passed arg o out h =
    let (f, c) = neither_of (is_flag arg) (is_cospike arg) h in
    let (f₀, f₁) = neither_of (text_eq permissive arg) (text_eq permissive_off arg) f in
    let (c', c₄) = neither_of _ (starts_with (codes "+cospike-enable=") arg) c in
    let (c'', c₃) = neither_of _ (starts_with (codes "+cospike-printf=") arg) c' in
    let (c₁, c₂) = neither_of _ (starts_with (codes "+cospike-timeout=") arg) c'' in
    rw (f₀, f₁, c₁, c₂, c₃, c₄, out) refl

set_options-passed :
    (xs : List Text) (o : CospikeOptions)
    → o.in_permissive ≡ false
    → All (λ arg. (is_flag arg || is_cospike arg) ≡ false) xs
    → set_options xs o ≡ record o { htif_args = o.htif_args ++ xs }
unfolding set_options
set_options-passed [] o out h =
    ap (λ (l : List Text). record o { htif_args = l }) (sym (append-nil o.htif_args))
set_options-passed (x ∷ xs) o out h =
    ap (set_options xs) (set_option-passed x o out h.0)
    ∙ set_options-passed xs (record o { htif_args = o.htif_args ++ x ∷ [] }) out h.1
    ∙ ap (λ (l : List Text). record o { htif_args = l }) (append_assoc o.htif_args (x ∷ []) xs)

-- Inside one, none is.
abbrev Inside : CospikeOptions → CospikeOptions → Type 0
Inside o o' = (o'.in_permissive ≡ true) × (o'.htif_args ≡ o.htif_args)

Inside-if :
    (o : CospikeOptions) (b : Bool) (o₁ o₂ : CospikeOptions)
    → Inside o o₁
    → Inside o o₂
    → Inside o (if b then o₁ else o₂)
Inside-if o true o₁ o₂ h k = h
Inside-if o false o₁ o₂ h k = k

pass_on-Inside :
    (arg : Text) (o : CospikeOptions) → o.in_permissive ≡ true → Inside o (pass_on arg o)
unfolding pass_on
pass_on-Inside arg o in_ =
    let off : not o.in_permissive ≡ false = ap not in_ in
    subst
      (λ (b : Bool). Inside o (if b then record o { htif_args = o.htif_args ++ arg ∷ [] } else o))
      (sym off) (in_, refl)

set_debug-Inside :
    (arg : Text) (o : CospikeOptions) → o.in_permissive ≡ true → Inside o (set_debug arg o)
unfolding set_debug
set_debug-Inside arg o in_ =
    Inside-if o (text_eq (codes "+cospike_debug") arg || text_eq (codes "+cospike-debug") arg)
      (record o { cospike_debug = true }) (set_timeout arg o) (in_, refl)
      (Inside-if o (starts_with (codes "+cospike-timeout=") arg)
        (record o { cospike_timeout = strtoull 10 (drop 17 arg) }) (set_printf arg o) (in_, refl)
        (Inside-if o (starts_with (codes "+cospike-printf=") arg)
          (record o { cospike_printf = not (strtoull 10 (drop 16 arg) == 0) }) (set_enable arg o)
          (in_, refl)
          (Inside-if o (starts_with (codes "+cospike-enable=") arg)
            (record o { cospike_enable = not (strtoull 10 (drop 16 arg) == 0) }) (pass_on arg o)
            (in_, refl) (pass_on-Inside arg o in_))))

set_option-Inside :
    (arg : Text) (o : CospikeOptions)
    → o.in_permissive ≡ true
    → is_flag arg ≡ false
    → Inside o (set_option arg o)
unfolding set_option
set_option-Inside arg o in_ f =
    let (f₀, f₁) = neither_of (text_eq permissive arg) (text_eq permissive_off arg) f in
    rw (f₀, f₁) (set_debug-Inside arg o in_)

set_options-Inside :
    (xs : List Text) (o : CospikeOptions)
    → o.in_permissive ≡ true
    → All (λ arg. is_flag arg ≡ false) xs
    → Inside o (set_options xs o)
unfolding set_options
set_options-Inside [] o in_ h = (in_, refl)
set_options-Inside (x ∷ xs) o in_ h =
    let (p, a) = set_option-Inside x o in_ h.0 in
    let (p', a') = set_options-Inside xs (set_option x o) p h.1 in (p', a' ∙ a)

-- Of a permissive section between arguments that are neither a flag nor an option of the
-- co-simulation, the host interface gets nothing, whatever its arguments but the flags are, and
-- it gets all of the others in order.
pub set_options-section :
    (xs section zs : List Text) (o : CospikeOptions)
    → o.in_permissive ≡ false
    → All (λ arg. (is_flag arg || is_cospike arg) ≡ false) xs
    → All (λ arg. is_flag arg ≡ false) section
    → All (λ arg. (is_flag arg || is_cospike arg) ≡ false) zs
    → (set_options (xs ++ permissive ∷ (section ++ permissive_off ∷ zs)) o).htif_args
      ≡ o.htif_args ++ (xs ++ zs)
unfolding set_options set_option
set_options-section xs section zs o out hx hs hz =
    let o₁ : CospikeOptions = record o { in_permissive = true; htif_args = o.htif_args ++ xs } in
    let o₂ : CospikeOptions = set_options section o₁ in
    let (p, a) = set_options-Inside section o₁ refl hs in
    ap (λ (q : CospikeOptions). q.htif_args)
      (set_options-append xs (permissive ∷ (section ++ permissive_off ∷ zs)) o
        ∙ ap (set_options (permissive ∷ (section ++ permissive_off ∷ zs)))
            (set_options-passed xs o out hx)
        ∙ set_options-append section (permissive_off ∷ zs) o₁
        ∙ set_options-passed zs (record o₂ { in_permissive = false }) refl hz)
    ∙ ap (λ (l : List Text). l ++ zs) a
    ∙ append_assoc o.htif_args xs zs
