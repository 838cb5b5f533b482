-- ===== src/Permissive.antt =====
-- The wrapping of plus-arguments that both `main` functions make
-- (uart_tsi_src/testchip_uart_tsi.cc and uio_mmio_src/uio_mmio_main.cc).
use uart_tsi.Base.{◌≡◌, Bool, true, false, List, [], ◌∷◌, if◌then◌else◌, ◌==◌, Run, done, ◌>>=◌}
use uart_tsi.Base.Text.{Text, codes, starts_with}

-- `argv[i][0] == '+'`; the empty string's first character is its terminator.
unfoldable pub is_plusarg : Text → Bool
is_plusarg [] = false
is_plusarg (c ∷ s) = c == b'+'

abbrev pub permissive : Text
permissive = codes "+permissive"

abbrev pub permissive_off : Text
permissive_off = codes "+permissive-off"

unfoldable pub wrap_args : List Text → List Text
unfolding is_plusarg
wrap_args [] = []
wrap_args (arg ∷ args) =
    let rest = wrap_args args in
    if is_plusarg arg then permissive ∷ arg ∷ permissive_off ∷ rest else arg ∷ rest

-- The front-end server's parser of options: the options, and the target's arguments. It documents
-- that it lets any option pass between the two flags, and that the target's arguments begin with the
-- first that is none.
pub record OptionParser : Type 0 where
  pub parse : List Text → Run (List Text × List Text)
  pub permitted :
      (a : Text) (args : List Text)
      → is_plusarg a ≡ true
      → starts_with permissive a ≡ false
      → parse (permissive ∷ a ∷ permissive_off ∷ args)
        ≡ (do (options, targs) ← parse args; done (a ∷ options, targs))
  pub program :
      (a : Text) (args : List Text)
      → is_plusarg a ≡ false
      → starts_with (codes "-") a ≡ false
      → parse (a ∷ args) ≡ done ([], a ∷ args)
