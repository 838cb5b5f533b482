-- ===== src/Htif.antt =====
-- csrc/testchip_htif.h and csrc/testchip_htif.cc: the accesses that the command line asks for
-- before the target is reset.
pub mod Parse
mod Tests
use uart_tsi.Base.{
  ℕ, ◌+◌, ◌-◌, ◌%◌, ◌^◌, Bool, true, false, Option, none, some, List, [], ◌∷◌, ◌++◌, if◌then◌else◌,
  word_bytes, take, drop, Run, done, stop, threw, ◌>>=◌,
}
use uart_tsi.Base.Text.{Text, codes, starts_with, find?, strtoull}

-- The two virtual functions of `testchip_htif_t`, over a state `S` of the target.
pub record Bus (S : Type 0) : Type 0 where
  pub write_chunk : ℕ → List ℕ → S → Run S
  pub read_chunk : ℕ → ℕ → S → Run (List ℕ × S)

-- `init_access_t`
pub record InitAccess : Type 0 where
  pub address : ℕ
  pub stdata : ℕ
  pub store : Bool

-- The members that `parse_htif_args` sets.
pub record HtifArgs : Type 0 where
  pub init_accesses : List InitAccess
  pub write_hart0_msip : Bool

abbrev pub default_args : HtifArgs
default_args = record { init_accesses = []; write_hart0_msip = true }

unfoldable pub push_access : HtifArgs → InitAccess → HtifArgs
push_access h a = record h { init_accesses = h.init_accesses ++ a ∷ [] }

-- `d` is `arg.find(":0x")`; it is past the fourteen bytes of the option's name, which hold no `:`.
unfoldable pub init_write_at : Text → Option ℕ → Run InitAccess
init_write_at arg none = stop threw
init_write_at arg (some d) = done (record {
  address = strtoull 16 (take (d - 14) (drop 14 arg));
  stdata = strtoull 16 (drop (d + 3) arg) % 2 ^ 32;
  store = true;
})

unfoldable pub parse_init_write : Text → HtifArgs → Run HtifArgs
unfolding init_write_at push_access starts_with find?
parse_init_write arg h =
    if starts_with (codes "+init_write=0x") arg
    then (do a ← init_write_at arg (find? (codes ":0x") arg); done (push_access h a))
    else done h

unfoldable pub parse_init_read : Text → HtifArgs → HtifArgs
unfolding push_access starts_with
parse_init_read arg h =
    if starts_with (codes "+init_read=0x") arg
    then push_access h (record { address = strtoull 16 (drop 13 arg); stdata = 0; store = false })
    else h

unfoldable pub parse_no_msip : Text → HtifArgs → HtifArgs
unfolding starts_with
parse_no_msip arg h =
    if starts_with (codes "+no_hart0_msip") arg then record h { write_hart0_msip = false } else h

unfoldable pub parse_htif_arg : Text → HtifArgs → Run HtifArgs
unfolding parse_init_write parse_init_read parse_no_msip
parse_htif_arg arg h = do
  h' ← parse_init_write arg h
  done (parse_no_msip arg (parse_init_read arg h'))

unfoldable pub parse_htif_args : List Text → HtifArgs → Run HtifArgs
unfolding parse_htif_arg
parse_htif_args [] h = done h
parse_htif_args (arg ∷ args) h = do h' ← parse_htif_arg arg h; parse_htif_args args h'

module _ {S : Type 0} (bus : Bus S) where
  open bus use {write_chunk, read_chunk}

  unfoldable pub perform_access : InitAccess → S → Run S
  perform_access p s =
      if p.store
      then write_chunk p.address (word_bytes p.stdata) s
      else (do (bytes, s') ← read_chunk p.address 4 s; done s')

  unfoldable pub perform_init_accesses : List InitAccess → S → Run S
  unfolding perform_access
  perform_init_accesses [] s = done s
  perform_init_accesses (p ∷ ps) s = do s' ← perform_access p s; perform_init_accesses ps s'
