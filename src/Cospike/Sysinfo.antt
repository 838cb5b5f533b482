-- ===== src/Cospike/Sysinfo.antt =====
-- `cospike_set_sysinfo` of csrc/cospike_impl.cc, and its caller in csrc/cospike.cc.
use uart_tsi.Base.{
  ℕ, ◌-◌, ◌%◌, ◌^◌, Bool, true, false, ◌&&◌, ◌||◌, not, Option, none, some, List, [], ◌∷◌, ◌++◌,
  if◌then◌else◌, leb, ltb, ◌==◌, drop, is_empty, Run, done, stop, threw, ◌>>=◌,
}
use uart_tsi.Base.Text.{
  Text, codes, text_eq, starts_with, strtoull, is_space, digit_value, magnitude,
}
use uart_tsi.Permissive.{permissive, permissive_off}

-- `system_info_t`
pub record SystemInfo : Type 0 where
  pub isa : Text
  pub pmpregions : ℕ
  pub maxpglevels : ℕ
  pub mem0_base : ℕ
  pub mem0_size : ℕ
  pub mem1_base : ℕ
  pub mem1_size : ℕ
  pub mem2_base : ℕ
  pub mem2_size : ℕ
  pub nharts : ℕ
  pub bootrom : List ℕ
  pub priv : Text
  pub htif_args : List Text

-- What the options set, `in_permissive` included.
pub record CospikeOptions : Type 0 where
  pub in_permissive : Bool
  pub cospike_debug : Bool
  pub cospike_timeout : ℕ
  pub cospike_printf : Bool
  pub cospike_enable : Bool
  pub htif_args : List Text

-- The last branches of the ladder of options, each with those behind it.
unfoldable pub pass_on : Text → CospikeOptions → CospikeOptions
pass_on arg o = if not o.in_permissive then record o { htif_args = o.htif_args ++ arg ∷ [] } else o

unfoldable pub set_enable : Text → CospikeOptions → CospikeOptions
unfolding pass_on starts_with strtoull
set_enable arg o =
    if starts_with (codes "+cospike-enable=") arg
    then record o { cospike_enable = not (strtoull 10 (drop 16 arg) == 0) }
    else pass_on arg o

unfoldable pub set_printf : Text → CospikeOptions → CospikeOptions
unfolding set_enable starts_with strtoull
set_printf arg o =
    if starts_with (codes "+cospike-printf=") arg
    then record o { cospike_printf = not (strtoull 10 (drop 16 arg) == 0) }
    else set_enable arg o

unfoldable pub set_timeout : Text → CospikeOptions → CospikeOptions
unfolding set_printf starts_with strtoull
set_timeout arg o =
    if starts_with (codes "+cospike-timeout=") arg
    then record o { cospike_timeout = strtoull 10 (drop 17 arg) }
    else set_printf arg o

unfoldable pub set_debug : Text → CospikeOptions → CospikeOptions
unfolding set_timeout text_eq
set_debug arg o =
    if text_eq (codes "+cospike_debug") arg || text_eq (codes "+cospike-debug") arg
    then record o { cospike_debug = true }
    else set_timeout arg o

unfoldable pub set_option : Text → CospikeOptions → CospikeOptions
unfolding set_debug text_eq
set_option arg o =
    if text_eq permissive arg
    then record o { in_permissive = true }
    else if text_eq permissive_off arg
    then record o { in_permissive = false }
    else set_debug arg o

unfoldable pub set_options : List Text → CospikeOptions → CospikeOptions
unfolding set_option
set_options [] o = o
set_options (arg ∷ args) o = set_options args (set_option arg o)

-- `ss >> s` until the end: the words between white space. `word` is the one that is being read.
unfoldable pub words_from : Text → Text → List Text
unfolding is_space
words_from word [] = if is_empty word then [] else word ∷ []
words_from word (c ∷ s) =
    let rest = words_from [] s in
    let more = words_from (word ++ c ∷ []) s in
    if not (is_space c) then more else if is_empty word then rest else word ∷ rest

-- `std::stoi` of a word throws without a digit or past the range of an `int`; the value is cut to
-- the eight bits of a `char`.
unfoldable pub stoi_char : Bool → Text → Run ℕ
unfolding digit_value magnitude
stoi_char minus [] = stop threw
stoi_char minus (c ∷ s) =
    let v : ℕ = magnitude 10 (c ∷ s) in
    if not (leb b'0' c && leb c b'9') || ltb (if minus then 2 ^ 31 else 2 ^ 31 - 1) v
    then stop threw
    else done (if minus then (2 ^ 32 - v) % 256 else v % 256)

unfoldable pub word_char : Text → Run ℕ
unfolding stoi_char
word_char [] = stop threw
word_char (c ∷ s) =
    if c == b'-'
    then stoi_char true s
    else if c == b'+'
    then stoi_char false s
    else stoi_char false (c ∷ s)

unfoldable pub bootrom_chars : List Text → Run (List ℕ)
unfolding word_char
bootrom_chars [] = done []
bootrom_chars (w ∷ ws) = do c ← word_char w; cs ← bootrom_chars ws; done (c ∷ cs)

-- The numbers that the target gives: `pmpregions`, `maxpglevels`, the bases and sizes of the
-- memories, and `nharts`. `htif_args` is still empty.
unfoldable pub make_info : Text → Text → Text → SystemInfo → Run SystemInfo
unfolding words_from bootrom_chars
make_info isa priv bootrom target = do
  chars ← bootrom_chars (words_from [] bootrom)
  done
      (record target { isa = isa ++ codes "_zicntr"; priv = priv; bootrom = chars; htif_args = [] })

-- Only the first call does anything. `args` are the arguments without the program's name.
unfoldable pub cospike_set_sysinfo :
    Option SystemInfo
    → CospikeOptions
    → Text
    → Text
    → Text
    → SystemInfo
    → List Text
    → Run (SystemInfo × CospikeOptions)
unfolding make_info set_options
cospike_set_sysinfo (some info) o isa priv bootrom target args = done (info, o)
cospike_set_sysinfo none o isa priv bootrom target args = do
  info ← make_info isa priv bootrom target
  let o' =
      set_options args (record o { in_permissive = false; cospike_debug = false; htif_args = [] })
  done (record info { htif_args = o'.htif_args }, o')

-- One of the two flags
abbrev pub is_flag : Text → Bool
is_flag arg = text_eq permissive arg || text_eq permissive_off arg

-- One of the options of the co-simulation
abbrev pub is_cospike : Text → Bool
is_cospike arg =
    text_eq (codes "+cospike_debug") arg
    || text_eq (codes "+cospike-debug") arg
    || starts_with (codes "+cospike-timeout=") arg
    || starts_with (codes "+cospike-printf=") arg
    || starts_with (codes "+cospike-enable=") arg
