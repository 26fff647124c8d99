-- ===== src/Options.antt =====
-- The command line of the three programs: the loop over `getopt(argc, argv, "c:")` in the `main` of
-- src/lab4/c/sensor_commands/tools/sensor_cmds/main.c, of src/lab3/tools/eie_device_server/main.c and
-- of src/proyecto/eie_device/tools/eie_device/main.c.
use ie0417_dev_b.Base.{
  All, ◌≢◌, ◌∙◌, ap, zero, ◌<◌, Bool-cases, inl, inr, length-append, length-drop, drop-last, ℕ, suc,
  ◌+◌, ◌≡◌, refl, Option, none, some, List, [], ◌∷◌, ◌++◌, ℤ, negsuc, CString, drop, length, ◌==◌,
  if◌then◌else◌, arith,
}
use ie0417_dev_b.SensorCommands.Command.{strncpy, c_string}
use ie0417_dev_b.SensorCommands.Command.Lifecycle.{c_string-strncpy}

-- What `getopt` returns before -1: the option, and `optarg`.
abbrev pub GetoptAnswer : Type 0
GetoptAnswer = ℕ × CString

abbrev pub path_max : ℕ
path_max = 4096

abbrev pub minus_einval : ℤ
minus_einval = negsuc 21

abbrev pub option_c : ℕ
option_c = 99

-- The bytes of `cfg_filename` after the loop; `none` where the program returns -EINVAL.
unfoldable pub parse_options : List GetoptAnswer → (cfg_filename : List ℕ) → Option (List ℕ)
unfolding strncpy
parse_options [] cfg_filename = some cfg_filename
parse_options ((opt, optarg) ∷ l) cfg_filename =
    let rest = parse_options l (strncpy optarg path_max ++ drop path_max cfg_filename) in
    if opt == option_c then rest else none

-- Options that are all `-c`.
abbrev pub all_config : List CString → List GetoptAnswer
all_config [] = []
all_config (f ∷ l) = (option_c, f) ∷ all_config l

length-strncpy : (s : CString) (n : ℕ) → length (strncpy s n) ≡ n
unfolding strncpy
length-strncpy s zero = refl
length-strncpy [] (suc n) = ap suc (length-strncpy [] n)
length-strncpy (c ∷ s) (suc n) = ap suc (length-strncpy s n)

length-copied :
    (n : ℕ) (f : CString) (array : List ℕ)
    → length array ≡ n + 1
    → length (strncpy f n ++ drop n array) ≡ n + 1
length-copied n f array h = omega (
  arith,
  length-append (strncpy f n) (drop n array),
  length-strncpy f n,
  length-drop n array (omega (arith, h)),
  h,
)

c_string-copied :
    (n : ℕ) (f : CString) (array : List ℕ)
    → length array ≡ n + 1
    → All (λ c. c ≢ 0) f
    → length f < n
    → c_string (strncpy f n ++ drop n array) ≡ some f
c_string-copied n f array h t short =
    let (j, e) = drop-last n array h in
    ap (λ x. c_string (strncpy f n ++ x)) e ∙ c_string-strncpy f n j t ∙ ground (arith, short)

-- Where all options are -c and the last file name has less than PATH_MAX bytes, the options are
-- accepted and `cfg_filename` holds that name, whatever the names before it and the first contents
-- of the array are.
pub parse_options-last :
    (l : List CString) (f : CString) (uninit : List ℕ)
    → length uninit ≡ path_max + 1
    → All (λ c. c ≢ 0) f
    → length f < path_max
    → (array : List ℕ) × (parse_options (all_config (l ++ f ∷ [])) uninit ≡ some array)
      × (length array ≡ path_max + 1)
      × (c_string array ≡ some f)
unfolding parse_options
parse_options-last [] f uninit h t short = (
  strncpy f path_max ++ drop path_max uninit,
  refl,
  length-copied path_max f uninit h,
  c_string-copied path_max f uninit h t short,
)
parse_options-last (g ∷ l) f uninit h t short =
    parse_options-last l f (strncpy g path_max ++ drop path_max uninit)
      (length-copied path_max g uninit h) t short

-- An unknown option is refused, wherever it stands.
pub parse_options-unknown :
    (l r : List GetoptAnswer) (opt : ℕ) (optarg : CString) (uninit : List ℕ)
    → opt ≢ option_c
    → parse_options (l ++ (opt, optarg) ∷ r) uninit ≡ none
unfolding parse_options
parse_options-unknown [] r opt optarg uninit h = ground (arith, h)
parse_options-unknown ((o, a) ∷ l) r opt optarg uninit h =
    let rest =
      parse_options-unknown l r opt optarg (strncpy a path_max ++ drop path_max uninit) h in
    elim (Bool-cases (o == option_c)) [ inl b ↦ rw (b, rest) refl | inr b ↦ rw b refl ]
