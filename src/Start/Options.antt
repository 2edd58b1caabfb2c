-- ===== src/Start/Options.antt =====
-- The options of the command line (`main` of src/main.c).
use tash.Base.{
  Bool, true, false, not, ◌||◌, Option, none, some, List, [], ◌∷◌, get_elem?, ◌==◌, if◌then◌else◌,
  Text, codes, same_text,
}

-- TASH_LOGIN and TASH_INTERACTIVE.
pub record Start : Type 0 where
  pub login : Bool
  pub interactive : Bool

-- The letters behind one dash.
unfoldable pub read_letters : Text → Start → Option Start
read_letters [] st = some st
read_letters (c ∷ cs) st =
    if c == b'l'
    then read_letters cs (record st { login = true })
    else if c == b'i'
    then read_letters cs (record st { interactive = true })
    else none

-- The loop comes to an argument that is no option, or to the end; or it prints, or refuses.
pub data Scanned : Type 0 where
  stopped : Start → List Text → Scanned
  version help unknown : Scanned

-- An option that starts with two dashes: to go on with, or the end.
pub data Long : Type 0 where
  go_on : Start → Long
  show_version show_help reject : Long

unfoldable pub read_long : Text → Start → Long
read_long opt st =
    if same_text opt (codes "login")
    then go_on (record st { login = true })
    else if same_text opt (codes "interactive")
    then go_on (record st { interactive = true })
    else if same_text opt (codes "version")
    then show_version
    else if same_text opt (codes "help")
    then show_help
    else reject

abbrev of_letters : Option Start → Long
of_letters none = reject
of_letters (some st) = go_on st

-- One argument: `none` where the loop stops at it.
unfoldable pub read_option : Text → Start → Option Long
unfolding read_letters read_long
read_option [] st = none
read_option (c ∷ []) st = if c == b'-' then some (go_on st) else none
read_option (c ∷ d ∷ opt) st =
    if not (c == b'-') || d == b'c'
    then none
    else if d == b'-'
    then some (read_long opt st)
    else some (of_letters (read_letters (d ∷ opt) st))

unfoldable pub scan : List Text → Start → Scanned
unfolding read_option
scan [] st = stopped st []
scan (arg ∷ args) st = elim (read_option arg st) [
  | none ↦ stopped st (arg ∷ args)
  | some (go_on st') ↦ scan args st'
  | some show_version ↦ version
  | some show_help ↦ help
  | some reject ↦ unknown
]

-- What is launched, with the parameters. `read_null` is the evaluation of a missing argv[2].
pub data Launch : Type 0 where
  run_command : Text → Start → Launch
  run_script : Text → List Text → Start → Launch
  read_prompt read_input : List Text → Start → Launch
  print_version print_help refuse read_null : Launch

abbrev or_null : Start → Option Text → Launch
or_null st none = read_null
or_null st (some text) = run_command text st

-- The commands behind the loop; `args` is argv + 1, `tty` what `isatty` says.
unfoldable pub launch_from : List Text → Bool → Scanned → Launch
launch_from args tty version = print_version
launch_from args tty help = print_help
launch_from args tty unknown = refuse
launch_from args tty (stopped st []) =
    if tty || st.interactive
    then read_prompt args (record st { interactive = true })
    else read_input args st
launch_from args tty (stopped st (arg ∷ [])) =
    if same_text arg (codes "-c") then refuse else run_script arg [] st
launch_from args tty (stopped st (arg ∷ next ∷ more)) =
    if same_text arg (codes "-c")
    then or_null st (get_elem? args 1)
    else run_script arg (next ∷ more) st

abbrev pub starts_login : Text → Start
starts_login [] = record { login = false; interactive = false }
starts_login (c ∷ cs) = record { login = c == b'-'; interactive = false }

unfoldable pub launch : Text → List Text → Bool → Launch
unfolding scan launch_from
launch argv0 args tty = launch_from args tty (scan args (starts_login argv0))
