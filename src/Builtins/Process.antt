-- ===== src/Builtins/Process.antt =====
-- `exit`, `cd`, `source`, `echo`, `eval`, `wait` and `kill` (src/builtin.c), which call the system
-- or the interpreter. Each gives its status and the state behind it.
use tash.Base.{
  ℕ, zero, suc, ◌+◌, ◌-◌, Bool, true, false, not, Option, none, some, List, [], ◌∷◌, ◌++◌, ◌==◌,
  if◌then◌else◌, Text, codes, same_text,
}
use tash.Vars.{putvar, getvar}
use tash.Builtins.State.{ℤ, pos, negsuc, is_negative}
use tash.System.{
  System, exit_process, change_directory, write_text, send_signal, open_file, close_fd,
}
use tash.World.{
  Ended, finished, exited, crashed, stuck, ◌>>=◌, World, perform, record_call, set_status,
}
use tash.Jobs.{job_wait_pid}

abbrev pub Result : Type 0
Result = Ended (ℤ × World)

unfoldable pub exit_with_code : ℤ → World → Result
exit_with_code code (c, r) = exited code (exit_process code ∷ r.history)

unfoldable pub builtin_exit : System → List Text → World → Result
unfolding exit_with_code
builtin_exit sys [] (c, r) = exit_with_code c.exit_status (c, r)
builtin_exit sys (arg ∷ []) w =
    let (n, valid) = sys.strtol arg in
    if not valid then exit_with_code (pos 2) w else exit_with_code n w
builtin_exit sys (_ ∷ _ ∷ _) w = finished (pos 1, w)

unfoldable pub set_pwd : Text → World → World
set_pwd path (c, r) =
    (c, record r { tables = record r.tables { vars = putvar (codes "PWD") path r.tables.vars } })

-- PWD behind `cd dir` is what `getcwd` gives, if anything.
unfoldable pub set_pwd_from : Option Text → World → World
unfolding set_pwd
set_pwd_from none w = w
set_pwd_from (some path) w = set_pwd path w

unfoldable pub builtin_cd : System → List Text → World → Result
unfolding perform set_pwd set_pwd_from
builtin_cd sys [] (c, r) = elim (getvar (codes "HOME") r.tables.vars) [
  | none ↦ finished (pos 1, (c, r))
  | some home ↦
      let (n, w1) = perform sys (change_directory home) (c, r) in
      if is_negative n then finished (pos 1, w1) else finished (pos 0, set_pwd home w1)
]
builtin_cd sys (dir ∷ []) w =
    let (n, (c, r)) = perform sys (change_directory dir) w in
    if is_negative n
    then finished (pos 1, (c, r))
    else finished (pos 0, set_pwd_from (sys.directory r.history) (c, r))
builtin_cd sys (_ ∷ _ ∷ _) w = finished (pos 1, w)

-- `interpret` runs the text of a source to its end, and leaves its result in `exit_status`.
module _ (sys : System) (interpret : Text → World → Ended World) where
  -- `-` is the standard input.
  unfoldable pub eval_script : Text → World → Ended World
  unfolding perform record_call
  eval_script path (c, r) =
      let (fd, (c1, r1)) = perform sys (open_file path true false) (c, r) in
      if same_text path (codes "-")
      then interpret (sys.contents r.history path) (c, r)
      else if is_negative fd
      then finished (set_status (pos 1) (c1, r1))
      else (interpret (sys.contents r1.history path) (c1, r1)
          >>= (λ w. finished (record_call (close_fd fd) w)))

  -- The parameters and `$0` stand back behind the script. (The code puts back a pointer: where it
  -- points into the static array of `set`, and the script calls `set`, the strings there are new.)
  unfoldable pub restored : World → World → ℤ × World
  restored (c, r) (c', r') = (
    c'.exit_status,
    (record c' { args = c.args; stack_depth = c'.stack_depth - 1 }, record r' { argv0 = r.argv0 }),
  )

  unfoldable pub builtin_src : List Text → World → Result
  unfolding eval_script restored
  builtin_src [] w = finished (pos 1, w)
  builtin_src (path ∷ args) (c, r) =
      eval_script path
        (record c { args = args; stack_depth = c.stack_depth + 1 }, record r { argv0 = path })
      >>= (λ w'. finished (restored (c, r) w'))

  -- Every argument with a blank behind it.
  unfoldable pub joined : List Text → Text
  joined [] = []
  joined (arg ∷ args) = arg ++ (b' ' ∷ joined args)

  unfoldable pub builtin_eval : List Text → World → Result
  unfolding joined
  builtin_eval args w = interpret (joined args) w >>= (λ (c, r). finished (c.exit_status, (c, r)))

-- The arguments one by one; a write that fails ends the call.
unfoldable pub echo_args : System → Bool → List Text → World → Result
unfolding perform
echo_args sys newline [] w =
    let (n, w1) = perform sys (write_text (b'\n' ∷ [])) w in
    if not newline
    then finished (pos 0, w)
    else if is_negative n
    then finished (pos 1, w1)
    else finished (pos 0, w1)
echo_args sys newline (arg ∷ args) w =
    let behind : Text = elim args [ [] ↦ [] | _ ∷ _ ↦ b' ' ∷ [] ] in
    let (n, w1) = perform sys (write_text (arg ++ behind)) w in
    let rest = echo_args sys newline args w1 in if is_negative n then finished (pos 1, w1) else rest

-- `-n` counts as an option only with something behind it.
unfoldable pub builtin_echo : System → List Text → World → Result
unfolding echo_args
builtin_echo sys (first ∷ second ∷ rest) w =
    if same_text first (codes "-n")
    then echo_args sys false (second ∷ rest) w
    else echo_args sys true (first ∷ second ∷ rest) w
builtin_echo sys args w = echo_args sys true args w

-- `for (;;)` over every child; `f` are the rounds it is given.
unfoldable pub wait_all : System → ℕ → World → Result
unfolding job_wait_pid
wait_all sys zero w = stuck
wait_all sys (suc f) w =
    let (found, w1) = job_wait_pid sys (negsuc 0) w in
    let rest = wait_all sys f w1 in if found then rest else finished (pos 0, w1)

unfoldable pub wait_pids : System → List Text → World → World
unfolding job_wait_pid
wait_pids sys [] w = w
wait_pids sys (arg ∷ args) w =
    let (pid, valid) = sys.strtol arg in
    let (found, w1) = job_wait_pid sys pid w in
    wait_pids sys args
      (if not valid then set_status (pos 1) w else if found then w1 else set_status (pos 127) w1)

abbrev pub status_and_world : World → Result
status_and_world (c, r) = finished (c.exit_status, (c, r))

unfoldable pub builtin_wait : System → ℕ → List Text → World → Result
unfolding wait_all wait_pids
builtin_wait sys f [] w = wait_all sys f (set_status (pos 0) w)
builtin_wait sys f (arg ∷ args) w =
    status_and_world (wait_pids sys (arg ∷ args) (set_status (pos 0) w))

-- What the options of `kill` come to. `-n` with nothing behind it is a read through NULL.
pub data KillOptions : Type 0 where
  chosen : ℤ → List Text → KillOptions
  invalid_signal no_number : KillOptions

abbrev is_dash : Text → Bool
is_dash [] = false
is_dash (c ∷ _) = c == b'-'

unfoldable pub kill_options : System → List Text → ℤ → KillOptions
kill_options sys [] sig = chosen sig []
kill_options sys (arg ∷ []) sig =
    let behind : Text = elim arg [ [] ↦ [] | _ ∷ cs ↦ cs ] in
    let number = sys.strtol behind in
    if not (is_dash arg)
    then chosen sig (arg ∷ [])
    else if same_text arg (codes "--")
    then chosen sig []
    else if same_text arg (codes "-n")
    then no_number
    else if not number.1
    then invalid_signal
    else chosen number.0 []
kill_options sys (arg ∷ next ∷ rest) sig =
    let behind : Text = elim arg [ [] ↦ [] | _ ∷ cs ↦ cs ] in
    let attached = sys.strtol behind in
    let separate = sys.strtol next in
    let after_attached = kill_options sys (next ∷ rest) attached.0 in
    let after_separate = kill_options sys rest separate.0 in
    if not (is_dash arg)
    then chosen sig (arg ∷ next ∷ rest)
    else if same_text arg (codes "--")
    then chosen sig (next ∷ rest)
    else if same_text arg (codes "-n")
    then (if not separate.1 then invalid_signal else after_separate)
    else if not attached.1
    then invalid_signal
    else after_attached

unfoldable pub kill_pids : System → ℤ → List Text → World → World
unfolding perform
kill_pids sys sig [] w = w
kill_pids sys sig (arg ∷ args) w =
    let (pid, valid) = sys.strtol arg in
    let (n, w1) = perform sys (send_signal pid sig) w in
    kill_pids sys sig args (
      if not valid
      then set_status (pos 1) w
      else if is_negative n
      then set_status (pos 1) w1
      else w1)

abbrev pub sigterm : ℤ
sigterm = pos 15

unfoldable pub builtin_kill : System → List Text → World → Result
unfolding kill_options kill_pids
builtin_kill sys args w = elim (kill_options sys args sigterm) [
  | invalid_signal ↦ finished (pos 1, set_status (pos 0) w)
  | no_number ↦ crashed
  | chosen sig [] ↦ finished (pos 1, set_status (pos 0) w)
  | chosen sig (pid ∷ pids) ↦
      status_and_world (kill_pids sys sig (pid ∷ pids) (set_status (pos 0) w))
]
