-- ===== src/Start.antt =====
-- The start of the shell (src/main.c and src/init.c): the options, what is launched, and the set-up.
-- Locale and messages are left out.
use tash.Base.{
  ℕ, suc, Bool, true, false, not, ◌&&◌, ◌||◌, Option, none, some, List, [], ◌∷◌, ◌++◌, take,
  get_elem?, ◌==◌, if◌then◌else◌, Text, codes, same_text,
}
use tash.Lexer.Source.{Source}
use tash.Vars.{putvar, setup_var}
use tash.Builtins.State.{Control}
use tash.Builtins.Tables.{Tables}
use tash.Builtins.Process.{eval_script}
use tash.System.{System}
use tash.World.{Ended, finished, Rest, World, ◌>>=◌}
use tash.Jobs.{job_control_setup}
use tash.Execute.Tree.{interpret, interpret_source}
mod Options
pub mod Command
mod Tests
unfoldable pub use Options.{scan, launch}
pub use Options.{
  Start, Scanned, stopped, version, help, unknown, Launch, run_command, run_script, read_prompt,
  read_input, print_version, print_help, refuse, read_null,
}

-- What the set-up asks for: the environment with its HOME, the answer of `getcwd`, which files there
-- are, the PREFIX of the build, and argv[0] behind the dash of a login shell.
pub record Surroundings : Type 0 where
  pub environ : List Text
  pub home : Option Text
  pub directory : Option Text
  pub exists : Text → Bool
  pub prefix : Text
  pub tash_cmd : Text

module _ (sys : System) (s : Surroundings) (f : ℕ) where
  unfoldable pub ex_script : Text → World → Ended World
  unfolding eval_script
  ex_script path w =
      let run = eval_script sys (interpret sys f) path w in
      if s.exists path then run else finished w

  -- The path is cut off at 255 bytes.
  unfoldable pub ex_script_home : Text → World → Ended World
  unfolding ex_script
  ex_script_home name w = elim s.home [
    | none ↦ finished w
    | some home ↦ ex_script (take 255 (home ++ codes "/" ++ name)) w
  ]

  abbrev set_tables : World → World
  unfolding putvar setup_var
  set_tables (c, r) = (
    c,
    record r {
      tables = record r.tables {
        vars = putvar (codes "TASH") s.tash_cmd (setup_var s.environ s.directory r.tables.vars);
      };
    },
  )

  abbrev take_terminal : Start → World → World
  unfolding job_control_setup
  take_terminal st (c, r) =
      if st.interactive
      then job_control_setup (c, record r { flags = record r.flags { job_control = true } })
      else (c, r)

  unfoldable pub init : Start → World → Ended World
  unfolding set_tables take_terminal job_control_setup ex_script ex_script_home
  init st (c, r) =
      let w = job_control_setup (set_tables (c, record r { interactive = st.interactive })) in
      let profile =
        ex_script (s.prefix ++ codes "/etc/profile") w >>= ex_script_home (codes ".profile") in
      let tashrc =
        ex_script (s.prefix ++ codes "/etc/tashrc") w >>= ex_script_home (codes ".tashrc") in
      (if st.login then profile else if st.interactive then tashrc else finished w)
      >>= (λ v. finished (take_terminal st v))

  abbrev with_args : List Text → World → World
  with_args args (c, r) = (record c { args = args }, r)

  abbrev with_script : Text → List Text → World → World
  with_script path args (c, r) = (record c { args = args }, record r { argv0 = path })

  -- Behind the reading of the options; `bytes` are what the prompt will give. The calls that only
  -- print, and those that refuse, do not come here.
  unfoldable pub run_launch : Source → Launch → World → Option (Ended World)
  unfolding init eval_script
  run_launch bytes (run_command text st) w =
      some (init st (with_args [] w) >>= interpret sys f text)
  run_launch bytes (run_script path args st) w =
      some (init st (with_script path args w) >>= eval_script sys (interpret sys f) path)
  run_launch bytes (read_prompt args st) w =
      some (init st (with_args args w) >>= interpret_source sys f bytes)
  run_launch bytes (read_input args st) w =
      some (init st (with_args args w) >>= eval_script sys (interpret sys f) (codes "-"))
  run_launch bytes other w = none
