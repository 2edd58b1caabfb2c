-- ===== src/Execute/Programs.antt =====
-- The status behind a command that is run as a program, or that no program is found for
-- (`execute_cmd` of src/execute.c, with the waiting of src/jobs.c).
use tash.Base.{
  ℕ, ◌≡◌, refl, ap, Bool, false, ◌&&◌, none, some, List, [], ◌∷◌, ◌++◌, if◌then◌else◌, arith, Text,
}
use tash.Funcs.{get_func}
use tash.Vars.{setup_environ}
use tash.Builtins.State.{ℤ, pos, negsuc, is_negative, Control}
use tash.Builtins.Dispatch.{find_builtin, builtins, try_builtin}
use tash.System.{
  Call, fork_process, exec_program, exit_process, set_foreground, History, System, Status,
  exit_with,
}
use tash.World.{Ended, finished, exited, Rest, World, perform, record_call}
use tash.Jobs.{
  Group, job_init_group, exit_code, same_pid, as_child, as_parent, forked, child_status,
  job_report_termination, wait_for, job_wait, job_fork_async, job_fork, job_single,
}
use tash.Jobs.Isolation.{SameBut, held, job_single-Same}
use tash.Execute.Commands.{Runner, Expansion, apply_assignements, run_program, execute_words}
use tash.Execute.Tree.{interpret}

child_status-unhurt :
    (sys : System) (h : History) (code : ℤ)
    → sys.killed_by h ≡ none
    → child_status sys h code ≡ exit_with (exit_code code)
unfolding child_status
child_status-unhurt sys h code e = ground (arith, e)

wait_for-last :
    (sys : System) (childs : List (ℤ × ℤ)) (pid code : ℤ) (w : World)
    → ((h : History) → sys.killed_by h ≡ none)
    → (wait_for sys (childs ++ ((pid, code) ∷ [])) w).0.exit_status ≡ pos (exit_code code)
unfolding wait_for child_status job_report_termination record_call
wait_for-last sys [] pid code (c, r) unhurt =
    let waited : World = (c, record r { history = Call.wait_child pid ∷ r.history }) in
    ap (λ (status : Status). (job_report_termination status false waited).0.exit_status)
      (child_status-unhurt sys waited.1.history code (unhurt waited.1.history))
wait_for-last sys ((p, n) ∷ childs) pid code (c, r) unhurt =
    wait_for-last sys childs pid code _ unhurt

-- Where no child is killed by a signal, the wait for a group has the low eight bits of the last
-- child's code as its status, whatever the others ended with.
job_wait-last :
    (sys : System) (leader : ℤ) (childs : List (ℤ × ℤ)) (pid code : ℤ) (w : World)
    → ((h : History) → sys.killed_by h ≡ none)
    → (job_wait sys
        (record { leader = leader; childs = childs ++ ((pid, code) ∷ []) })
        w).0.exit_status
      ≡ pos (exit_code code)
unfolding job_wait record_call
job_wait-last sys leader childs pid code w unhurt =
    ground (arith, wait_for-last sys childs pid code w unhurt)

-- The parent behind the fork of a first child.
abbrev parent_of : System → ℤ → World → History → Group × World
parent_of sys code (c, r) h =
    as_parent (sys.answer r.history fork_process) code job_init_group (c, record r { history = h })

job_fork_async-exited :
    (sys : System) (child : World → Ended World) (w : World) (code : ℤ) (h : History)
    → is_negative (sys.answer w.1.history fork_process) ≡ false
    → child (as_child (pos 0) (perform sys fork_process w).1) ≡ exited code h
    → job_fork_async sys child job_init_group w
      ≡ finished (
        sys.answer w.1.history fork_process,
        (parent_of sys code w h).0,
        (parent_of sys code w h).1,
      )
unfolding job_fork_async forked perform
job_fork_async-exited sys child (c, r) code h forks e = rw (forks, e) refl

-- Where the fork works, no child is killed by a signal, and the child exits with this code: the
-- shell goes on with its low eight bits as the status, and with nothing else changed but the
-- interrupt flag and the system calls.
pub job_single-exited :
    (sys : System) (child : World → Ended World) (w : World) (code : ℤ) (h : History)
    → is_negative (sys.answer w.1.history fork_process) ≡ false
    → ((h : History) → sys.killed_by h ≡ none)
    → child (as_child (pos 0) (perform sys fork_process w).1) ≡ exited code h
    → (w' : World) × (job_single sys child w ≡ finished w')
      × (w'.0.exit_status ≡ pos (exit_code code))
      × SameBut w w'
unfolding job_single job_fork as_parent
job_single-exited sys child (c, r) code h forks unhurt e =
    let pid = sys.answer r.history fork_process in
    let (group, w1) = parent_of sys code (c, r) h in
    let w2 : World =
      if same_pid group.leader pid && w1.1.flags.job_control
      then record_call (set_foreground (some pid)) w1
      else w1 in
    let w3 = job_wait sys group w2 in
    let came_back : job_single sys child (c, r) ≡ finished w3 =
      rw (job_fork_async-exited sys child (c, r) code h forks e) (rw forks refl) in
    (
      w3,
      came_back,
      job_wait-last sys pid [] pid code w2 unhurt,
      held (SameBut (c, r)) (job_single sys child (c, r)) w3 (job_single-Same sys child (c, r))
          came_back,
    )

try_builtin-none :
    (sys : System) (f : ℕ) (name : Text) (args : List Text) (w : World)
    → find_builtin name (builtins sys (interpret sys f) f) ≡ none
    → try_builtin sys (interpret sys f) f name args w ≡ finished (negsuc 0, w)
unfolding try_builtin
try_builtin-none sys f name args w e = rw e refl

module _ (sys : System) (run : Runner) (expand : Expansion)
    (no_program : (h : History) (args environ : List Text)
      → sys.program h args environ ≡ none) where
  run_program-unknown :
      (args : List Text) (c : Control) (r : Rest)
      → run_program sys expand [] args false (c, r)
        ≡ exited
            (pos 127)
            (exit_process (pos 127) ∷ exec_program args (setup_environ r.tables.vars) ∷ r.history)
  unfolding run_program apply_assignements
  run_program-unknown args c r =
      ground (arith, no_program r.history args (setup_environ r.tables.vars))

  module _ (f : ℕ) (name : Text) (args : List Text) (c : Control) (r : Rest)
      (no_builtin : find_builtin name (builtins sys (interpret sys f) f) ≡ none)
      (no_func : get_func name r.tables.funcs ≡ none) where
    abbrev command : Bool → Ended World
    command no_fork =
        execute_words sys run expand (try_builtin sys (interpret sys f) f) name args [] no_fork
          (c, r)

    -- A name that is no builtin and no function, on a system without programs, with no assignments,
    -- where the shell forks for it, the fork works and no child is killed: the shell goes on with
    -- status 127, and nothing else changed but the interrupt flag and the system calls.
    pub execute_words-unknown :
        is_negative (sys.answer r.history fork_process) ≡ false
        → ((h : History) → sys.killed_by h ≡ none)
        → (w' : World) × (command false ≡ finished w')
          × (w'.0.exit_status ≡ pos 127)
          × SameBut (c, r) w'
    unfolding execute_words exit_code
    execute_words-unknown forks unhurt =
        let child = run_program sys expand [] (name ∷ args) false in
        let (c1, r1) = as_child (pos 0) (perform sys fork_process (c, r)).1 in
        let (w', q, status, same) =
          job_single-exited sys child (c, r) (pos 127) _ forks unhurt
            (run_program-unknown (name ∷ args) c1 r1) in
        (w', rw (try_builtin-none sys f name args (c, r) no_builtin) (rw no_func q), status, same)
