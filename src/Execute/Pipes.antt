-- ===== src/Execute/Pipes.antt =====
-- Pipelines, background commands and command substitution (src/execute.c, and `execute_subshell` of
-- src/expand.c).
use tash.Base.{
  ℕ, suc, Bool, true, false, ◌||◌, Option, none, some, List, [], ◌∷◌, ◌==◌, if◌then◌else◌, Text,
  codes,
}
use tash.Parser.Tree.{Node, missing, node, pipe}
use tash.Builtins.State.{ℤ, pos, negsuc, is_negative}
use tash.System.{System, make_pipe, close_fd, dup_fd, exit_process, open_file}
use tash.World.{
  Ended, finished, exited, crashed, stuck, runaway, ◌>>=◌, World, perform, record_call, shell_of,
  with_shell,
}
use tash.Expand.Shell.{Shell, Expanded, ok, expansion_error}
use tash.Jobs.{Group, job_init_group, job_fork, job_fork_async, job_wait}
use tash.Execute.Commands.{Runner}

-- `exit(exit_status)`, at the end of a child.
abbrev pub then_exit : Ended World → Ended World
then_exit e = e >>= (λ (c, r). exited c.exit_status (exit_process c.exit_status ∷ r.history))

-- The commands of a pipeline with their places, from the left.
unfoldable pub stages : Node → List ℕ → List (Node × List ℕ)
stages (node (pipe left right) redirs) place = (left, 0 ∷ place) ∷ stages right (1 ∷ place)
stages n place = (n, place) ∷ []

abbrev pub input_from : Option ℤ → World → World
input_from none w = w
input_from (some fd) w = record_call (close_fd fd) (record_call (dup_fd fd (pos 0)) w)

abbrev pub close_input : Option ℤ → World → World
close_input none w = w
close_input (some fd) w = record_call (close_fd fd) w

-- A command of a pipeline, in its child: behind `wire`, which puts its ends of the pipes in place.
unfoldable pub stage_child : Runner → Node → List ℕ → (World → World) → World → Ended World
stage_child run n place wire w = then_exit (run n place true (wire w))

unfoldable pub wire_between : Option ℤ → ℤ → ℤ → World → World
unfolding record_call
wire_between input out_end in_end w =
    record_call (close_fd in_end)
      (record_call (close_fd out_end) (record_call (dup_fd in_end (pos 1)) (input_from input w)))

-- The parent behind the last fork.
unfoldable pub after_stages : System → Option ℤ → ℤ × Group × World → Ended World
unfolding job_wait
after_stages sys input (_, group, w) = finished (job_wait sys group (close_input input w))

-- The loop of `execute_pipe`, with `in` and the group. The type of the last command is read, be it
-- NULL.
unfoldable pub pipe_stages :
    System → Runner → List (Node × List ℕ) → Option ℤ → Group → World → Ended World
unfolding job_fork record_call after_stages stage_child wire_between
pipe_stages sys run [] input group w = finished w
pipe_stages sys run ((missing, place) ∷ []) input group w = crashed
pipe_stages sys run ((node content redirs, place) ∷ []) input group w =
    job_fork sys (stage_child run (node content redirs) place (input_from input)) group w
    >>= after_stages sys input
pipe_stages sys run ((n, place) ∷ next ∷ more) input group (c, r) =
    let (out_end, in_end) = sys.pipe_ends r.history in
    job_fork sys (stage_child run n place (wire_between input out_end in_end)) group
      (c, record r { history = make_pipe ∷ r.history })
    >>= (λ (_, group', w').
        pipe_stages sys run (next ∷ more) (some out_end) group'
          (record_call (close_fd in_end) (close_input input w')))

unfoldable pub execute_pipe : System → Runner → Node → List ℕ → World → Ended World
unfolding stages pipe_stages
execute_pipe sys run n place w = pipe_stages sys run (stages n place) none job_init_group w

abbrev pub is_stdin : ℤ → Bool
is_stdin (pos n) = n == 0
is_stdin (negsuc n) = false

-- The input of a background command. In its child TASH_JOB_CONTROL is off already, so that it is
-- /dev/null with job control also.
unfoldable pub detach_input : System → World → World
unfolding perform record_call
detach_input sys (c, r) =
    let (null, w1) = perform sys (open_file (codes "/dev/null") true false) (c, r) in
    if r.flags.job_control
    then (c, r)
    else if is_negative null || is_stdin null
    then w1
    else record_call (close_fd null) (record_call (dup_fd null (pos 0)) w1)

unfoldable pub execute_async : System → Runner → Node → List ℕ → World → Ended World
unfolding job_fork_async detach_input
execute_async sys run n place w =
    job_fork_async sys (λ w'. then_exit (run n place true (detach_input sys w'))) job_init_group w
    >>= (λ (_, group, (c, r)). finished (c, record r { last_background = group.leader }))

abbrev same_stdout : ℤ → Bool
same_stdout (pos n) = n == 1
same_stdout (negsuc n) = false

abbrev capture_output : ℤ → ℤ → World → World
capture_output out_end in_end (c, r) =
    let w1 = record_call (close_fd out_end) (c, record r { roots = suc r.roots }) in
    if same_stdout in_end
    then w1
    else record_call (close_fd in_end) (record_call (dup_fd in_end (pos 1)) w1)

-- The parent of a command substitution does not exit itself.
of_reads : Ended (List Text × World) → Expanded (List Text)
unfolding shell_of
of_reads (finished (reads, w)) = ok reads (shell_of w)
of_reads (exited n h) = Expanded.runaway
of_reads crashed = Expanded.crashed
of_reads stuck = Expanded.stuck
of_reads runaway = Expanded.runaway

-- A child of the shell that runs a tree for its output: `execute_subshell`, but for the appending.
-- Its tree is a root of its own.
unfoldable pub substitution : System → Runner → World → Node → Shell → Expanded (List Text)
unfolding perform with_shell shell_of of_reads job_fork job_wait record_call
substitution sys run w n sh =
    let (out_end, in_end) = sys.pipe_ends sh.history in
    let (made, (c, r)) = perform sys make_pipe (with_shell sh w) in
    if is_negative made
    then expansion_error (shell_of (c, r))
    else of_reads (
        job_fork sys
          (λ w'. then_exit (run n (r.roots ∷ []) true (capture_output out_end in_end w')))
          job_init_group (c, r)
        >>= (λ (_, group, w1).
            let (c2, r2) = record_call (close_fd in_end) w1 in
            finished
              (sys.reads r2.history, record_call (close_fd out_end) (job_wait sys group (c2, r2)))))
