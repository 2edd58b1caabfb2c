-- ===== src/Execute/Forked.antt =====
-- What runs in children leaves the shell's own state alone (src/execute.c): subshells, pipelines
-- and background commands.
use tash.Base.{ℕ, suc, ◌≡◌, refl, Bool, true, false, Option, none, some, List, [], ◌∷◌}
use tash.Builtins.State.{ℤ}
use tash.Parser.Tree.{Node, missing, node, subshell, pipe}
use tash.System.{System, close_fd, make_pipe}
use tash.World.{finished, World, record_call}
use tash.Jobs.{Group, job_init_group, job_fork, job_single}
use tash.Jobs.Isolation.{
  SameBut, SameBut-refl, SameBut-trans, SameBut-record_call, SameBut-job_wait, Holds, Holds-bind,
  Holds-weaken, SameForked, job_fork-Same, job_single-Same, held,
}
use tash.Execute.Commands.{Runner}
use tash.Execute.Pipes.{
  stages, stage_child, wire_between, input_from, after_stages, pipe_stages, execute_pipe,
  close_input, then_exit,
}
use tash.Execute.Tree.{execute, execute_content}

SameBut-close_input : (input : Option ℤ) (w : World) → SameBut w (close_input input w)
SameBut-close_input none w = SameBut-refl w
SameBut-close_input (some fd) w = SameBut-record_call (close_fd fd) w

pub pipe_stages-Same :
    (sys : System) (run : Runner) (commands : List (Node × List ℕ)) (input : Option ℤ)
    (group : Group) (w : World)
    → Holds (SameBut w) (pipe_stages sys run commands input group w)
unfolding pipe_stages after_stages
pipe_stages-Same sys run [] input group w = SameBut-refl w
pipe_stages-Same sys run ((missing, place) ∷ []) input group w = tt
pipe_stages-Same sys run ((node content redirs, place) ∷ []) input group w =
    let child = stage_child run (node content redirs) place (input_from input) in
    Holds-bind (SameForked w) (SameBut w) (job_fork sys child group w) (after_stages sys input)
      (job_fork-Same sys child group w)
      (λ (pid, group', w') h. SameBut-trans _ _ _ h (
        SameBut-trans _ _ _ (SameBut-close_input input w')
          (SameBut-job_wait sys group' (close_input input w'))))
pipe_stages-Same sys run ((n, place) ∷ next ∷ more) input group (c, r) =
    let (out_end, in_end) = sys.pipe_ends r.history in
    let piped : World = (c, record r { history = make_pipe ∷ r.history }) in
    let child = stage_child run n place (wire_between input out_end in_end) in
    let closed = λ (w' : World). record_call (close_fd in_end) (close_input input w') in
    Holds-bind (SameForked piped) (SameBut (c, r)) (job_fork sys child group piped)
      (λ (_, group', w'). pipe_stages sys run (next ∷ more) (some out_end) group' (closed w'))
      (job_fork-Same sys child group piped)
      (λ (pid, group', w') h.
        Holds-weaken (SameBut (closed w')) (SameBut (c, r))
          (pipe_stages sys run (next ∷ more) (some out_end) group' (closed w'))
          (pipe_stages-Same sys run (next ∷ more) (some out_end) group' (closed w'))
          (λ w'' k.
            SameBut-trans (c, r) piped _ (record { control = refl; rest = refl })
              (SameBut-trans _ _ _ h (
                SameBut-trans _ _ _ (SameBut-close_input input w') (
                  SameBut-trans _ _ _ (SameBut-record_call (close_fd in_end) (close_input input w'))
                    k)))))

-- Where a subshell `( … )` is not run in place of the shell (FLAG_NO_FORK is off) and comes back,
-- whatever it ran, the shell that waited for it is as it was, but for the exit status, the interrupt
-- flag and the system calls: variables, functions, parameters, flags and depths are the same.
pub execute_content-subshell :
    (sys : System) (f : ℕ) (child : Node) (place : List ℕ) (w w' : World)
    → execute_content sys (suc f) (subshell child) place false w ≡ finished w'
    → SameBut w w'
unfolding execute_content
execute_content-subshell sys f child place w w' e =
    let inner = λ (v : World). then_exit (execute sys f child (0 ∷ place) true v) in
    held (SameBut w) (job_single sys inner w) w' (job_single-Same sys inner w) e

-- Where a pipeline comes back, the shell that waited for it is as it was, but for the exit status,
-- the interrupt flag and the system calls, even where its commands are builtins.
pub execute_content-pipe :
    (sys : System) (f : ℕ) (left right : Node) (place : List ℕ) (no_fork : Bool) (w w' : World)
    → execute_content sys (suc f) (pipe left right) place no_fork w ≡ finished w'
    → SameBut w w'
unfolding execute_content execute_pipe
execute_content-pipe sys f left right place no_fork w w' e =
    let commands = stages (node (pipe left right) []) place in
    held (SameBut w) (pipe_stages sys (execute sys f) commands none job_init_group w) w'
      (pipe_stages-Same sys (execute sys f) commands none job_init_group w) e
