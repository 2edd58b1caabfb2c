-- ===== src/Jobs.antt =====
-- Processes and groups (src/jobs.c). A forked child is run to its end at the fork; a group keeps
-- the code of each child with its pid, for the wait.
pub mod Isolation
use tash.Base.{
  ℕ, ◌+◌, ◌-◌, ◌%◌, Bool, true, false, not, ◌&&◌, Option, none, some, List, [], ◌∷◌, ◌++◌, ◌==◌,
  if◌then◌else◌,
}
use tash.Builtins.State.{ℤ, pos, negsuc, is_negative, Control}
use tash.System.{
  Call, fork_process, set_group, set_foreground, set_handlers, wait_child, History, Status,
  exit_with, signaled, System,
}
use tash.World.{
  Ended, finished, exited, crashed, stuck, runaway, ◌>>=◌, Rest, World, perform, record_call,
}

-- `exit(code)` keeps eight bits.
unfoldable pub exit_code : ℤ → ℕ
exit_code (pos n) = n % 256
exit_code (negsuc n) = 255 - n % 256

abbrev pub sigint : ℕ
sigint = 2

unfoldable pub job_report_termination : Status → Bool → World → World
job_report_termination (exit_with n) bg (c, r) = (record c { exit_status = pos n }, r)
job_report_termination (signaled sig) bg (c, r) = (
  record c {
    exit_status = pos (sig + 128);
    sigint_break = if not bg && sig == sigint && r.flags.job_control then true else c.sigint_break;
  },
  r,
)

unfoldable pub job_control_setup : World → World
unfolding record_call
job_control_setup (c, r) = record_call (set_handlers r.flags.job_control) (c, r)

-- `childs` are the pids in order, with the code that each child ended with.
pub record Group : Type 0 where
  pub leader : ℤ
  pub childs : List (ℤ × ℤ)

abbrev pub job_init_group : Group
job_init_group = record { leader = pos 0; childs = [] }

abbrev is_none_yet : ℤ → Bool
is_none_yet (pos n) = n == 0
is_none_yet (negsuc n) = false

abbrev pub same_pid : ℤ → ℤ → Bool
same_pid (pos n) (pos m) = n == m
same_pid _ _ = false

-- The child's side of `job_fork_async`.
unfoldable pub as_child : ℤ → World → World
unfolding record_call job_control_setup
as_child leader (c, r) =
    if r.flags.job_control
    then job_control_setup (
      c,
      record r {
        interactive = false;
        flags = record r.flags { job_control = false };
        history = set_group (pos 0) leader ∷ r.history;
      },
    )
    else (c, record r { interactive = false })

-- The parent's side, behind the child's end.
unfoldable pub as_parent : ℤ → ℤ → Group → World → Group × World
unfolding record_call
as_parent pid code group (c, r) = (
  record {
    leader = if is_none_yet group.leader then pid else group.leader;
    childs = group.childs ++ ((pid, code) ∷ []);
  },
  if r.flags.job_control then record_call (set_group pid group.leader) (c, r) else (c, r),
)

-- The parent behind a fork that gave this pid, once the child has ended.
unfoldable pub forked : ℤ → Group → World → Ended World → Ended (ℤ × Group × World)
unfolding as_parent
forked pid group (c, r) (exited code history) =
    let (group', w) = as_parent pid code group (c, record r { history = history }) in
    finished (pid, group', w)
forked pid group w (finished _) = runaway
forked pid group w crashed = crashed
forked pid group w stuck = stuck
forked pid group w runaway = runaway

-- The child runs `child`, which has to end its process.
unfoldable pub job_fork_async :
    System → (World → Ended World) → Group → World → Ended (ℤ × Group × World)
unfolding perform as_child forked
job_fork_async sys child group w =
    let (pid, w1) = perform sys fork_process w in
    if is_negative pid
    then finished (pid, group, w1)
    else forked pid group w1 (child (as_child group.leader w1))

unfoldable pub job_fork : System → (World → Ended World) → Group → World → Ended (ℤ × Group × World)
unfolding job_fork_async record_call
job_fork sys child group w = job_fork_async sys child group w >>= (λ (pid, group', (c, r)).
    finished (
      pid,
      group',
      if same_pid group'.leader pid && r.flags.job_control
          then record_call (set_foreground (some pid)) (c, r)
          else (c, r),
    ))

-- The status of a child that ended by itself with this code, or by a signal.
unfoldable pub child_status : System → History → ℤ → Status
unfolding exit_code
child_status sys history code = elim (sys.killed_by history) [
  | none ↦ exit_with (exit_code code)
  | some sig ↦ signaled sig
]

unfoldable pub wait_for : System → List (ℤ × ℤ) → World → World
unfolding record_call child_status job_report_termination
wait_for sys [] w = w
wait_for sys ((pid, code) ∷ childs) w =
    let (c, r) = record_call (wait_child pid) w in
    wait_for sys childs (job_report_termination (child_status sys r.history code) false (c, r))

unfoldable pub job_wait : System → Group → World → World
unfolding wait_for record_call
job_wait sys group w =
    let (c, r) = wait_for sys group.childs w in
    if r.flags.job_control then record_call (set_foreground none) (c, r) else (c, r)

-- The parent's side of `job_single`: back from the wait, or from a fork that failed.
unfoldable pub job_single : System → (World → Ended World) → World → Ended World
unfolding job_fork job_wait
job_single sys child w = job_fork sys child job_init_group w >>= (λ (pid, group, w').
    if is_negative pid then finished w' else finished (job_wait sys group w'))

-- `waitpid` for a child by pid; false is -1.
unfoldable pub job_wait_pid : System → ℤ → World → Bool × World
unfolding perform job_report_termination
job_wait_pid sys pid w =
    let (n, (c, r)) = perform sys (wait_child pid) w in
    if is_negative n
    then (false, (c, r))
    else (true, job_report_termination (sys.status_of r.history) false (c, r))
