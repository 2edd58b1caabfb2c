-- ===== src/Execute/Runs.antt =====
-- Runs of the whole of `execute` (src/execute.c), on a concrete system and a fresh shell.
use tash.Base.{ℕ, ◌≡◌, refl, false, List, [], ◌∷◌, if◌then◌else◌, Text, codes}
use tash.Builtins.State.{ℤ, pos}
use tash.Builtins.Dispatch.{find_builtin, builtins, try_builtin}
use tash.Parser.Tree.{Node, node, cmd, while}
use tash.System.{make_pipe, fork_process, dup_fd, close_fd, History, wait_child, exit_process}
use tash.World.{finished, exited, World}
use tash.Jobs.{exit_code, job_single}
use tash.Jobs.Isolation.{SameBut}
use tash.Execute.Samples.{plain_system, calm, idle}
use tash.Execute.Tree.{execute, expand, interpret}
use tash.Execute.Balance.{execute-depths}
use tash.Execute.Programs.{job_single-exited, execute_words-unknown}
use tash.Execute.Redirect.{SavedFd, same_fd, restore_fds}
use tash.Execute.Restore.{Descriptors, restore_fds-last_saved}
use tash.Execute.Commands.{execute_words}
use tash.Expand.Split.{word_expansion}
use tash.Builtins.Control.{builtin_break}
use tash.Funcs.{get_func}
use tash.Execute.Forked.{execute_content-subshell, execute_content-pipe}

abbrev command : Text → Node
command name = node (cmd (record { text = name; quoted = false } ∷ []) []) []

-- while true; do break; done
abbrev while_break : Node
while_break = node (while (command (codes "true")) (command (codes "break"))) []

abbrev start : World
start = (calm, idle)

abbrev after_break : World
after_break = (record calm { exit_status = pos 0 }, idle)

execute-depths_example :
    (after_break.0.loop_depth ≡ start.0.loop_depth)
    × (after_break.0.stack_depth ≡ start.0.stack_depth)
unfolding execute word_expansion builtin_break
execute-depths_example = execute-depths plain_system 30 while_break [] false start after_break refl

-- (break), and false | break
abbrev behind_children : ℕ → History → World
behind_children status calls =
    (record calm { exit_status = pos status }, record idle { history = calls })

abbrev after_subshell : World
after_subshell = behind_children 0 (wait_child (pos 77) ∷ exit_process (pos 0) ∷ fork_process ∷ [])

execute_content-subshell_example : SameBut start after_subshell
unfolding execute word_expansion builtin_break
execute_content-subshell_example =
    execute_content-subshell plain_system 30 (command (codes "break")) [] start after_subshell refl

abbrev after_pipe : World
after_pipe = behind_children 0 (
    wait_child (pos 77)
    ∷ wait_child (pos 77)
    ∷ close_fd (pos 5)
    ∷ exit_process (pos 0)
    ∷ close_fd (pos 5)
    ∷ dup_fd (pos 5) (pos 0)
    ∷ fork_process
    ∷ close_fd (pos 6)
    ∷ exit_process (pos 1)
    ∷ close_fd (pos 6)
    ∷ close_fd (pos 5)
    ∷ dup_fd (pos 6) (pos 1)
    ∷ fork_process
    ∷ make_pipe
    ∷ [])

execute_content-pipe_example : SameBut start after_pipe
unfolding execute word_expansion builtin_break
execute_content-pipe_example =
    execute_content-pipe plain_system 30 (command (codes "false")) (command (codes "break")) []
      false start after_pipe refl

abbrev nosuch : Text
nosuch = codes "nosuch"

execute_words-unknown_example :
    (w : World) × (execute_words plain_system
        (execute plain_system 5)
        (expand plain_system 5)
        (try_builtin plain_system (interpret plain_system 5) 5)
        nosuch
        []
        []
        false
        start
      ≡ finished w)
    × (w.0.exit_status ≡ pos 127)
    × SameBut start w
unfolding builtins find_builtin get_func
execute_words-unknown_example =
    execute_words-unknown plain_system (execute plain_system 5) (expand plain_system 5)
      (λ h a e. refl) 5 nosuch [] calm idle refl refl refl (λ h. refl)

job_single-exited_example :
    (w : World) × (job_single plain_system (λ v. exited (pos 300) []) start ≡ finished w)
    × (w.0.exit_status ≡ pos 44)
    × SameBut start w
unfolding exit_code
job_single-exited_example =
    job_single-exited plain_system (λ v. exited (pos 300) []) start (pos 300) [] refl (λ h. refl)
      refl

-- A table of descriptors, with the number of its file for each.
abbrev files_after : History → ℤ → ℕ
files_after [] x = 0
files_after (dup_fd a b ∷ h) x = if same_fd x b then files_after h a else files_after h x
files_after (close_fd fd ∷ h) x = if same_fd x fd then 0 else files_after h x
files_after (c ∷ h) x = files_after h x

descriptors-closed :
    (h : History) (fd x : ℤ)
    → same_fd x fd ≡ false
    → files_after (close_fd fd ∷ h) x ≡ files_after h x
descriptors-closed h fd x e = rw e refl

abbrev descriptors : Descriptors ℕ plain_system
descriptors = record {
  table = files_after;
  dup_works = λ h a b. refl;
  moved = λ h a b x. refl;
  flagged = λ h fd flags x. refl;
  closed = descriptors-closed;
}

-- Descriptor 1, saved as 10 and then as 11: it has the file of 11 then.
abbrev saved_as : ℕ → SavedFd
saved_as copy = record { original = pos 1; saved = pos copy; flags = pos 0 }

abbrev twice : List SavedFd
twice = saved_as 10 ∷ saved_as 11 ∷ []

restore_fds-last_saved_example :
    files_after (restore_fds plain_system twice start).1.history (pos 1)
    ≡ files_after start.1.history (pos 11)
restore_fds-last_saved_example =
    restore_fds-last_saved plain_system descriptors twice start (pos 1) ((refl, refl, tt), (tt, tt))
      (refl, (refl, tt))
